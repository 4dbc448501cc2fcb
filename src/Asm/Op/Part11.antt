-- ===== src/Asm/Op/Part11.antt =====
-- power64asm/tables.go: the constants of type Op from EVFSCTUF to MACLHWSO_.
use Prim.Native.Nat.{ℕ}

abbrev pub evfsctuf : ℕ
evfsctuf = 1046

abbrev pub efsabs : ℕ
efsabs = 1047

abbrev pub efsneg : ℕ
efsneg = 1048

abbrev pub efsnabs : ℕ
efsnabs = 1049

abbrev pub efsadd : ℕ
efsadd = 1050

abbrev pub efsmul : ℕ
efsmul = 1051

abbrev pub efssub : ℕ
efssub = 1052

abbrev pub efsdiv : ℕ
efsdiv = 1053

abbrev pub efscmpgt : ℕ
efscmpgt = 1054

abbrev pub efscmplt : ℕ
efscmplt = 1055

abbrev pub efscmpeq : ℕ
efscmpeq = 1056

abbrev pub efststgt : ℕ
efststgt = 1057

abbrev pub efststlt : ℕ
efststlt = 1058

abbrev pub efststeq : ℕ
efststeq = 1059

abbrev pub efscfsi : ℕ
efscfsi = 1060

abbrev pub efscfsf : ℕ
efscfsf = 1061

abbrev pub efsctsi : ℕ
efsctsi = 1062

abbrev pub efscfui : ℕ
efscfui = 1063

abbrev pub efscfuf : ℕ
efscfuf = 1064

abbrev pub efsctui : ℕ
efsctui = 1065

abbrev pub efsctsiz : ℕ
efsctsiz = 1066

abbrev pub efsctsf : ℕ
efsctsf = 1067

abbrev pub efsctuiz : ℕ
efsctuiz = 1068

abbrev pub efsctuf : ℕ
efsctuf = 1069

abbrev pub efdabs : ℕ
efdabs = 1070

abbrev pub efdneg : ℕ
efdneg = 1071

abbrev pub efdnabs : ℕ
efdnabs = 1072

abbrev pub efdadd : ℕ
efdadd = 1073

abbrev pub efdmul : ℕ
efdmul = 1074

abbrev pub efdsub : ℕ
efdsub = 1075

abbrev pub efddiv : ℕ
efddiv = 1076

abbrev pub efdcmpgt : ℕ
efdcmpgt = 1077

abbrev pub efdcmpeq : ℕ
efdcmpeq = 1078

abbrev pub efdcmplt : ℕ
efdcmplt = 1079

abbrev pub efdtstgt : ℕ
efdtstgt = 1080

abbrev pub efdtstlt : ℕ
efdtstlt = 1081

abbrev pub efdcfsi : ℕ
efdcfsi = 1082

abbrev pub efdtsteq : ℕ
efdtsteq = 1083

abbrev pub efdcfui : ℕ
efdcfui = 1084

abbrev pub efdcfsid : ℕ
efdcfsid = 1085

abbrev pub efdcfsf : ℕ
efdcfsf = 1086

abbrev pub efdcfuf : ℕ
efdcfuf = 1087

abbrev pub efdcfuid : ℕ
efdcfuid = 1088

abbrev pub efdctsi : ℕ
efdctsi = 1089

abbrev pub efdctui : ℕ
efdctui = 1090

abbrev pub efdctsidz : ℕ
efdctsidz = 1091

abbrev pub efdctuidz : ℕ
efdctuidz = 1092

abbrev pub efdctsiz : ℕ
efdctsiz = 1093

abbrev pub efdctsf : ℕ
efdctsf = 1094

abbrev pub efdctuf : ℕ
efdctuf = 1095

abbrev pub efdctuiz : ℕ
efdctuiz = 1096

abbrev pub efdcfs : ℕ
efdcfs = 1097

abbrev pub efscfd : ℕ
efscfd = 1098

abbrev pub dlmzb : ℕ
dlmzb = 1099

abbrev pub dlmzb_ : ℕ
dlmzb_ = 1100

abbrev pub macchw : ℕ
macchw = 1101

abbrev pub macchw_ : ℕ
macchw_ = 1102

abbrev pub macchwo : ℕ
macchwo = 1103

abbrev pub macchwo_ : ℕ
macchwo_ = 1104

abbrev pub macchws : ℕ
macchws = 1105

abbrev pub macchws_ : ℕ
macchws_ = 1106

abbrev pub macchwso : ℕ
macchwso = 1107

abbrev pub macchwso_ : ℕ
macchwso_ = 1108

abbrev pub macchwu : ℕ
macchwu = 1109

abbrev pub macchwu_ : ℕ
macchwu_ = 1110

abbrev pub macchwuo : ℕ
macchwuo = 1111

abbrev pub macchwuo_ : ℕ
macchwuo_ = 1112

abbrev pub macchwsu : ℕ
macchwsu = 1113

abbrev pub macchwsu_ : ℕ
macchwsu_ = 1114

abbrev pub macchwsuo : ℕ
macchwsuo = 1115

abbrev pub macchwsuo_ : ℕ
macchwsuo_ = 1116

abbrev pub machhw : ℕ
machhw = 1117

abbrev pub machhw_ : ℕ
machhw_ = 1118

abbrev pub machhwo : ℕ
machhwo = 1119

abbrev pub machhwo_ : ℕ
machhwo_ = 1120

abbrev pub machhws : ℕ
machhws = 1121

abbrev pub machhws_ : ℕ
machhws_ = 1122

abbrev pub machhwso : ℕ
machhwso = 1123

abbrev pub machhwso_ : ℕ
machhwso_ = 1124

abbrev pub machhwu : ℕ
machhwu = 1125

abbrev pub machhwu_ : ℕ
machhwu_ = 1126

abbrev pub machhwuo : ℕ
machhwuo = 1127

abbrev pub machhwuo_ : ℕ
machhwuo_ = 1128

abbrev pub machhwsu : ℕ
machhwsu = 1129

abbrev pub machhwsu_ : ℕ
machhwsu_ = 1130

abbrev pub machhwsuo : ℕ
machhwsuo = 1131

abbrev pub machhwsuo_ : ℕ
machhwsuo_ = 1132

abbrev pub maclhw : ℕ
maclhw = 1133

abbrev pub maclhw_ : ℕ
maclhw_ = 1134

abbrev pub maclhwo : ℕ
maclhwo = 1135

abbrev pub maclhwo_ : ℕ
maclhwo_ = 1136

abbrev pub maclhws : ℕ
maclhws = 1137

abbrev pub maclhws_ : ℕ
maclhws_ = 1138

abbrev pub maclhwso : ℕ
maclhwso = 1139

abbrev pub maclhwso_ : ℕ
maclhwso_ = 1140
