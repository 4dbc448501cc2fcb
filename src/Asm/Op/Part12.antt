-- ===== src/Asm/Op/Part12.antt =====
-- power64asm/tables.go: the constants of type Op from MACLHWU to NAP.
use Prim.Native.Nat.{ℕ}

abbrev pub maclhwu : ℕ
maclhwu = 1141

abbrev pub maclhwu_ : ℕ
maclhwu_ = 1142

abbrev pub maclhwuo : ℕ
maclhwuo = 1143

abbrev pub maclhwuo_ : ℕ
maclhwuo_ = 1144

abbrev pub mulchw : ℕ
mulchw = 1145

abbrev pub mulchw_ : ℕ
mulchw_ = 1146

abbrev pub maclhwsu : ℕ
maclhwsu = 1147

abbrev pub maclhwsu_ : ℕ
maclhwsu_ = 1148

abbrev pub maclhwsuo : ℕ
maclhwsuo = 1149

abbrev pub maclhwsuo_ : ℕ
maclhwsuo_ = 1150

abbrev pub mulchwu : ℕ
mulchwu = 1151

abbrev pub mulchwu_ : ℕ
mulchwu_ = 1152

abbrev pub mulhhw : ℕ
mulhhw = 1153

abbrev pub mulhhw_ : ℕ
mulhhw_ = 1154

abbrev pub mullhw : ℕ
mullhw = 1155

abbrev pub mullhw_ : ℕ
mullhw_ = 1156

abbrev pub mulhhwu : ℕ
mulhhwu = 1157

abbrev pub mulhhwu_ : ℕ
mulhhwu_ = 1158

abbrev pub mullhwu : ℕ
mullhwu = 1159

abbrev pub mullhwu_ : ℕ
mullhwu_ = 1160

abbrev pub nmacchw : ℕ
nmacchw = 1161

abbrev pub nmacchw_ : ℕ
nmacchw_ = 1162

abbrev pub nmacchwo : ℕ
nmacchwo = 1163

abbrev pub nmacchwo_ : ℕ
nmacchwo_ = 1164

abbrev pub nmacchws : ℕ
nmacchws = 1165

abbrev pub nmacchws_ : ℕ
nmacchws_ = 1166

abbrev pub nmacchwso : ℕ
nmacchwso = 1167

abbrev pub nmacchwso_ : ℕ
nmacchwso_ = 1168

abbrev pub nmachhw : ℕ
nmachhw = 1169

abbrev pub nmachhw_ : ℕ
nmachhw_ = 1170

abbrev pub nmachhwo : ℕ
nmachhwo = 1171

abbrev pub nmachhwo_ : ℕ
nmachhwo_ = 1172

abbrev pub nmachhws : ℕ
nmachhws = 1173

abbrev pub nmachhws_ : ℕ
nmachhws_ = 1174

abbrev pub nmachhwso : ℕ
nmachhwso = 1175

abbrev pub nmachhwso_ : ℕ
nmachhwso_ = 1176

abbrev pub nmaclhw : ℕ
nmaclhw = 1177

abbrev pub nmaclhw_ : ℕ
nmaclhw_ = 1178

abbrev pub nmaclhwo : ℕ
nmaclhwo = 1179

abbrev pub nmaclhwo_ : ℕ
nmaclhwo_ = 1180

abbrev pub nmaclhws : ℕ
nmaclhws = 1181

abbrev pub nmaclhws_ : ℕ
nmaclhws_ = 1182

abbrev pub nmaclhwso : ℕ
nmaclhwso = 1183

abbrev pub nmaclhwso_ : ℕ
nmaclhwso_ = 1184

abbrev pub icbi : ℕ
icbi = 1185

abbrev pub icbt : ℕ
icbt = 1186

abbrev pub dcba : ℕ
dcba = 1187

abbrev pub dcbt : ℕ
dcbt = 1188

abbrev pub dcbtst : ℕ
dcbtst = 1189

abbrev pub dcbz : ℕ
dcbz = 1190

abbrev pub dcbst : ℕ
dcbst = 1191

abbrev pub dcbf : ℕ
dcbf = 1192

abbrev pub isync : ℕ
isync = 1193

abbrev pub lbarx : ℕ
lbarx = 1194

abbrev pub lharx : ℕ
lharx = 1195

abbrev pub lwarx : ℕ
lwarx = 1196

abbrev pub stbcx_ : ℕ
stbcx_ = 1197

abbrev pub sthcx_ : ℕ
sthcx_ = 1198

abbrev pub stwcx_ : ℕ
stwcx_ = 1199

abbrev pub ldarx : ℕ
ldarx = 1200

abbrev pub stdcx_ : ℕ
stdcx_ = 1201

abbrev pub lqarx : ℕ
lqarx = 1202

abbrev pub stqcx_ : ℕ
stqcx_ = 1203

abbrev pub sync : ℕ
sync = 1204

abbrev pub eieio : ℕ
eieio = 1205

abbrev pub mbar : ℕ
mbar = 1206

abbrev pub wait : ℕ
wait = 1207

abbrev pub tbegin_ : ℕ
tbegin_ = 1208

abbrev pub tend_ : ℕ
tend_ = 1209

abbrev pub tabort_ : ℕ
tabort_ = 1210

abbrev pub tabortwc_ : ℕ
tabortwc_ = 1211

abbrev pub tabortwci_ : ℕ
tabortwci_ = 1212

abbrev pub tabortdc_ : ℕ
tabortdc_ = 1213

abbrev pub tabortdci_ : ℕ
tabortdci_ = 1214

abbrev pub tsr_ : ℕ
tsr_ = 1215

abbrev pub tcheck : ℕ
tcheck = 1216

abbrev pub mftb : ℕ
mftb = 1217

abbrev pub rfebb : ℕ
rfebb = 1218

abbrev pub lbdx : ℕ
lbdx = 1219

abbrev pub lhdx : ℕ
lhdx = 1220

abbrev pub lwdx : ℕ
lwdx = 1221

abbrev pub lddx : ℕ
lddx = 1222

abbrev pub lfddx : ℕ
lfddx = 1223

abbrev pub stbdx : ℕ
stbdx = 1224

abbrev pub sthdx : ℕ
sthdx = 1225

abbrev pub stwdx : ℕ
stwdx = 1226

abbrev pub stddx : ℕ
stddx = 1227

abbrev pub stfddx : ℕ
stfddx = 1228

abbrev pub dsn : ℕ
dsn = 1229

abbrev pub eciwx : ℕ
eciwx = 1230

abbrev pub ecowx : ℕ
ecowx = 1231

abbrev pub rfid : ℕ
rfid = 1232

abbrev pub hrfid : ℕ
hrfid = 1233

abbrev pub doze : ℕ
doze = 1234

abbrev pub nap : ℕ
nap = 1235
