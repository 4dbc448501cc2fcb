-- ===== src/Asm/Op/Part01.antt =====
-- power64asm/tables.go: the constants of type Op from SUBFIC to TWI.
use Prim.Native.Nat.{ℕ}

abbrev pub subfic : ℕ
subfic = 96

abbrev pub addc : ℕ
addc = 97

abbrev pub addc_ : ℕ
addc_ = 98

abbrev pub addco : ℕ
addco = 99

abbrev pub addco_ : ℕ
addco_ = 100

abbrev pub subfc : ℕ
subfc = 101

abbrev pub subfc_ : ℕ
subfc_ = 102

abbrev pub subfco : ℕ
subfco = 103

abbrev pub subfco_ : ℕ
subfco_ = 104

abbrev pub adde : ℕ
adde = 105

abbrev pub adde_ : ℕ
adde_ = 106

abbrev pub addeo : ℕ
addeo = 107

abbrev pub addeo_ : ℕ
addeo_ = 108

abbrev pub addme : ℕ
addme = 109

abbrev pub addme_ : ℕ
addme_ = 110

abbrev pub addmeo : ℕ
addmeo = 111

abbrev pub addmeo_ : ℕ
addmeo_ = 112

abbrev pub subfe : ℕ
subfe = 113

abbrev pub subfe_ : ℕ
subfe_ = 114

abbrev pub subfeo : ℕ
subfeo = 115

abbrev pub subfeo_ : ℕ
subfeo_ = 116

abbrev pub subfme : ℕ
subfme = 117

abbrev pub subfme_ : ℕ
subfme_ = 118

abbrev pub subfmeo : ℕ
subfmeo = 119

abbrev pub subfmeo_ : ℕ
subfmeo_ = 120

abbrev pub addze : ℕ
addze = 121

abbrev pub addze_ : ℕ
addze_ = 122

abbrev pub addzeo : ℕ
addzeo = 123

abbrev pub addzeo_ : ℕ
addzeo_ = 124

abbrev pub subfze : ℕ
subfze = 125

abbrev pub subfze_ : ℕ
subfze_ = 126

abbrev pub subfzeo : ℕ
subfzeo = 127

abbrev pub subfzeo_ : ℕ
subfzeo_ = 128

abbrev pub neg : ℕ
neg = 129

abbrev pub neg_ : ℕ
neg_ = 130

abbrev pub nego : ℕ
nego = 131

abbrev pub nego_ : ℕ
nego_ = 132

abbrev pub mulli : ℕ
mulli = 133

abbrev pub mullw : ℕ
mullw = 134

abbrev pub mullw_ : ℕ
mullw_ = 135

abbrev pub mullwo : ℕ
mullwo = 136

abbrev pub mullwo_ : ℕ
mullwo_ = 137

abbrev pub mulhw : ℕ
mulhw = 138

abbrev pub mulhw_ : ℕ
mulhw_ = 139

abbrev pub mulhwu : ℕ
mulhwu = 140

abbrev pub mulhwu_ : ℕ
mulhwu_ = 141

abbrev pub divw : ℕ
divw = 142

abbrev pub divw_ : ℕ
divw_ = 143

abbrev pub divwo : ℕ
divwo = 144

abbrev pub divwo_ : ℕ
divwo_ = 145

abbrev pub divwu : ℕ
divwu = 146

abbrev pub divwu_ : ℕ
divwu_ = 147

abbrev pub divwuo : ℕ
divwuo = 148

abbrev pub divwuo_ : ℕ
divwuo_ = 149

abbrev pub divwe : ℕ
divwe = 150

abbrev pub divwe_ : ℕ
divwe_ = 151

abbrev pub divweo : ℕ
divweo = 152

abbrev pub divweo_ : ℕ
divweo_ = 153

abbrev pub divweu : ℕ
divweu = 154

abbrev pub divweu_ : ℕ
divweu_ = 155

abbrev pub divweuo : ℕ
divweuo = 156

abbrev pub divweuo_ : ℕ
divweuo_ = 157

abbrev pub mulld : ℕ
mulld = 158

abbrev pub mulld_ : ℕ
mulld_ = 159

abbrev pub mulldo : ℕ
mulldo = 160

abbrev pub mulldo_ : ℕ
mulldo_ = 161

abbrev pub mulhdu : ℕ
mulhdu = 162

abbrev pub mulhdu_ : ℕ
mulhdu_ = 163

abbrev pub mulhd : ℕ
mulhd = 164

abbrev pub mulhd_ : ℕ
mulhd_ = 165

abbrev pub divd : ℕ
divd = 166

abbrev pub divd_ : ℕ
divd_ = 167

abbrev pub divdo : ℕ
divdo = 168

abbrev pub divdo_ : ℕ
divdo_ = 169

abbrev pub divdu : ℕ
divdu = 170

abbrev pub divdu_ : ℕ
divdu_ = 171

abbrev pub divduo : ℕ
divduo = 172

abbrev pub divduo_ : ℕ
divduo_ = 173

abbrev pub divde : ℕ
divde = 174

abbrev pub divde_ : ℕ
divde_ = 175

abbrev pub divdeo : ℕ
divdeo = 176

abbrev pub divdeo_ : ℕ
divdeo_ = 177

abbrev pub divdeu : ℕ
divdeu = 178

abbrev pub divdeu_ : ℕ
divdeu_ = 179

abbrev pub divdeuo : ℕ
divdeuo = 180

abbrev pub divdeuo_ : ℕ
divdeuo_ = 181

abbrev pub cmpwi : ℕ
cmpwi = 182

abbrev pub cmpdi : ℕ
cmpdi = 183

abbrev pub cmpw : ℕ
cmpw = 184

abbrev pub cmpd : ℕ
cmpd = 185

abbrev pub cmplwi : ℕ
cmplwi = 186

abbrev pub cmpldi : ℕ
cmpldi = 187

abbrev pub cmplw : ℕ
cmplw = 188

abbrev pub cmpld : ℕ
cmpld = 189

abbrev pub twi : ℕ
twi = 190
