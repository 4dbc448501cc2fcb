-- ===== src/Asm/Op/Part02.antt =====
-- power64asm/tables.go: the constants of type Op from TW to LFSU.
use Prim.Native.Nat.{ℕ}

abbrev pub tw : ℕ
tw = 191

abbrev pub tdi : ℕ
tdi = 192

abbrev pub isel : ℕ
isel = 193

abbrev pub td : ℕ
td = 194

abbrev pub andi_ : ℕ
andi_ = 195

abbrev pub andis_ : ℕ
andis_ = 196

abbrev pub ori : ℕ
ori = 197

abbrev pub oris : ℕ
oris = 198

abbrev pub xori : ℕ
xori = 199

abbrev pub xoris : ℕ
xoris = 200

abbrev pub and : ℕ
and = 201

abbrev pub and_ : ℕ
and_ = 202

abbrev pub xor : ℕ
xor = 203

abbrev pub xor_ : ℕ
xor_ = 204

abbrev pub nand : ℕ
nand = 205

abbrev pub nand_ : ℕ
nand_ = 206

abbrev pub or : ℕ
or = 207

abbrev pub or_ : ℕ
or_ = 208

abbrev pub nor : ℕ
nor = 209

abbrev pub nor_ : ℕ
nor_ = 210

abbrev pub andc : ℕ
andc = 211

abbrev pub andc_ : ℕ
andc_ = 212

abbrev pub extsb : ℕ
extsb = 213

abbrev pub extsb_ : ℕ
extsb_ = 214

abbrev pub eqv : ℕ
eqv = 215

abbrev pub eqv_ : ℕ
eqv_ = 216

abbrev pub orc : ℕ
orc = 217

abbrev pub orc_ : ℕ
orc_ = 218

abbrev pub extsh : ℕ
extsh = 219

abbrev pub extsh_ : ℕ
extsh_ = 220

abbrev pub cmpb : ℕ
cmpb = 221

abbrev pub popcntb : ℕ
popcntb = 222

abbrev pub popcntw : ℕ
popcntw = 223

abbrev pub prtyd : ℕ
prtyd = 224

abbrev pub prtyw : ℕ
prtyw = 225

abbrev pub extsw : ℕ
extsw = 226

abbrev pub extsw_ : ℕ
extsw_ = 227

abbrev pub cntlzd : ℕ
cntlzd = 228

abbrev pub cntlzd_ : ℕ
cntlzd_ = 229

abbrev pub popcntd : ℕ
popcntd = 230

abbrev pub bpermd : ℕ
bpermd = 231

abbrev pub rlwinm : ℕ
rlwinm = 232

abbrev pub rlwinm_ : ℕ
rlwinm_ = 233

abbrev pub rlwnm : ℕ
rlwnm = 234

abbrev pub rlwnm_ : ℕ
rlwnm_ = 235

abbrev pub rlwimi : ℕ
rlwimi = 236

abbrev pub rlwimi_ : ℕ
rlwimi_ = 237

abbrev pub rldicl : ℕ
rldicl = 238

abbrev pub rldicl_ : ℕ
rldicl_ = 239

abbrev pub rldicr : ℕ
rldicr = 240

abbrev pub rldicr_ : ℕ
rldicr_ = 241

abbrev pub rldic : ℕ
rldic = 242

abbrev pub rldic_ : ℕ
rldic_ = 243

abbrev pub rldcl : ℕ
rldcl = 244

abbrev pub rldcl_ : ℕ
rldcl_ = 245

abbrev pub rldcr : ℕ
rldcr = 246

abbrev pub rldcr_ : ℕ
rldcr_ = 247

abbrev pub rldimi : ℕ
rldimi = 248

abbrev pub rldimi_ : ℕ
rldimi_ = 249

abbrev pub slw : ℕ
slw = 250

abbrev pub slw_ : ℕ
slw_ = 251

abbrev pub srw : ℕ
srw = 252

abbrev pub srw_ : ℕ
srw_ = 253

abbrev pub srawi : ℕ
srawi = 254

abbrev pub srawi_ : ℕ
srawi_ = 255

abbrev pub sraw : ℕ
sraw = 256

abbrev pub sraw_ : ℕ
sraw_ = 257

abbrev pub sld : ℕ
sld = 258

abbrev pub sld_ : ℕ
sld_ = 259

abbrev pub srd : ℕ
srd = 260

abbrev pub srd_ : ℕ
srd_ = 261

abbrev pub sradi : ℕ
sradi = 262

abbrev pub sradi_ : ℕ
sradi_ = 263

abbrev pub srad : ℕ
srad = 264

abbrev pub srad_ : ℕ
srad_ = 265

abbrev pub cdtbcd : ℕ
cdtbcd = 266

abbrev pub cbcdtd : ℕ
cbcdtd = 267

abbrev pub addg6s : ℕ
addg6s = 268

abbrev pub mtspr : ℕ
mtspr = 269

abbrev pub mfspr : ℕ
mfspr = 270

abbrev pub mtcrf : ℕ
mtcrf = 271

abbrev pub mfcr : ℕ
mfcr = 272

abbrev pub mtsle : ℕ
mtsle = 273

abbrev pub mfvsrd : ℕ
mfvsrd = 274

abbrev pub mfvsrwz : ℕ
mfvsrwz = 275

abbrev pub mtvsrd : ℕ
mtvsrd = 276

abbrev pub mtvsrwa : ℕ
mtvsrwa = 277

abbrev pub mtvsrwz : ℕ
mtvsrwz = 278

abbrev pub mtocrf : ℕ
mtocrf = 279

abbrev pub mfocrf : ℕ
mfocrf = 280

abbrev pub mcrxr : ℕ
mcrxr = 281

abbrev pub mtdcrux : ℕ
mtdcrux = 282

abbrev pub mfdcrux : ℕ
mfdcrux = 283

abbrev pub lfs : ℕ
lfs = 284

abbrev pub lfsu : ℕ
lfsu = 285
