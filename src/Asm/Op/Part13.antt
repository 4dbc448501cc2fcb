-- ===== src/Asm/Op/Part13.antt =====
-- power64asm/tables.go: the constants of type Op from SLEEP to MTPMR.
use Prim.Native.Nat.{ℕ}

abbrev pub sleep : ℕ
sleep = 1236

abbrev pub rvwinkle : ℕ
rvwinkle = 1237

abbrev pub lbzcix : ℕ
lbzcix = 1238

abbrev pub lwzcix : ℕ
lwzcix = 1239

abbrev pub lhzcix : ℕ
lhzcix = 1240

abbrev pub ldcix : ℕ
ldcix = 1241

abbrev pub stbcix : ℕ
stbcix = 1242

abbrev pub stwcix : ℕ
stwcix = 1243

abbrev pub sthcix : ℕ
sthcix = 1244

abbrev pub stdcix : ℕ
stdcix = 1245

abbrev pub treclaim_ : ℕ
treclaim_ = 1246

abbrev pub trechkpt_ : ℕ
trechkpt_ = 1247

abbrev pub mtmsr : ℕ
mtmsr = 1248

abbrev pub mtmsrd : ℕ
mtmsrd = 1249

abbrev pub mfmsr : ℕ
mfmsr = 1250

abbrev pub slbie : ℕ
slbie = 1251

abbrev pub slbia : ℕ
slbia = 1252

abbrev pub slbmte : ℕ
slbmte = 1253

abbrev pub slbmfev : ℕ
slbmfev = 1254

abbrev pub slbmfee : ℕ
slbmfee = 1255

abbrev pub slbfee_ : ℕ
slbfee_ = 1256

abbrev pub mtsr : ℕ
mtsr = 1257

abbrev pub mtsrin : ℕ
mtsrin = 1258

abbrev pub mfsr : ℕ
mfsr = 1259

abbrev pub mfsrin : ℕ
mfsrin = 1260

abbrev pub tlbie : ℕ
tlbie = 1261

abbrev pub tlbiel : ℕ
tlbiel = 1262

abbrev pub tlbia : ℕ
tlbia = 1263

abbrev pub tlbsync : ℕ
tlbsync = 1264

abbrev pub msgsnd : ℕ
msgsnd = 1265

abbrev pub msgclr : ℕ
msgclr = 1266

abbrev pub msgsndp : ℕ
msgsndp = 1267

abbrev pub msgclrp : ℕ
msgclrp = 1268

abbrev pub mttmr : ℕ
mttmr = 1269

abbrev pub rfi : ℕ
rfi = 1270

abbrev pub rfci : ℕ
rfci = 1271

abbrev pub rfdi : ℕ
rfdi = 1272

abbrev pub rfmci : ℕ
rfmci = 1273

abbrev pub rfgi : ℕ
rfgi = 1274

abbrev pub ehpriv : ℕ
ehpriv = 1275

abbrev pub mtdcr : ℕ
mtdcr = 1276

abbrev pub mtdcrx : ℕ
mtdcrx = 1277

abbrev pub mfdcr : ℕ
mfdcr = 1278

abbrev pub mfdcrx : ℕ
mfdcrx = 1279

abbrev pub wrtee : ℕ
wrtee = 1280

abbrev pub wrteei : ℕ
wrteei = 1281

abbrev pub lbepx : ℕ
lbepx = 1282

abbrev pub lhepx : ℕ
lhepx = 1283

abbrev pub lwepx : ℕ
lwepx = 1284

abbrev pub ldepx : ℕ
ldepx = 1285

abbrev pub stbepx : ℕ
stbepx = 1286

abbrev pub sthepx : ℕ
sthepx = 1287

abbrev pub stwepx : ℕ
stwepx = 1288

abbrev pub stdepx : ℕ
stdepx = 1289

abbrev pub dcbstep : ℕ
dcbstep = 1290

abbrev pub dcbtep : ℕ
dcbtep = 1291

abbrev pub dcbfep : ℕ
dcbfep = 1292

abbrev pub dcbtstep : ℕ
dcbtstep = 1293

abbrev pub icbiep : ℕ
icbiep = 1294

abbrev pub dcbzep : ℕ
dcbzep = 1295

abbrev pub lfdepx : ℕ
lfdepx = 1296

abbrev pub stfdepx : ℕ
stfdepx = 1297

abbrev pub evlddepx : ℕ
evlddepx = 1298

abbrev pub evstddepx : ℕ
evstddepx = 1299

abbrev pub lvepx : ℕ
lvepx = 1300

abbrev pub lvepxl : ℕ
lvepxl = 1301

abbrev pub stvepx : ℕ
stvepx = 1302

abbrev pub stvepxl : ℕ
stvepxl = 1303

abbrev pub dcbi : ℕ
dcbi = 1304

abbrev pub dcblq_ : ℕ
dcblq_ = 1305

abbrev pub icblq_ : ℕ
icblq_ = 1306

abbrev pub dcbtls : ℕ
dcbtls = 1307

abbrev pub dcbtstls : ℕ
dcbtstls = 1308

abbrev pub icbtls : ℕ
icbtls = 1309

abbrev pub icblc : ℕ
icblc = 1310

abbrev pub dcblc : ℕ
dcblc = 1311

abbrev pub tlbivax : ℕ
tlbivax = 1312

abbrev pub tlbilx : ℕ
tlbilx = 1313

abbrev pub tlbsx : ℕ
tlbsx = 1314

abbrev pub tlbsrx_ : ℕ
tlbsrx_ = 1315

abbrev pub tlbre : ℕ
tlbre = 1316

abbrev pub tlbwe : ℕ
tlbwe = 1317

abbrev pub dnh : ℕ
dnh = 1318

abbrev pub dci : ℕ
dci = 1319

abbrev pub ici : ℕ
ici = 1320

abbrev pub dcread : ℕ
dcread = 1321

abbrev pub icread : ℕ
icread = 1322

abbrev pub mfpmr : ℕ
mfpmr = 1323

abbrev pub mtpmr : ℕ
mtpmr = 1324
