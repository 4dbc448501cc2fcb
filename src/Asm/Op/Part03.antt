-- ===== src/Asm/Op/Part03.antt =====
-- power64asm/tables.go: the constants of type Op from LFSX to FCTIWU_.
use Prim.Native.Nat.{ℕ}

abbrev pub lfsx : ℕ
lfsx = 286

abbrev pub lfsux : ℕ
lfsux = 287

abbrev pub lfd : ℕ
lfd = 288

abbrev pub lfdu : ℕ
lfdu = 289

abbrev pub lfdx : ℕ
lfdx = 290

abbrev pub lfdux : ℕ
lfdux = 291

abbrev pub lfiwax : ℕ
lfiwax = 292

abbrev pub lfiwzx : ℕ
lfiwzx = 293

abbrev pub stfs : ℕ
stfs = 294

abbrev pub stfsu : ℕ
stfsu = 295

abbrev pub stfsx : ℕ
stfsx = 296

abbrev pub stfsux : ℕ
stfsux = 297

abbrev pub stfd : ℕ
stfd = 298

abbrev pub stfdu : ℕ
stfdu = 299

abbrev pub stfdx : ℕ
stfdx = 300

abbrev pub stfdux : ℕ
stfdux = 301

abbrev pub stfiwx : ℕ
stfiwx = 302

abbrev pub lfdp : ℕ
lfdp = 303

abbrev pub lfdpx : ℕ
lfdpx = 304

abbrev pub stfdp : ℕ
stfdp = 305

abbrev pub stfdpx : ℕ
stfdpx = 306

abbrev pub fmr : ℕ
fmr = 307

abbrev pub fmr_ : ℕ
fmr_ = 308

abbrev pub fabs : ℕ
fabs = 309

abbrev pub fabs_ : ℕ
fabs_ = 310

abbrev pub fnabs : ℕ
fnabs = 311

abbrev pub fnabs_ : ℕ
fnabs_ = 312

abbrev pub fneg : ℕ
fneg = 313

abbrev pub fneg_ : ℕ
fneg_ = 314

abbrev pub fcpsgn : ℕ
fcpsgn = 315

abbrev pub fcpsgn_ : ℕ
fcpsgn_ = 316

abbrev pub fmrgew : ℕ
fmrgew = 317

abbrev pub fmrgow : ℕ
fmrgow = 318

abbrev pub fadd : ℕ
fadd = 319

abbrev pub fadd_ : ℕ
fadd_ = 320

abbrev pub fadds : ℕ
fadds = 321

abbrev pub fadds_ : ℕ
fadds_ = 322

abbrev pub fsub : ℕ
fsub = 323

abbrev pub fsub_ : ℕ
fsub_ = 324

abbrev pub fsubs : ℕ
fsubs = 325

abbrev pub fsubs_ : ℕ
fsubs_ = 326

abbrev pub fmul : ℕ
fmul = 327

abbrev pub fmul_ : ℕ
fmul_ = 328

abbrev pub fmuls : ℕ
fmuls = 329

abbrev pub fmuls_ : ℕ
fmuls_ = 330

abbrev pub fdiv : ℕ
fdiv = 331

abbrev pub fdiv_ : ℕ
fdiv_ = 332

abbrev pub fdivs : ℕ
fdivs = 333

abbrev pub fdivs_ : ℕ
fdivs_ = 334

abbrev pub fsqrt : ℕ
fsqrt = 335

abbrev pub fsqrt_ : ℕ
fsqrt_ = 336

abbrev pub fsqrts : ℕ
fsqrts = 337

abbrev pub fsqrts_ : ℕ
fsqrts_ = 338

abbrev pub fre : ℕ
fre = 339

abbrev pub fre_ : ℕ
fre_ = 340

abbrev pub fres : ℕ
fres = 341

abbrev pub fres_ : ℕ
fres_ = 342

abbrev pub frsqrte : ℕ
frsqrte = 343

abbrev pub frsqrte_ : ℕ
frsqrte_ = 344

abbrev pub frsqrtes : ℕ
frsqrtes = 345

abbrev pub frsqrtes_ : ℕ
frsqrtes_ = 346

abbrev pub ftdiv : ℕ
ftdiv = 347

abbrev pub ftsqrt : ℕ
ftsqrt = 348

abbrev pub fmadd : ℕ
fmadd = 349

abbrev pub fmadd_ : ℕ
fmadd_ = 350

abbrev pub fmadds : ℕ
fmadds = 351

abbrev pub fmadds_ : ℕ
fmadds_ = 352

abbrev pub fmsub : ℕ
fmsub = 353

abbrev pub fmsub_ : ℕ
fmsub_ = 354

abbrev pub fmsubs : ℕ
fmsubs = 355

abbrev pub fmsubs_ : ℕ
fmsubs_ = 356

abbrev pub fnmadd : ℕ
fnmadd = 357

abbrev pub fnmadd_ : ℕ
fnmadd_ = 358

abbrev pub fnmadds : ℕ
fnmadds = 359

abbrev pub fnmadds_ : ℕ
fnmadds_ = 360

abbrev pub fnmsub : ℕ
fnmsub = 361

abbrev pub fnmsub_ : ℕ
fnmsub_ = 362

abbrev pub fnmsubs : ℕ
fnmsubs = 363

abbrev pub fnmsubs_ : ℕ
fnmsubs_ = 364

abbrev pub frsp : ℕ
frsp = 365

abbrev pub frsp_ : ℕ
frsp_ = 366

abbrev pub fctid : ℕ
fctid = 367

abbrev pub fctid_ : ℕ
fctid_ = 368

abbrev pub fctidz : ℕ
fctidz = 369

abbrev pub fctidz_ : ℕ
fctidz_ = 370

abbrev pub fctidu : ℕ
fctidu = 371

abbrev pub fctidu_ : ℕ
fctidu_ = 372

abbrev pub fctiduz : ℕ
fctiduz = 373

abbrev pub fctiduz_ : ℕ
fctiduz_ = 374

abbrev pub fctiw : ℕ
fctiw = 375

abbrev pub fctiw_ : ℕ
fctiw_ = 376

abbrev pub fctiwz : ℕ
fctiwz = 377

abbrev pub fctiwz_ : ℕ
fctiwz_ = 378

abbrev pub fctiwu : ℕ
fctiwu = 379

abbrev pub fctiwu_ : ℕ
fctiwu_ = 380
