-- ===== src/Asm/Op/Part04.antt =====
-- power64asm/tables.go: the constants of type Op from FCTIWUZ to VADDUWM.
use Prim.Native.Nat.{ℕ}

abbrev pub fctiwuz : ℕ
fctiwuz = 381

abbrev pub fctiwuz_ : ℕ
fctiwuz_ = 382

abbrev pub fcfid : ℕ
fcfid = 383

abbrev pub fcfid_ : ℕ
fcfid_ = 384

abbrev pub fcfidu : ℕ
fcfidu = 385

abbrev pub fcfidu_ : ℕ
fcfidu_ = 386

abbrev pub fcfids : ℕ
fcfids = 387

abbrev pub fcfids_ : ℕ
fcfids_ = 388

abbrev pub fcfidus : ℕ
fcfidus = 389

abbrev pub fcfidus_ : ℕ
fcfidus_ = 390

abbrev pub frin : ℕ
frin = 391

abbrev pub frin_ : ℕ
frin_ = 392

abbrev pub friz : ℕ
friz = 393

abbrev pub friz_ : ℕ
friz_ = 394

abbrev pub frip : ℕ
frip = 395

abbrev pub frip_ : ℕ
frip_ = 396

abbrev pub frim : ℕ
frim = 397

abbrev pub frim_ : ℕ
frim_ = 398

abbrev pub fcmpu : ℕ
fcmpu = 399

abbrev pub fcmpo : ℕ
fcmpo = 400

abbrev pub fsel : ℕ
fsel = 401

abbrev pub fsel_ : ℕ
fsel_ = 402

abbrev pub mffs : ℕ
mffs = 403

abbrev pub mffs_ : ℕ
mffs_ = 404

abbrev pub mcrfs : ℕ
mcrfs = 405

abbrev pub mtfsfi : ℕ
mtfsfi = 406

abbrev pub mtfsfi_ : ℕ
mtfsfi_ = 407

abbrev pub mtfsf : ℕ
mtfsf = 408

abbrev pub mtfsf_ : ℕ
mtfsf_ = 409

abbrev pub mtfsb0 : ℕ
mtfsb0 = 410

abbrev pub mtfsb0_ : ℕ
mtfsb0_ = 411

abbrev pub mtfsb1 : ℕ
mtfsb1 = 412

abbrev pub mtfsb1_ : ℕ
mtfsb1_ = 413

abbrev pub lvebx : ℕ
lvebx = 414

abbrev pub lvehx : ℕ
lvehx = 415

abbrev pub lvewx : ℕ
lvewx = 416

abbrev pub lvx : ℕ
lvx = 417

abbrev pub lvxl : ℕ
lvxl = 418

abbrev pub stvebx : ℕ
stvebx = 419

abbrev pub stvehx : ℕ
stvehx = 420

abbrev pub stvewx : ℕ
stvewx = 421

abbrev pub stvx : ℕ
stvx = 422

abbrev pub stvxl : ℕ
stvxl = 423

abbrev pub lvsl : ℕ
lvsl = 424

abbrev pub lvsr : ℕ
lvsr = 425

abbrev pub vpkpx : ℕ
vpkpx = 426

abbrev pub vpksdss : ℕ
vpksdss = 427

abbrev pub vpksdus : ℕ
vpksdus = 428

abbrev pub vpkshss : ℕ
vpkshss = 429

abbrev pub vpkshus : ℕ
vpkshus = 430

abbrev pub vpkswss : ℕ
vpkswss = 431

abbrev pub vpkswus : ℕ
vpkswus = 432

abbrev pub vpkudum : ℕ
vpkudum = 433

abbrev pub vpkudus : ℕ
vpkudus = 434

abbrev pub vpkuhum : ℕ
vpkuhum = 435

abbrev pub vpkuhus : ℕ
vpkuhus = 436

abbrev pub vpkuwum : ℕ
vpkuwum = 437

abbrev pub vpkuwus : ℕ
vpkuwus = 438

abbrev pub vupkhpx : ℕ
vupkhpx = 439

abbrev pub vupklpx : ℕ
vupklpx = 440

abbrev pub vupkhsb : ℕ
vupkhsb = 441

abbrev pub vupkhsh : ℕ
vupkhsh = 442

abbrev pub vupkhsw : ℕ
vupkhsw = 443

abbrev pub vupklsb : ℕ
vupklsb = 444

abbrev pub vupklsh : ℕ
vupklsh = 445

abbrev pub vupklsw : ℕ
vupklsw = 446

abbrev pub vmrghb : ℕ
vmrghb = 447

abbrev pub vmrghh : ℕ
vmrghh = 448

abbrev pub vmrglb : ℕ
vmrglb = 449

abbrev pub vmrglh : ℕ
vmrglh = 450

abbrev pub vmrghw : ℕ
vmrghw = 451

abbrev pub vmrglw : ℕ
vmrglw = 452

abbrev pub vmrgew : ℕ
vmrgew = 453

abbrev pub vmrgow : ℕ
vmrgow = 454

abbrev pub vspltb : ℕ
vspltb = 455

abbrev pub vsplth : ℕ
vsplth = 456

abbrev pub vspltw : ℕ
vspltw = 457

abbrev pub vspltisb : ℕ
vspltisb = 458

abbrev pub vspltish : ℕ
vspltish = 459

abbrev pub vspltisw : ℕ
vspltisw = 460

abbrev pub vperm : ℕ
vperm = 461

abbrev pub vsel : ℕ
vsel = 462

abbrev pub vsl : ℕ
vsl = 463

abbrev pub vsldoi : ℕ
vsldoi = 464

abbrev pub vslo : ℕ
vslo = 465

abbrev pub vsr : ℕ
vsr = 466

abbrev pub vsro : ℕ
vsro = 467

abbrev pub vaddcuw : ℕ
vaddcuw = 468

abbrev pub vaddsbs : ℕ
vaddsbs = 469

abbrev pub vaddshs : ℕ
vaddshs = 470

abbrev pub vaddsws : ℕ
vaddsws = 471

abbrev pub vaddubm : ℕ
vaddubm = 472

abbrev pub vaddudm : ℕ
vaddudm = 473

abbrev pub vadduhm : ℕ
vadduhm = 474

abbrev pub vadduwm : ℕ
vadduwm = 475
