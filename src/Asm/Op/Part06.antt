-- ===== src/Asm/Op/Part06.antt =====
-- power64asm/tables.go: the constants of type Op from VAND to DRRND.
use Prim.Native.Nat.{ℕ}

abbrev pub vand : ℕ
vand = 571

abbrev pub vandc : ℕ
vandc = 572

abbrev pub veqv : ℕ
veqv = 573

abbrev pub vnand : ℕ
vnand = 574

abbrev pub vorc : ℕ
vorc = 575

abbrev pub vnor : ℕ
vnor = 576

abbrev pub vor : ℕ
vor = 577

abbrev pub vxor : ℕ
vxor = 578

abbrev pub vrlb : ℕ
vrlb = 579

abbrev pub vrlh : ℕ
vrlh = 580

abbrev pub vrlw : ℕ
vrlw = 581

abbrev pub vrld : ℕ
vrld = 582

abbrev pub vslb : ℕ
vslb = 583

abbrev pub vslh : ℕ
vslh = 584

abbrev pub vslw : ℕ
vslw = 585

abbrev pub vsld : ℕ
vsld = 586

abbrev pub vsrb : ℕ
vsrb = 587

abbrev pub vsrh : ℕ
vsrh = 588

abbrev pub vsrw : ℕ
vsrw = 589

abbrev pub vsrd : ℕ
vsrd = 590

abbrev pub vsrab : ℕ
vsrab = 591

abbrev pub vsrah : ℕ
vsrah = 592

abbrev pub vsraw : ℕ
vsraw = 593

abbrev pub vsrad : ℕ
vsrad = 594

abbrev pub vaddfp : ℕ
vaddfp = 595

abbrev pub vsubfp : ℕ
vsubfp = 596

abbrev pub vmaddfp : ℕ
vmaddfp = 597

abbrev pub vnmsubfp : ℕ
vnmsubfp = 598

abbrev pub vmaxfp : ℕ
vmaxfp = 599

abbrev pub vminfp : ℕ
vminfp = 600

abbrev pub vctsxs : ℕ
vctsxs = 601

abbrev pub vctuxs : ℕ
vctuxs = 602

abbrev pub vcfsx : ℕ
vcfsx = 603

abbrev pub vcfux : ℕ
vcfux = 604

abbrev pub vrfim : ℕ
vrfim = 605

abbrev pub vrfin : ℕ
vrfin = 606

abbrev pub vrfip : ℕ
vrfip = 607

abbrev pub vrfiz : ℕ
vrfiz = 608

abbrev pub vcmpbfp : ℕ
vcmpbfp = 609

abbrev pub vcmpbfp_ : ℕ
vcmpbfp_ = 610

abbrev pub vcmpeqfp : ℕ
vcmpeqfp = 611

abbrev pub vcmpeqfp_ : ℕ
vcmpeqfp_ = 612

abbrev pub vcmpgefp : ℕ
vcmpgefp = 613

abbrev pub vcmpgefp_ : ℕ
vcmpgefp_ = 614

abbrev pub vcmpgtfp : ℕ
vcmpgtfp = 615

abbrev pub vcmpgtfp_ : ℕ
vcmpgtfp_ = 616

abbrev pub vexptefp : ℕ
vexptefp = 617

abbrev pub vlogefp : ℕ
vlogefp = 618

abbrev pub vrefp : ℕ
vrefp = 619

abbrev pub vrsqrtefp : ℕ
vrsqrtefp = 620

abbrev pub vcipher : ℕ
vcipher = 621

abbrev pub vcipherlast : ℕ
vcipherlast = 622

abbrev pub vncipher : ℕ
vncipher = 623

abbrev pub vncipherlast : ℕ
vncipherlast = 624

abbrev pub vsbox : ℕ
vsbox = 625

abbrev pub vshasigmad : ℕ
vshasigmad = 626

abbrev pub vshasigmaw : ℕ
vshasigmaw = 627

abbrev pub vpmsumb : ℕ
vpmsumb = 628

abbrev pub vpmsumd : ℕ
vpmsumd = 629

abbrev pub vpmsumh : ℕ
vpmsumh = 630

abbrev pub vpmsumw : ℕ
vpmsumw = 631

abbrev pub vpermxor : ℕ
vpermxor = 632

abbrev pub vgbbd : ℕ
vgbbd = 633

abbrev pub vclzb : ℕ
vclzb = 634

abbrev pub vclzh : ℕ
vclzh = 635

abbrev pub vclzw : ℕ
vclzw = 636

abbrev pub vclzd : ℕ
vclzd = 637

abbrev pub vpopcntb : ℕ
vpopcntb = 638

abbrev pub vpopcntd : ℕ
vpopcntd = 639

abbrev pub vpopcnth : ℕ
vpopcnth = 640

abbrev pub vpopcntw : ℕ
vpopcntw = 641

abbrev pub vbpermq : ℕ
vbpermq = 642

abbrev pub bcdadd_ : ℕ
bcdadd_ = 643

abbrev pub bcdsub_ : ℕ
bcdsub_ = 644

abbrev pub mtvscr : ℕ
mtvscr = 645

abbrev pub mfvscr : ℕ
mfvscr = 646

abbrev pub dadd : ℕ
dadd = 647

abbrev pub dadd_ : ℕ
dadd_ = 648

abbrev pub dsub : ℕ
dsub = 649

abbrev pub dsub_ : ℕ
dsub_ = 650

abbrev pub dmul : ℕ
dmul = 651

abbrev pub dmul_ : ℕ
dmul_ = 652

abbrev pub ddiv : ℕ
ddiv = 653

abbrev pub ddiv_ : ℕ
ddiv_ = 654

abbrev pub dcmpu : ℕ
dcmpu = 655

abbrev pub dcmpo : ℕ
dcmpo = 656

abbrev pub dtstdc : ℕ
dtstdc = 657

abbrev pub dtstdg : ℕ
dtstdg = 658

abbrev pub dtstex : ℕ
dtstex = 659

abbrev pub dtstsf : ℕ
dtstsf = 660

abbrev pub dquai : ℕ
dquai = 661

abbrev pub dquai_ : ℕ
dquai_ = 662

abbrev pub dqua : ℕ
dqua = 663

abbrev pub dqua_ : ℕ
dqua_ = 664

abbrev pub drrnd : ℕ
drrnd = 665
