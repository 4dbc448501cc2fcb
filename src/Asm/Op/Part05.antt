-- ===== src/Asm/Op/Part05.antt =====
-- power64asm/tables.go: the constants of type Op from VADDUBS to VCMPGTUW_.
use Prim.Native.Nat.{ℕ}

abbrev pub vaddubs : ℕ
vaddubs = 476

abbrev pub vadduhs : ℕ
vadduhs = 477

abbrev pub vadduws : ℕ
vadduws = 478

abbrev pub vadduqm : ℕ
vadduqm = 479

abbrev pub vaddeuqm : ℕ
vaddeuqm = 480

abbrev pub vaddcuq : ℕ
vaddcuq = 481

abbrev pub vaddecuq : ℕ
vaddecuq = 482

abbrev pub vsubcuw : ℕ
vsubcuw = 483

abbrev pub vsubsbs : ℕ
vsubsbs = 484

abbrev pub vsubshs : ℕ
vsubshs = 485

abbrev pub vsubsws : ℕ
vsubsws = 486

abbrev pub vsububm : ℕ
vsububm = 487

abbrev pub vsubudm : ℕ
vsubudm = 488

abbrev pub vsubuhm : ℕ
vsubuhm = 489

abbrev pub vsubuwm : ℕ
vsubuwm = 490

abbrev pub vsububs : ℕ
vsububs = 491

abbrev pub vsubuhs : ℕ
vsubuhs = 492

abbrev pub vsubuws : ℕ
vsubuws = 493

abbrev pub vsubuqm : ℕ
vsubuqm = 494

abbrev pub vsubeuqm : ℕ
vsubeuqm = 495

abbrev pub vsubcuq : ℕ
vsubcuq = 496

abbrev pub vsubecuq : ℕ
vsubecuq = 497

abbrev pub vmulesb : ℕ
vmulesb = 498

abbrev pub vmuleub : ℕ
vmuleub = 499

abbrev pub vmulosb : ℕ
vmulosb = 500

abbrev pub vmuloub : ℕ
vmuloub = 501

abbrev pub vmulesh : ℕ
vmulesh = 502

abbrev pub vmuleuh : ℕ
vmuleuh = 503

abbrev pub vmulosh : ℕ
vmulosh = 504

abbrev pub vmulouh : ℕ
vmulouh = 505

abbrev pub vmulesw : ℕ
vmulesw = 506

abbrev pub vmuleuw : ℕ
vmuleuw = 507

abbrev pub vmulosw : ℕ
vmulosw = 508

abbrev pub vmulouw : ℕ
vmulouw = 509

abbrev pub vmuluwm : ℕ
vmuluwm = 510

abbrev pub vmhaddshs : ℕ
vmhaddshs = 511

abbrev pub vmhraddshs : ℕ
vmhraddshs = 512

abbrev pub vmladduhm : ℕ
vmladduhm = 513

abbrev pub vmsumubm : ℕ
vmsumubm = 514

abbrev pub vmsummbm : ℕ
vmsummbm = 515

abbrev pub vmsumshm : ℕ
vmsumshm = 516

abbrev pub vmsumshs : ℕ
vmsumshs = 517

abbrev pub vmsumuhm : ℕ
vmsumuhm = 518

abbrev pub vmsumuhs : ℕ
vmsumuhs = 519

abbrev pub vsumsws : ℕ
vsumsws = 520

abbrev pub vsum2sws : ℕ
vsum2sws = 521

abbrev pub vsum4sbs : ℕ
vsum4sbs = 522

abbrev pub vsum4shs : ℕ
vsum4shs = 523

abbrev pub vsum4ubs : ℕ
vsum4ubs = 524

abbrev pub vavgsb : ℕ
vavgsb = 525

abbrev pub vavgsh : ℕ
vavgsh = 526

abbrev pub vavgsw : ℕ
vavgsw = 527

abbrev pub vavgub : ℕ
vavgub = 528

abbrev pub vavguw : ℕ
vavguw = 529

abbrev pub vavguh : ℕ
vavguh = 530

abbrev pub vmaxsb : ℕ
vmaxsb = 531

abbrev pub vmaxsd : ℕ
vmaxsd = 532

abbrev pub vmaxub : ℕ
vmaxub = 533

abbrev pub vmaxud : ℕ
vmaxud = 534

abbrev pub vmaxsh : ℕ
vmaxsh = 535

abbrev pub vmaxsw : ℕ
vmaxsw = 536

abbrev pub vmaxuh : ℕ
vmaxuh = 537

abbrev pub vmaxuw : ℕ
vmaxuw = 538

abbrev pub vminsb : ℕ
vminsb = 539

abbrev pub vminsd : ℕ
vminsd = 540

abbrev pub vminub : ℕ
vminub = 541

abbrev pub vminud : ℕ
vminud = 542

abbrev pub vminsh : ℕ
vminsh = 543

abbrev pub vminsw : ℕ
vminsw = 544

abbrev pub vminuh : ℕ
vminuh = 545

abbrev pub vminuw : ℕ
vminuw = 546

abbrev pub vcmpequb : ℕ
vcmpequb = 547

abbrev pub vcmpequb_ : ℕ
vcmpequb_ = 548

abbrev pub vcmpequh : ℕ
vcmpequh = 549

abbrev pub vcmpequh_ : ℕ
vcmpequh_ = 550

abbrev pub vcmpequw : ℕ
vcmpequw = 551

abbrev pub vcmpequw_ : ℕ
vcmpequw_ = 552

abbrev pub vcmpequd : ℕ
vcmpequd = 553

abbrev pub vcmpequd_ : ℕ
vcmpequd_ = 554

abbrev pub vcmpgtsb : ℕ
vcmpgtsb = 555

abbrev pub vcmpgtsb_ : ℕ
vcmpgtsb_ = 556

abbrev pub vcmpgtsd : ℕ
vcmpgtsd = 557

abbrev pub vcmpgtsd_ : ℕ
vcmpgtsd_ = 558

abbrev pub vcmpgtsh : ℕ
vcmpgtsh = 559

abbrev pub vcmpgtsh_ : ℕ
vcmpgtsh_ = 560

abbrev pub vcmpgtsw : ℕ
vcmpgtsw = 561

abbrev pub vcmpgtsw_ : ℕ
vcmpgtsw_ = 562

abbrev pub vcmpgtub : ℕ
vcmpgtub = 563

abbrev pub vcmpgtub_ : ℕ
vcmpgtub_ = 564

abbrev pub vcmpgtud : ℕ
vcmpgtud = 565

abbrev pub vcmpgtud_ : ℕ
vcmpgtud_ = 566

abbrev pub vcmpgtuh : ℕ
vcmpgtuh = 567

abbrev pub vcmpgtuh_ : ℕ
vcmpgtuh_ = 568

abbrev pub vcmpgtuw : ℕ
vcmpgtuw = 569

abbrev pub vcmpgtuw_ : ℕ
vcmpgtuw_ = 570
