-- ===== src/Asm/Op/Part08.antt =====
-- power64asm/tables.go: the constants of type Op from XVADDDP to EVADDSSIAAW.
use Prim.Native.Nat.{ℕ}

abbrev pub xvadddp : ℕ
xvadddp = 761

abbrev pub xvaddsp : ℕ
xvaddsp = 762

abbrev pub xvcmpeqdp : ℕ
xvcmpeqdp = 763

abbrev pub xvcmpeqdp_ : ℕ
xvcmpeqdp_ = 764

abbrev pub xvcmpeqsp : ℕ
xvcmpeqsp = 765

abbrev pub xvcmpeqsp_ : ℕ
xvcmpeqsp_ = 766

abbrev pub xvcmpgedp : ℕ
xvcmpgedp = 767

abbrev pub xvcmpgedp_ : ℕ
xvcmpgedp_ = 768

abbrev pub xvcmpgesp : ℕ
xvcmpgesp = 769

abbrev pub xvcmpgesp_ : ℕ
xvcmpgesp_ = 770

abbrev pub xvcmpgtdp : ℕ
xvcmpgtdp = 771

abbrev pub xvcmpgtdp_ : ℕ
xvcmpgtdp_ = 772

abbrev pub xvcmpgtsp : ℕ
xvcmpgtsp = 773

abbrev pub xvcmpgtsp_ : ℕ
xvcmpgtsp_ = 774

abbrev pub xvcpsgndp : ℕ
xvcpsgndp = 775

abbrev pub xvcpsgnsp : ℕ
xvcpsgnsp = 776

abbrev pub xvcvdpsp : ℕ
xvcvdpsp = 777

abbrev pub xvcvdpsxds : ℕ
xvcvdpsxds = 778

abbrev pub xvcvdpsxws : ℕ
xvcvdpsxws = 779

abbrev pub xvcvdpuxds : ℕ
xvcvdpuxds = 780

abbrev pub xvcvdpuxws : ℕ
xvcvdpuxws = 781

abbrev pub xvcvspdp : ℕ
xvcvspdp = 782

abbrev pub xvcvspsxds : ℕ
xvcvspsxds = 783

abbrev pub xvcvspsxws : ℕ
xvcvspsxws = 784

abbrev pub xvcvspuxds : ℕ
xvcvspuxds = 785

abbrev pub xvcvspuxws : ℕ
xvcvspuxws = 786

abbrev pub xvcvsxddp : ℕ
xvcvsxddp = 787

abbrev pub xvcvsxdsp : ℕ
xvcvsxdsp = 788

abbrev pub xvcvsxwdp : ℕ
xvcvsxwdp = 789

abbrev pub xvcvsxwsp : ℕ
xvcvsxwsp = 790

abbrev pub xvcvuxddp : ℕ
xvcvuxddp = 791

abbrev pub xvcvuxdsp : ℕ
xvcvuxdsp = 792

abbrev pub xvcvuxwdp : ℕ
xvcvuxwdp = 793

abbrev pub xvcvuxwsp : ℕ
xvcvuxwsp = 794

abbrev pub xvdivdp : ℕ
xvdivdp = 795

abbrev pub xvdivsp : ℕ
xvdivsp = 796

abbrev pub xvmaddadp : ℕ
xvmaddadp = 797

abbrev pub xvmaddasp : ℕ
xvmaddasp = 798

abbrev pub xvmaxdp : ℕ
xvmaxdp = 799

abbrev pub xvmaxsp : ℕ
xvmaxsp = 800

abbrev pub xvmindp : ℕ
xvmindp = 801

abbrev pub xvminsp : ℕ
xvminsp = 802

abbrev pub xvmsubadp : ℕ
xvmsubadp = 803

abbrev pub xvmsubasp : ℕ
xvmsubasp = 804

abbrev pub xvmuldp : ℕ
xvmuldp = 805

abbrev pub xvmulsp : ℕ
xvmulsp = 806

abbrev pub xvnabsdp : ℕ
xvnabsdp = 807

abbrev pub xvnabssp : ℕ
xvnabssp = 808

abbrev pub xvnegdp : ℕ
xvnegdp = 809

abbrev pub xvnegsp : ℕ
xvnegsp = 810

abbrev pub xvnmaddadp : ℕ
xvnmaddadp = 811

abbrev pub xvnmaddasp : ℕ
xvnmaddasp = 812

abbrev pub xvnmsubadp : ℕ
xvnmsubadp = 813

abbrev pub xvnmsubasp : ℕ
xvnmsubasp = 814

abbrev pub xvrdpi : ℕ
xvrdpi = 815

abbrev pub xvrdpic : ℕ
xvrdpic = 816

abbrev pub xvrdpim : ℕ
xvrdpim = 817

abbrev pub xvrdpip : ℕ
xvrdpip = 818

abbrev pub xvrdpiz : ℕ
xvrdpiz = 819

abbrev pub xvredp : ℕ
xvredp = 820

abbrev pub xvresp : ℕ
xvresp = 821

abbrev pub xvrspi : ℕ
xvrspi = 822

abbrev pub xvrspic : ℕ
xvrspic = 823

abbrev pub xvrspim : ℕ
xvrspim = 824

abbrev pub xvrspip : ℕ
xvrspip = 825

abbrev pub xvrspiz : ℕ
xvrspiz = 826

abbrev pub xvrsqrtedp : ℕ
xvrsqrtedp = 827

abbrev pub xvrsqrtesp : ℕ
xvrsqrtesp = 828

abbrev pub xvsqrtdp : ℕ
xvsqrtdp = 829

abbrev pub xvsqrtsp : ℕ
xvsqrtsp = 830

abbrev pub xvsubdp : ℕ
xvsubdp = 831

abbrev pub xvsubsp : ℕ
xvsubsp = 832

abbrev pub xvtdivdp : ℕ
xvtdivdp = 833

abbrev pub xvtdivsp : ℕ
xvtdivsp = 834

abbrev pub xvtsqrtdp : ℕ
xvtsqrtdp = 835

abbrev pub xvtsqrtsp : ℕ
xvtsqrtsp = 836

abbrev pub xxland : ℕ
xxland = 837

abbrev pub xxlandc : ℕ
xxlandc = 838

abbrev pub xxleqv : ℕ
xxleqv = 839

abbrev pub xxlnand : ℕ
xxlnand = 840

abbrev pub xxlorc : ℕ
xxlorc = 841

abbrev pub xxlnor : ℕ
xxlnor = 842

abbrev pub xxlor : ℕ
xxlor = 843

abbrev pub xxlxor : ℕ
xxlxor = 844

abbrev pub xxmrghw : ℕ
xxmrghw = 845

abbrev pub xxmrglw : ℕ
xxmrglw = 846

abbrev pub xxpermdi : ℕ
xxpermdi = 847

abbrev pub xxsel : ℕ
xxsel = 848

abbrev pub xxsldwi : ℕ
xxsldwi = 849

abbrev pub xxspltw : ℕ
xxspltw = 850

abbrev pub brinc : ℕ
brinc = 851

abbrev pub evabs : ℕ
evabs = 852

abbrev pub evaddiw : ℕ
evaddiw = 853

abbrev pub evaddsmiaaw : ℕ
evaddsmiaaw = 854

abbrev pub evaddssiaaw : ℕ
evaddssiaaw = 855
