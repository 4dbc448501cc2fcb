-- ===== src/Asm/Op/Part07.antt =====
-- power64asm/tables.go: the constants of type Op from DRRND_ to XVABSSP.
use Prim.Native.Nat.{ℕ}

abbrev pub drrnd_ : ℕ
drrnd_ = 666

abbrev pub drintx : ℕ
drintx = 667

abbrev pub drintx_ : ℕ
drintx_ = 668

abbrev pub drintn : ℕ
drintn = 669

abbrev pub drintn_ : ℕ
drintn_ = 670

abbrev pub dctdp : ℕ
dctdp = 671

abbrev pub dctdp_ : ℕ
dctdp_ = 672

abbrev pub dctqpq : ℕ
dctqpq = 673

abbrev pub dctqpq_ : ℕ
dctqpq_ = 674

abbrev pub drsp : ℕ
drsp = 675

abbrev pub drsp_ : ℕ
drsp_ = 676

abbrev pub drdpq : ℕ
drdpq = 677

abbrev pub drdpq_ : ℕ
drdpq_ = 678

abbrev pub dcffix : ℕ
dcffix = 679

abbrev pub dcffix_ : ℕ
dcffix_ = 680

abbrev pub dcffixq : ℕ
dcffixq = 681

abbrev pub dcffixq_ : ℕ
dcffixq_ = 682

abbrev pub dctfix : ℕ
dctfix = 683

abbrev pub dctfix_ : ℕ
dctfix_ = 684

abbrev pub ddedpd : ℕ
ddedpd = 685

abbrev pub ddedpd_ : ℕ
ddedpd_ = 686

abbrev pub denbcd : ℕ
denbcd = 687

abbrev pub denbcd_ : ℕ
denbcd_ = 688

abbrev pub dxex : ℕ
dxex = 689

abbrev pub dxex_ : ℕ
dxex_ = 690

abbrev pub diex : ℕ
diex = 691

abbrev pub diex_ : ℕ
diex_ = 692

abbrev pub dscli : ℕ
dscli = 693

abbrev pub dscli_ : ℕ
dscli_ = 694

abbrev pub dscri : ℕ
dscri = 695

abbrev pub dscri_ : ℕ
dscri_ = 696

abbrev pub lxsdx : ℕ
lxsdx = 697

abbrev pub lxsiwax : ℕ
lxsiwax = 698

abbrev pub lxsiwzx : ℕ
lxsiwzx = 699

abbrev pub lxsspx : ℕ
lxsspx = 700

abbrev pub lxvd2x : ℕ
lxvd2x = 701

abbrev pub lxvdsx : ℕ
lxvdsx = 702

abbrev pub lxvw4x : ℕ
lxvw4x = 703

abbrev pub stxsdx : ℕ
stxsdx = 704

abbrev pub stxsiwx : ℕ
stxsiwx = 705

abbrev pub stxsspx : ℕ
stxsspx = 706

abbrev pub stxvd2x : ℕ
stxvd2x = 707

abbrev pub stxvw4x : ℕ
stxvw4x = 708

abbrev pub xsabsdp : ℕ
xsabsdp = 709

abbrev pub xsadddp : ℕ
xsadddp = 710

abbrev pub xsaddsp : ℕ
xsaddsp = 711

abbrev pub xscmpodp : ℕ
xscmpodp = 712

abbrev pub xscmpudp : ℕ
xscmpudp = 713

abbrev pub xscpsgndp : ℕ
xscpsgndp = 714

abbrev pub xscvdpsp : ℕ
xscvdpsp = 715

abbrev pub xscvdpspn : ℕ
xscvdpspn = 716

abbrev pub xscvdpsxds : ℕ
xscvdpsxds = 717

abbrev pub xscvdpsxws : ℕ
xscvdpsxws = 718

abbrev pub xscvdpuxds : ℕ
xscvdpuxds = 719

abbrev pub xscvdpuxws : ℕ
xscvdpuxws = 720

abbrev pub xscvspdp : ℕ
xscvspdp = 721

abbrev pub xscvspdpn : ℕ
xscvspdpn = 722

abbrev pub xscvsxddp : ℕ
xscvsxddp = 723

abbrev pub xscvsxdsp : ℕ
xscvsxdsp = 724

abbrev pub xscvuxddp : ℕ
xscvuxddp = 725

abbrev pub xscvuxdsp : ℕ
xscvuxdsp = 726

abbrev pub xsdivdp : ℕ
xsdivdp = 727

abbrev pub xsdivsp : ℕ
xsdivsp = 728

abbrev pub xsmaddadp : ℕ
xsmaddadp = 729

abbrev pub xsmaddasp : ℕ
xsmaddasp = 730

abbrev pub xsmaxdp : ℕ
xsmaxdp = 731

abbrev pub xsmindp : ℕ
xsmindp = 732

abbrev pub xsmsubadp : ℕ
xsmsubadp = 733

abbrev pub xsmsubasp : ℕ
xsmsubasp = 734

abbrev pub xsmuldp : ℕ
xsmuldp = 735

abbrev pub xsmulsp : ℕ
xsmulsp = 736

abbrev pub xsnabsdp : ℕ
xsnabsdp = 737

abbrev pub xsnegdp : ℕ
xsnegdp = 738

abbrev pub xsnmaddadp : ℕ
xsnmaddadp = 739

abbrev pub xsnmaddasp : ℕ
xsnmaddasp = 740

abbrev pub xsnmsubadp : ℕ
xsnmsubadp = 741

abbrev pub xsnmsubasp : ℕ
xsnmsubasp = 742

abbrev pub xsrdpi : ℕ
xsrdpi = 743

abbrev pub xsrdpic : ℕ
xsrdpic = 744

abbrev pub xsrdpim : ℕ
xsrdpim = 745

abbrev pub xsrdpip : ℕ
xsrdpip = 746

abbrev pub xsrdpiz : ℕ
xsrdpiz = 747

abbrev pub xsredp : ℕ
xsredp = 748

abbrev pub xsresp : ℕ
xsresp = 749

abbrev pub xsrsp : ℕ
xsrsp = 750

abbrev pub xsrsqrtedp : ℕ
xsrsqrtedp = 751

abbrev pub xsrsqrtesp : ℕ
xsrsqrtesp = 752

abbrev pub xssqrtdp : ℕ
xssqrtdp = 753

abbrev pub xssqrtsp : ℕ
xssqrtsp = 754

abbrev pub xssubdp : ℕ
xssubdp = 755

abbrev pub xssubsp : ℕ
xssubsp = 756

abbrev pub xstdivdp : ℕ
xstdivdp = 757

abbrev pub xstsqrtdp : ℕ
xstsqrtdp = 758

abbrev pub xvabsdp : ℕ
xvabsdp = 759

abbrev pub xvabssp : ℕ
xvabssp = 760
