-- ===== src/Asm/Op/Part09.antt =====
-- power64asm/tables.go: the constants of type Op from EVADDUMIAAW to EVMHOUSIANW.
use Prim.Native.Nat.{ℕ}

abbrev pub evaddumiaaw : ℕ
evaddumiaaw = 856

abbrev pub evaddusiaaw : ℕ
evaddusiaaw = 857

abbrev pub evaddw : ℕ
evaddw = 858

abbrev pub evand : ℕ
evand = 859

abbrev pub evcmpeq : ℕ
evcmpeq = 860

abbrev pub evandc : ℕ
evandc = 861

abbrev pub evcmpgts : ℕ
evcmpgts = 862

abbrev pub evcmpgtu : ℕ
evcmpgtu = 863

abbrev pub evcmpltu : ℕ
evcmpltu = 864

abbrev pub evcmplts : ℕ
evcmplts = 865

abbrev pub evcntlsw : ℕ
evcntlsw = 866

abbrev pub evcntlzw : ℕ
evcntlzw = 867

abbrev pub evdivws : ℕ
evdivws = 868

abbrev pub evdivwu : ℕ
evdivwu = 869

abbrev pub eveqv : ℕ
eveqv = 870

abbrev pub evextsb : ℕ
evextsb = 871

abbrev pub evextsh : ℕ
evextsh = 872

abbrev pub evldd : ℕ
evldd = 873

abbrev pub evldh : ℕ
evldh = 874

abbrev pub evlddx : ℕ
evlddx = 875

abbrev pub evldhx : ℕ
evldhx = 876

abbrev pub evldw : ℕ
evldw = 877

abbrev pub evlhhesplat : ℕ
evlhhesplat = 878

abbrev pub evldwx : ℕ
evldwx = 879

abbrev pub evlhhesplatx : ℕ
evlhhesplatx = 880

abbrev pub evlhhossplat : ℕ
evlhhossplat = 881

abbrev pub evlhhousplat : ℕ
evlhhousplat = 882

abbrev pub evlhhossplatx : ℕ
evlhhossplatx = 883

abbrev pub evlhhousplatx : ℕ
evlhhousplatx = 884

abbrev pub evlwhe : ℕ
evlwhe = 885

abbrev pub evlwhos : ℕ
evlwhos = 886

abbrev pub evlwhex : ℕ
evlwhex = 887

abbrev pub evlwhosx : ℕ
evlwhosx = 888

abbrev pub evlwhou : ℕ
evlwhou = 889

abbrev pub evlwhsplat : ℕ
evlwhsplat = 890

abbrev pub evlwhoux : ℕ
evlwhoux = 891

abbrev pub evlwhsplatx : ℕ
evlwhsplatx = 892

abbrev pub evlwwsplat : ℕ
evlwwsplat = 893

abbrev pub evmergehi : ℕ
evmergehi = 894

abbrev pub evlwwsplatx : ℕ
evlwwsplatx = 895

abbrev pub evmergelo : ℕ
evmergelo = 896

abbrev pub evmergehilo : ℕ
evmergehilo = 897

abbrev pub evmhegsmfaa : ℕ
evmhegsmfaa = 898

abbrev pub evmergelohi : ℕ
evmergelohi = 899

abbrev pub evmhegsmfan : ℕ
evmhegsmfan = 900

abbrev pub evmhegsmiaa : ℕ
evmhegsmiaa = 901

abbrev pub evmhegumiaa : ℕ
evmhegumiaa = 902

abbrev pub evmhegsmian : ℕ
evmhegsmian = 903

abbrev pub evmhegumian : ℕ
evmhegumian = 904

abbrev pub evmhesmf : ℕ
evmhesmf = 905

abbrev pub evmhesmfaaw : ℕ
evmhesmfaaw = 906

abbrev pub evmhesmfa : ℕ
evmhesmfa = 907

abbrev pub evmhesmfanw : ℕ
evmhesmfanw = 908

abbrev pub evmhesmi : ℕ
evmhesmi = 909

abbrev pub evmhesmiaaw : ℕ
evmhesmiaaw = 910

abbrev pub evmhesmia : ℕ
evmhesmia = 911

abbrev pub evmhesmianw : ℕ
evmhesmianw = 912

abbrev pub evmhessf : ℕ
evmhessf = 913

abbrev pub evmhessfa : ℕ
evmhessfa = 914

abbrev pub evmhessfaaw : ℕ
evmhessfaaw = 915

abbrev pub evmhessfanw : ℕ
evmhessfanw = 916

abbrev pub evmhessiaaw : ℕ
evmhessiaaw = 917

abbrev pub evmhessianw : ℕ
evmhessianw = 918

abbrev pub evmheumi : ℕ
evmheumi = 919

abbrev pub evmheumiaaw : ℕ
evmheumiaaw = 920

abbrev pub evmheumia : ℕ
evmheumia = 921

abbrev pub evmheumianw : ℕ
evmheumianw = 922

abbrev pub evmheusiaaw : ℕ
evmheusiaaw = 923

abbrev pub evmheusianw : ℕ
evmheusianw = 924

abbrev pub evmhogsmfaa : ℕ
evmhogsmfaa = 925

abbrev pub evmhogsmiaa : ℕ
evmhogsmiaa = 926

abbrev pub evmhogsmfan : ℕ
evmhogsmfan = 927

abbrev pub evmhogsmian : ℕ
evmhogsmian = 928

abbrev pub evmhogumiaa : ℕ
evmhogumiaa = 929

abbrev pub evmhosmf : ℕ
evmhosmf = 930

abbrev pub evmhogumian : ℕ
evmhogumian = 931

abbrev pub evmhosmfa : ℕ
evmhosmfa = 932

abbrev pub evmhosmfaaw : ℕ
evmhosmfaaw = 933

abbrev pub evmhosmi : ℕ
evmhosmi = 934

abbrev pub evmhosmfanw : ℕ
evmhosmfanw = 935

abbrev pub evmhosmia : ℕ
evmhosmia = 936

abbrev pub evmhosmiaaw : ℕ
evmhosmiaaw = 937

abbrev pub evmhosmianw : ℕ
evmhosmianw = 938

abbrev pub evmhossf : ℕ
evmhossf = 939

abbrev pub evmhossfa : ℕ
evmhossfa = 940

abbrev pub evmhossfaaw : ℕ
evmhossfaaw = 941

abbrev pub evmhossfanw : ℕ
evmhossfanw = 942

abbrev pub evmhossiaaw : ℕ
evmhossiaaw = 943

abbrev pub evmhoumi : ℕ
evmhoumi = 944

abbrev pub evmhossianw : ℕ
evmhossianw = 945

abbrev pub evmhoumia : ℕ
evmhoumia = 946

abbrev pub evmhoumiaaw : ℕ
evmhoumiaaw = 947

abbrev pub evmhousiaaw : ℕ
evmhousiaaw = 948

abbrev pub evmhoumianw : ℕ
evmhoumianw = 949

abbrev pub evmhousianw : ℕ
evmhousianw = 950
