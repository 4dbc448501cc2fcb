-- ===== src/Asm/Op/Part10.antt =====
-- power64asm/tables.go: the constants of type Op from EVMRA to EVFSCTSF.
use Prim.Native.Nat.{ℕ}

abbrev pub evmra : ℕ
evmra = 951

abbrev pub evmwhsmf : ℕ
evmwhsmf = 952

abbrev pub evmwhsmi : ℕ
evmwhsmi = 953

abbrev pub evmwhsmfa : ℕ
evmwhsmfa = 954

abbrev pub evmwhsmia : ℕ
evmwhsmia = 955

abbrev pub evmwhssf : ℕ
evmwhssf = 956

abbrev pub evmwhumi : ℕ
evmwhumi = 957

abbrev pub evmwhssfa : ℕ
evmwhssfa = 958

abbrev pub evmwhumia : ℕ
evmwhumia = 959

abbrev pub evmwlsmiaaw : ℕ
evmwlsmiaaw = 960

abbrev pub evmwlssiaaw : ℕ
evmwlssiaaw = 961

abbrev pub evmwlsmianw : ℕ
evmwlsmianw = 962

abbrev pub evmwlssianw : ℕ
evmwlssianw = 963

abbrev pub evmwlumi : ℕ
evmwlumi = 964

abbrev pub evmwlumiaaw : ℕ
evmwlumiaaw = 965

abbrev pub evmwlumia : ℕ
evmwlumia = 966

abbrev pub evmwlumianw : ℕ
evmwlumianw = 967

abbrev pub evmwlusiaaw : ℕ
evmwlusiaaw = 968

abbrev pub evmwsmf : ℕ
evmwsmf = 969

abbrev pub evmwlusianw : ℕ
evmwlusianw = 970

abbrev pub evmwsmfa : ℕ
evmwsmfa = 971

abbrev pub evmwsmfaa : ℕ
evmwsmfaa = 972

abbrev pub evmwsmi : ℕ
evmwsmi = 973

abbrev pub evmwsmiaa : ℕ
evmwsmiaa = 974

abbrev pub evmwsmfan : ℕ
evmwsmfan = 975

abbrev pub evmwsmia : ℕ
evmwsmia = 976

abbrev pub evmwsmian : ℕ
evmwsmian = 977

abbrev pub evmwssf : ℕ
evmwssf = 978

abbrev pub evmwssfa : ℕ
evmwssfa = 979

abbrev pub evmwssfaa : ℕ
evmwssfaa = 980

abbrev pub evmwumi : ℕ
evmwumi = 981

abbrev pub evmwssfan : ℕ
evmwssfan = 982

abbrev pub evmwumia : ℕ
evmwumia = 983

abbrev pub evmwumiaa : ℕ
evmwumiaa = 984

abbrev pub evnand : ℕ
evnand = 985

abbrev pub evmwumian : ℕ
evmwumian = 986

abbrev pub evneg : ℕ
evneg = 987

abbrev pub evnor : ℕ
evnor = 988

abbrev pub evorc : ℕ
evorc = 989

abbrev pub evor : ℕ
evor = 990

abbrev pub evrlw : ℕ
evrlw = 991

abbrev pub evrlwi : ℕ
evrlwi = 992

abbrev pub evsel : ℕ
evsel = 993

abbrev pub evrndw : ℕ
evrndw = 994

abbrev pub evslw : ℕ
evslw = 995

abbrev pub evsplatfi : ℕ
evsplatfi = 996

abbrev pub evsrwis : ℕ
evsrwis = 997

abbrev pub evslwi : ℕ
evslwi = 998

abbrev pub evsplati : ℕ
evsplati = 999

abbrev pub evsrwiu : ℕ
evsrwiu = 1000

abbrev pub evsrws : ℕ
evsrws = 1001

abbrev pub evstdd : ℕ
evstdd = 1002

abbrev pub evsrwu : ℕ
evsrwu = 1003

abbrev pub evstddx : ℕ
evstddx = 1004

abbrev pub evstdh : ℕ
evstdh = 1005

abbrev pub evstdw : ℕ
evstdw = 1006

abbrev pub evstdhx : ℕ
evstdhx = 1007

abbrev pub evstdwx : ℕ
evstdwx = 1008

abbrev pub evstwhe : ℕ
evstwhe = 1009

abbrev pub evstwho : ℕ
evstwho = 1010

abbrev pub evstwwe : ℕ
evstwwe = 1011

abbrev pub evstwhex : ℕ
evstwhex = 1012

abbrev pub evstwhox : ℕ
evstwhox = 1013

abbrev pub evstwwex : ℕ
evstwwex = 1014

abbrev pub evstwwo : ℕ
evstwwo = 1015

abbrev pub evsubfsmiaaw : ℕ
evsubfsmiaaw = 1016

abbrev pub evstwwox : ℕ
evstwwox = 1017

abbrev pub evsubfssiaaw : ℕ
evsubfssiaaw = 1018

abbrev pub evsubfumiaaw : ℕ
evsubfumiaaw = 1019

abbrev pub evsubfusiaaw : ℕ
evsubfusiaaw = 1020

abbrev pub evsubfw : ℕ
evsubfw = 1021

abbrev pub evsubifw : ℕ
evsubifw = 1022

abbrev pub evxor : ℕ
evxor = 1023

abbrev pub evfsabs : ℕ
evfsabs = 1024

abbrev pub evfsnabs : ℕ
evfsnabs = 1025

abbrev pub evfsneg : ℕ
evfsneg = 1026

abbrev pub evfsadd : ℕ
evfsadd = 1027

abbrev pub evfsmul : ℕ
evfsmul = 1028

abbrev pub evfssub : ℕ
evfssub = 1029

abbrev pub evfsdiv : ℕ
evfsdiv = 1030

abbrev pub evfscmpgt : ℕ
evfscmpgt = 1031

abbrev pub evfscmplt : ℕ
evfscmplt = 1032

abbrev pub evfscmpeq : ℕ
evfscmpeq = 1033

abbrev pub evfststgt : ℕ
evfststgt = 1034

abbrev pub evfststlt : ℕ
evfststlt = 1035

abbrev pub evfststeq : ℕ
evfststeq = 1036

abbrev pub evfscfsi : ℕ
evfscfsi = 1037

abbrev pub evfscfsf : ℕ
evfscfsf = 1038

abbrev pub evfscfui : ℕ
evfscfui = 1039

abbrev pub evfscfuf : ℕ
evfscfuf = 1040

abbrev pub evfsctsi : ℕ
evfsctsi = 1041

abbrev pub evfsctui : ℕ
evfsctui = 1042

abbrev pub evfsctsiz : ℕ
evfsctsiz = 1043

abbrev pub evfsctuiz : ℕ
evfsctuiz = 1044

abbrev pub evfsctsf : ℕ
evfsctsf = 1045
