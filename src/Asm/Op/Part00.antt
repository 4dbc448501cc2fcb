-- ===== src/Asm/Op/Part00.antt =====
-- power64asm/tables.go: the constants of type Op from CNTLZW to ADDIC_.
use Prim.Native.Nat.{ℕ}

abbrev pub cntlzw : ℕ
cntlzw = 1

abbrev pub cntlzw_ : ℕ
cntlzw_ = 2

abbrev pub b : ℕ
b = 3

abbrev pub ba : ℕ
ba = 4

abbrev pub bl : ℕ
bl = 5

abbrev pub bla : ℕ
bla = 6

abbrev pub bc : ℕ
bc = 7

abbrev pub bca : ℕ
bca = 8

abbrev pub bcl : ℕ
bcl = 9

abbrev pub bcla : ℕ
bcla = 10

abbrev pub bclr : ℕ
bclr = 11

abbrev pub bclrl : ℕ
bclrl = 12

abbrev pub bcctr : ℕ
bcctr = 13

abbrev pub bcctrl : ℕ
bcctrl = 14

abbrev pub bctar : ℕ
bctar = 15

abbrev pub bctarl : ℕ
bctarl = 16

abbrev pub crand : ℕ
crand = 17

abbrev pub cror : ℕ
cror = 18

abbrev pub crnand : ℕ
crnand = 19

abbrev pub crxor : ℕ
crxor = 20

abbrev pub crnor : ℕ
crnor = 21

abbrev pub crandc : ℕ
crandc = 22

abbrev pub mcrf : ℕ
mcrf = 23

abbrev pub creqv : ℕ
creqv = 24

abbrev pub crorc : ℕ
crorc = 25

abbrev pub sc : ℕ
sc = 26

abbrev pub clrbhrb : ℕ
clrbhrb = 27

abbrev pub mfbhrbe : ℕ
mfbhrbe = 28

abbrev pub lbz : ℕ
lbz = 29

abbrev pub lbzu : ℕ
lbzu = 30

abbrev pub lbzx : ℕ
lbzx = 31

abbrev pub lbzux : ℕ
lbzux = 32

abbrev pub lhz : ℕ
lhz = 33

abbrev pub lhzu : ℕ
lhzu = 34

abbrev pub lhzx : ℕ
lhzx = 35

abbrev pub lhzux : ℕ
lhzux = 36

abbrev pub lha : ℕ
lha = 37

abbrev pub lhau : ℕ
lhau = 38

abbrev pub lhax : ℕ
lhax = 39

abbrev pub lhaux : ℕ
lhaux = 40

abbrev pub lwz : ℕ
lwz = 41

abbrev pub lwzu : ℕ
lwzu = 42

abbrev pub lwzx : ℕ
lwzx = 43

abbrev pub lwzux : ℕ
lwzux = 44

abbrev pub lwa : ℕ
lwa = 45

abbrev pub lwax : ℕ
lwax = 46

abbrev pub lwaux : ℕ
lwaux = 47

abbrev pub ld : ℕ
ld = 48

abbrev pub ldu : ℕ
ldu = 49

abbrev pub ldx : ℕ
ldx = 50

abbrev pub ldux : ℕ
ldux = 51

abbrev pub stb : ℕ
stb = 52

abbrev pub stbu : ℕ
stbu = 53

abbrev pub stbx : ℕ
stbx = 54

abbrev pub stbux : ℕ
stbux = 55

abbrev pub sth : ℕ
sth = 56

abbrev pub sthu : ℕ
sthu = 57

abbrev pub sthx : ℕ
sthx = 58

abbrev pub sthux : ℕ
sthux = 59

abbrev pub stw : ℕ
stw = 60

abbrev pub stwu : ℕ
stwu = 61

abbrev pub stwx : ℕ
stwx = 62

abbrev pub stwux : ℕ
stwux = 63

abbrev pub std : ℕ
std = 64

abbrev pub stdu : ℕ
stdu = 65

abbrev pub stdx : ℕ
stdx = 66

abbrev pub stdux : ℕ
stdux = 67

abbrev pub lq : ℕ
lq = 68

abbrev pub stq : ℕ
stq = 69

abbrev pub lhbrx : ℕ
lhbrx = 70

abbrev pub lwbrx : ℕ
lwbrx = 71

abbrev pub sthbrx : ℕ
sthbrx = 72

abbrev pub stwbrx : ℕ
stwbrx = 73

abbrev pub ldbrx : ℕ
ldbrx = 74

abbrev pub stdbrx : ℕ
stdbrx = 75

abbrev pub lmw : ℕ
lmw = 76

abbrev pub stmw : ℕ
stmw = 77

abbrev pub lswi : ℕ
lswi = 78

abbrev pub lswx : ℕ
lswx = 79

abbrev pub stswi : ℕ
stswi = 80

abbrev pub stswx : ℕ
stswx = 81

abbrev pub li : ℕ
li = 82

abbrev pub addi : ℕ
addi = 83

abbrev pub lis : ℕ
lis = 84

abbrev pub addis : ℕ
addis = 85

abbrev pub add : ℕ
add = 86

abbrev pub add_ : ℕ
add_ = 87

abbrev pub addo : ℕ
addo = 88

abbrev pub addo_ : ℕ
addo_ = 89

abbrev pub addic : ℕ
addic = 90

abbrev pub subf : ℕ
subf = 91

abbrev pub subf_ : ℕ
subf_ = 92

abbrev pub subfo : ℕ
subfo = 93

abbrev pub subfo_ : ℕ
subfo_ = 94

abbrev pub addic_ : ℕ
addic_ = 95
