-- ===== src/Scalar/Constants.antt =====
-- The constants of `decompose` in crypto/src/riscv_fourq_verify.c: its matrix and its offsets.
use zkproof_demo.Base.{ℕ}

abbrev pub b11 : ℕ
b11 = 0xF6F900D81F5F5E6A

abbrev pub b12 : ℕ
b12 = 0x1363E862C22A2DA0

abbrev pub b13 : ℕ
b13 = 0xF8BD9FCE1337FCF1

abbrev pub b14 : ℕ
b14 = 0x084F739986B9E651

abbrev pub b21 : ℕ
b21 = 0xE2B6A4157B033D2C

abbrev pub b22 : ℕ
b22 = 0x0000000000000001

abbrev pub b23 : ℕ
b23 = 0xFFFFFFFFFFFFFFFF

abbrev pub b24 : ℕ
b24 = 0xDA243A43722E9830

abbrev pub b31 : ℕ
b31 = 0xE85452E2DCE0FCFE

abbrev pub b32 : ℕ
b32 = 0xFD3BDEE51C7725AF

abbrev pub b33 : ℕ
b33 = 0x2E4D21C98927C49F

abbrev pub b34 : ℕ
b34 = 0xF56190BB3FD13269

abbrev pub b41 : ℕ
b41 = 0xEC91CBF56EF737C1

abbrev pub b42 : ℕ
b42 = 0xCEDD20D23C1F00CE

abbrev pub b43 : ℕ
b43 = 0x068A49F02AA8A9B5

abbrev pub b44 : ℕ
b44 = 0x18D5087896DE0AEA

abbrev pub c1 : ℕ
c1 = 0x72482C5251A4559C

abbrev pub c2 : ℕ
c2 = 0x59F95B0ADD276F6C

abbrev pub c3 : ℕ
c3 = 0x7DD2D17C4625FA78

abbrev pub c4 : ℕ
c4 = 0x6BC57DEF56CE8877
