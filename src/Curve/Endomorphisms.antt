-- ===== src/Curve/Endomorphisms.antt =====
-- The endomorphisms phi and psi, and their constants.
use zkproof_demo.Quadratic.{
  F2elm, f2elm_of, fp2neg1271, fp2conj1271, fp2sqr1271, fp2mul1271, fp2add1271, fp2sub1271,
}
use zkproof_demo.Curve.Points.{PointExtproj}

abbrev pub ctau1 : F2elm
ctau1 = f2elm_of 0x74DCD57CEBCE74C3 0x1964DE2C3AFAD20C 0x12 0x0C

abbrev pub ctaudual1 : F2elm
ctaudual1 = f2elm_of 0x9ECAA6D9DECDF034 0x4AA740EB23058652 0x11 0x7FFFFFFFFFFFFFF4

abbrev pub cphi0 : F2elm
cphi0 = f2elm_of 0xFFFFFFFFFFFFFFF7 0x05 0x4F65536CEF66F81A 0x2553A0759182C329

abbrev pub cphi1 : F2elm
cphi1 = f2elm_of 0x07 0x05 0x334D90E9E28296F9 0x62C8CAA0C50C62CF

abbrev pub cphi2 : F2elm
cphi2 = f2elm_of 0x15 0x0F 0x2C2CB7154F1DF391 0x78DF262B6C9B5C98

abbrev pub cphi3 : F2elm
cphi3 = f2elm_of 0x03 0x02 0x92440457A7962EA4 0x5084C6491D76342A

abbrev pub cphi4 : F2elm
cphi4 = f2elm_of 0x03 0x03 0xA1098C923AEC6855 0x12440457A7962EA4

abbrev pub cphi5 : F2elm
cphi5 = f2elm_of 0x0F 0x0A 0x669B21D3C5052DF3 0x459195418A18C59E

abbrev pub cphi6 : F2elm
cphi6 = f2elm_of 0x18 0x12 0xCD3643A78A0A5BE7 0x0B232A8314318B3C

abbrev pub cphi7 : F2elm
cphi7 = f2elm_of 0x23 0x18 0x66C183035F48781A 0x3963BC1C99E2EA1A

abbrev pub cphi8 : F2elm
cphi8 = f2elm_of 0xF0 0xAA 0x44E251582B5D0EF0 0x1F529F860316CBE5

abbrev pub cphi9 : F2elm
cphi9 = f2elm_of 0xBEF 0x870 0x14D3E48976E2505 0xFD52E9CFE00375B

abbrev pub cpsi1 : F2elm
cpsi1 = f2elm_of 0xEDF07F4767E346EF 0x2AF99E9A83D54A02 0x13A 0xDE

abbrev pub cpsi2 : F2elm
cpsi2 = f2elm_of 0x143 0xE4 0x4C7DEB770E03F372 0x21B8D07B99A81F03

abbrev pub cpsi3 : F2elm
cpsi3 = f2elm_of 0x09 0x06 0x3A6E6ABE75E73A61 0x4CB26F161D7D6906

abbrev pub cpsi4 : F2elm
cpsi4 = f2elm_of 0xFFFFFFFFFFFFFFF6 0x7FFFFFFFFFFFFFF9 0xC59195418A18C59E 0x334D90E9E28296F9

unfoldable pub ecc_tau : PointExtproj → PointExtproj
ecc_tau p =
    let t0 = fp2sqr1271 p.x in
    let t1 = fp2sqr1271 p.y in
    let x = fp2mul1271 p.x p.y in
    let y = fp2sqr1271 p.z in
    let z = fp2add1271 t0 t1 in
    let t0 = fp2sub1271 t1 t0 in
    let y = fp2add1271 y y in
    let x = fp2mul1271 x t0 in
    let y = fp2sub1271 y t0 in
    let x = fp2mul1271 x ctau1 in
    let y = fp2mul1271 y z in
    let z = fp2mul1271 z t0 in record { x = x; y = y; z = z; ta = p.ta; tb = p.tb }

unfoldable pub ecc_tau_dual : PointExtproj → PointExtproj
ecc_tau_dual p =
    let t0 = fp2sqr1271 p.x in
    let ta = fp2sqr1271 p.z in
    let t1 = fp2sqr1271 p.y in
    let z = fp2add1271 ta ta in
    let ta = fp2sub1271 t1 t0 in
    let t0 = fp2add1271 t0 t1 in
    let x = fp2mul1271 p.x p.y in
    let z = fp2sub1271 z ta in
    let tb = fp2mul1271 x ctaudual1 in
    let y = fp2mul1271 z ta in
    let x = fp2mul1271 tb t0 in
    let z = fp2mul1271 z t0 in record { x = x; y = y; z = z; ta = ta; tb = tb }

unfoldable pub ecc_delphidel : PointExtproj → PointExtproj
ecc_delphidel p =
    let t4 = fp2sqr1271 p.z in
    let t3 = fp2mul1271 p.y p.z in
    let t0 = fp2mul1271 t4 cphi4 in
    let t2 = fp2sqr1271 p.y in
    let t0 = fp2add1271 t0 t2 in
    let t1 = fp2mul1271 t3 cphi3 in
    let t5 = fp2sub1271 t0 t1 in
    let t0 = fp2add1271 t0 t1 in
    let t0 = fp2mul1271 t0 p.z in
    let t1 = fp2mul1271 t3 cphi1 in
    let t0 = fp2mul1271 t0 t5 in
    let t5 = fp2mul1271 t4 cphi2 in
    let t5 = fp2add1271 t2 t5 in
    let t6 = fp2sub1271 t1 t5 in
    let t1 = fp2add1271 t1 t5 in
    let t6 = fp2mul1271 t6 t1 in
    let t6 = fp2mul1271 t6 cphi0 in
    let x = fp2mul1271 p.x t6 in
    let t6 = fp2sqr1271 t2 in
    let t2 = fp2sqr1271 t3 in
    let t3 = fp2sqr1271 t4 in
    let t1 = fp2mul1271 t2 cphi8 in
    let t5 = fp2mul1271 t3 cphi9 in
    let t1 = fp2add1271 t1 t6 in
    let t2 = fp2mul1271 t2 cphi6 in
    let t3 = fp2mul1271 t3 cphi7 in
    let t1 = fp2add1271 t1 t5 in
    let t2 = fp2add1271 t2 t3 in
    let t1 = fp2mul1271 t1 p.y in
    let y = fp2add1271 t6 t2 in
    let x = fp2mul1271 x t1 in
    let y = fp2mul1271 y cphi5 in
    let x = fp2conj1271 x in
    let y = fp2mul1271 y p.z in
    let z = fp2mul1271 t0 t1 in
    let y = fp2mul1271 y t0 in
    let z = fp2conj1271 z in
    let y = fp2conj1271 y in record { x = x; y = y; z = z; ta = p.ta; tb = p.tb }

unfoldable pub ecc_delpsidel : PointExtproj → PointExtproj
ecc_delpsidel p =
    let x = fp2conj1271 p.x in
    let z = fp2conj1271 p.z in
    let y = fp2conj1271 p.y in
    let t2 = fp2sqr1271 z in
    let t0 = fp2sqr1271 x in
    let x = fp2mul1271 x t2 in
    let z = fp2mul1271 t2 cpsi2 in
    let t1 = fp2mul1271 t2 cpsi3 in
    let t2 = fp2mul1271 t2 cpsi4 in
    let z = fp2add1271 t0 z in
    let t2 = fp2add1271 t0 t2 in
    let t1 = fp2add1271 t0 t1 in
    let t2 = fp2neg1271 t2 in
    let z = fp2mul1271 z y in
    let x = fp2mul1271 x t2 in
    let y = fp2mul1271 t1 z in
    let x = fp2mul1271 x cpsi1 in
    let z = fp2mul1271 z t2 in record { x = x; y = y; z = z; ta = p.ta; tb = p.tb }

unfoldable pub ecc_psi : PointExtproj → PointExtproj
ecc_psi p = ecc_tau_dual (ecc_delpsidel (ecc_tau p))

unfoldable pub ecc_phi : PointExtproj → PointExtproj
ecc_phi p = ecc_tau_dual (ecc_delphidel (ecc_tau p))
