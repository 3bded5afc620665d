-- ===== src/Tables/Range.antt =====
-- The words of `DOUBLE_SCALAR_TABLE` are coordinates of 127 bits.
use zkproof_demo.Base.{
  ℕ, zero, suc, ◌^◌, Bool, true, ◌&&◌, ◌≡◌, refl, ltb, ltb→lt, List, [], ◌∷◌, ◌++◌, get_or, arith,
}
use zkproof_demo.Field.{Felm, IsFelm}
use zkproof_demo.Quadratic.{F2elm, IsF2elm}
use zkproof_demo.Curve.Points.{PointPrecomp}
use zkproof_demo.Curve.Range.{FixedRange}
use zkproof_demo.Tables.{no_point, points_of, double_scalar_table}
use zkproof_demo.Tables.Double1.{double_scalar_words_1}
use zkproof_demo.Tables.Double2.{double_scalar_words_2}
use zkproof_demo.Tables.Double3.{double_scalar_words_3}
use zkproof_demo.Tables.Double4.{double_scalar_words_4}

felm_fits : Felm → Bool
felm_fits a = ltb a.lo (2 ^ 64) && ltb a.hi (2 ^ 63)

f2elm_fits : F2elm → Bool
f2elm_fits a = felm_fits a.c0 && felm_fits a.c1

points_fit : List PointPrecomp → Bool
points_fit [] = true
points_fit (p ∷ ps) = (f2elm_fits p.xy && f2elm_fits p.yx) && (f2elm_fits p.t2 && points_fit ps)

both_true : (a b : Bool) → a && b ≡ true → (a ≡ true) × (b ≡ true)
both_true a b h = ground arith

felm_fits-IsFelm : (a : Felm) → felm_fits a ≡ true → IsFelm a
unfolding felm_fits
felm_fits-IsFelm a h =
    let both = both_true (ltb a.lo (2 ^ 64)) (ltb a.hi (2 ^ 63)) h in
    record { lo_fits = ltb→lt a.lo (2 ^ 64) both.0; hi_fits = ltb→lt a.hi (2 ^ 63) both.1 }

f2elm_fits-IsF2elm : (a : F2elm) → f2elm_fits a ≡ true → IsF2elm a
unfolding f2elm_fits
f2elm_fits-IsF2elm a h =
    let both = both_true (felm_fits a.c0) (felm_fits a.c1) h in
    record { c0_fits = felm_fits-IsFelm a.c0 both.0; c1_fits = felm_fits-IsFelm a.c1 both.1 }

pub data AllFixed : List PointPrecomp → Type 0 where
  no_points : AllFixed []
  one_point :
      {p : PointPrecomp} {ps : List PointPrecomp} → FixedRange p → AllFixed ps → AllFixed (p ∷ ps)

points_fit-AllFixed : (ps : List PointPrecomp) → points_fit ps ≡ true → AllFixed ps
unfolding points_fit
points_fit-AllFixed [] h = no_points
points_fit-AllFixed (p ∷ ps) h =
    let four =
      both_true (f2elm_fits p.xy && f2elm_fits p.yx) (f2elm_fits p.t2 && points_fit ps) h in
    let front = both_true (f2elm_fits p.xy) (f2elm_fits p.yx) four.0 in
    let back = both_true (f2elm_fits p.t2) (points_fit ps) four.1 in
    one_point
      (record {
        xy_range = f2elm_fits-IsF2elm p.xy front.0;
        yx_range = f2elm_fits-IsF2elm p.yx front.1;
        t2_range = f2elm_fits-IsF2elm p.t2 back.0;
      })
      (points_fit-AllFixed ps back.1)

AllFixed-append : (ps qs : List PointPrecomp) → AllFixed ps → AllFixed qs → AllFixed (ps ++ qs)
AllFixed-append [] qs hp hq = hq
AllFixed-append (p ∷ ps) qs (one_point h hp) hq = one_point h (AllFixed-append ps qs hp hq)

no_point-FixedRange : FixedRange no_point
no_point-FixedRange = omega arith

AllFixed-get_or : (ps : List PointPrecomp) (i : ℕ) → AllFixed ps → FixedRange (get_or ps i no_point)
AllFixed-get_or [] i h = no_point-FixedRange
AllFixed-get_or (p ∷ ps) zero (one_point h hs) = h
AllFixed-get_or (p ∷ ps) (suc i) (one_point h hs) = AllFixed-get_or ps i hs

part_1 : points_fit (points_of double_scalar_words_1) ≡ true
unfolding points_fit points_of f2elm_fits felm_fits
part_1 = refl

part_2 : points_fit (points_of double_scalar_words_2) ≡ true
unfolding points_fit points_of f2elm_fits felm_fits
part_2 = refl

part_3 : points_fit (points_of double_scalar_words_3) ≡ true
unfolding points_fit points_of f2elm_fits felm_fits
part_3 = refl

part_4 : points_fit (points_of double_scalar_words_4) ≡ true
unfolding points_fit points_of f2elm_fits felm_fits
part_4 = refl

pub double_scalar_table_range : (i : ℕ) → FixedRange (get_or double_scalar_table i no_point)
unfolding double_scalar_table points_of
double_scalar_table_range i =
    let h1 = points_fit-AllFixed (points_of double_scalar_words_1) part_1 in
    let h2 = points_fit-AllFixed (points_of double_scalar_words_2) part_2 in
    let h3 = points_fit-AllFixed (points_of double_scalar_words_3) part_3 in
    let h4 = points_fit-AllFixed (points_of double_scalar_words_4) part_4 in
    AllFixed-get_or _ i
      (AllFixed-append _ _ h1 (AllFixed-append _ _ h2 (AllFixed-append _ _ h3 h4)))
