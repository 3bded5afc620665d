-- ===== src/Tables.antt =====
-- The precomputed points of crypto/src/riscv_tables.c, and the lookup in one of them by
-- `table_lookup_fixed_base` of crypto/src/riscv_fourq_verify.c.
pub mod Fixed
pub mod Double1
pub mod Double2
pub mod Double3
pub mod Double4
pub mod Range
use zkproof_demo.Base.{ℕ, ◌-◌, ◌==◌, if◌then◌else◌, List, [], ◌∷◌, ◌++◌, get_or}
use zkproof_demo.Word.{not64, sub64}
use zkproof_demo.Field.{Felm, low63}
use zkproof_demo.Quadratic.{F2elm, f2elm_of, fp2_zero}
use zkproof_demo.Curve.Points.{PointPrecomp}
use Fixed.{fixed_base_words}
use Double1.{double_scalar_words_1}
use Double2.{double_scalar_words_2}
use Double3.{double_scalar_words_3}
use Double4.{double_scalar_words_4}

-- An entry past the end of a table.
abbrev pub no_point : PointPrecomp
no_point = record { xy = fp2_zero; yx = fp2_zero; t2 = fp2_zero }

-- The cast of a table of words to `point_precomp_t*`.
unfoldable pub points_of : List ℕ → List PointPrecomp
points_of (a0 ∷ a1 ∷ a2 ∷ a3 ∷ b0 ∷ b1 ∷ b2 ∷ b3 ∷ c0 ∷ c1 ∷ c2 ∷ c3 ∷ words) =
    record { xy = f2elm_of a0 a1 a2 a3; yx = f2elm_of b0 b1 b2 b3; t2 = f2elm_of c0 c1 c2 c3 }
    ∷ points_of words
points_of words = []

unfoldable pub fixed_base_table : List PointPrecomp
fixed_base_table = points_of fixed_base_words

unfoldable pub double_scalar_table : List PointPrecomp
double_scalar_table =
    points_of double_scalar_words_1
    ++ points_of double_scalar_words_2
    ++ points_of double_scalar_words_3
    ++ points_of double_scalar_words_4

unfoldable pub table_lookup_fixed_base : ℕ → ℕ → PointPrecomp
table_lookup_fixed_base digit sign =
    let p = get_or fixed_base_table digit no_point in
    let negated : PointPrecomp = record {
      xy = p.yx;
      yx = p.xy;
      t2 = record {
        c0 = record { lo = not64 p.t2.c0.lo; hi = sub64 low63 p.t2.c0.hi };
        c1 = record { lo = not64 p.t2.c1.lo; hi = sub64 low63 p.t2.c1.hi };
      };
    } in
    if sign == 0 then p else negated
