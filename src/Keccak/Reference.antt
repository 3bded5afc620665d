-- ===== src/Keccak/Reference.antt =====
-- Keccak-p[1600, 12] as FIPS 202 describes it: the five step mappings on lanes by coordinates, rotation
-- offsets from the walk over the plane, round constants from the shift register.
use zkproof_demo.Base.{
  ℕ, zero, suc, ◌+◌, ◌-◌, ◌*◌, ◌/◌, ◌%◌, ◌^◌, bit_and, bit_xor, ◌&&◌, ◌==◌, if◌then◌else◌, get_or,
  List, [], ◌∷◌,
}
use zkproof_demo.Word.{rol64, not64}

-- A lane by its column `x` and its row `y`.
abbrev pub Plane : Type 0
Plane = ℕ → ℕ → ℕ

pub theta : Plane → Plane
theta a x y = bit_xor (a x y) (bit_xor (column ((x + 4) % 5)) (rol64 (column ((x + 1) % 5)) 1))
  where
    column : ℕ → ℕ
    column x = bit_xor (bit_xor (bit_xor (bit_xor (a x 0) (a x 1)) (a x 2)) (a x 3)) (a x 4)

-- The rotation of lane (x, y): (t + 1)(t + 2) / 2 at the `t`-th point of the walk, which stands at
-- (x', y') with `n` steps left; 0 at the origin, which the walk does not meet.
pub rho_walk : ℕ → ℕ → ℕ → ℕ → ℕ → ℕ → ℕ
rho_walk zero t x' y' x y = 0
rho_walk (suc n) t x' y' x y =
    let rest = rho_walk n (t + 1) y' ((2 * x' + 3 * y') % 5) x y in
    if x' == x && y' == y then (t + 1) * (t + 2) / 2 % 64 else rest

pub rho : Plane → Plane
unfolding rho_walk
rho a x y = rol64 (a x y) (rho_walk 24 0 1 0 x y)

pub pi : Plane → Plane
pi a x y = a ((x + 3 * y) % 5) x

pub chi : Plane → Plane
chi a x y = bit_xor (a x y) (bit_and (not64 (a ((x + 1) % 5) y)) (a ((x + 2) % 5) y))

pub iota : ℕ → Plane → Plane
iota rc a x y = if x == 0 && y == 0 then bit_xor (a x y) rc else a x y

-- The shift register of the round constants after `t` steps.
pub register : ℕ → ℕ
register zero = 1
register (suc t) = let r = register t * 2 in if r / 256 == 0 then r else bit_xor (r % 256) 0x71

-- Bit `2 ^ j - 1` of the constant of round `ir`, for the lowest `j`s.
pub constant_bits : ℕ → ℕ → ℕ
unfolding register
constant_bits ir zero = 0
constant_bits ir (suc j) = constant_bits ir j + register (j + 7 * ir) % 2 * 2 ^ (2 ^ j - 1)

unfoldable pub round_constant : ℕ → ℕ
unfolding constant_bits
round_constant ir = constant_bits ir 7

abbrev pub plane_of : List ℕ → Plane
plane_of s x y = get_or s (5 * y + x) 0

abbrev row_of : Plane → ℕ → List ℕ → List ℕ
row_of a y rest = a 0 y ∷ a 1 y ∷ a 2 y ∷ a 3 y ∷ a 4 y ∷ rest

abbrev pub state_of : Plane → List ℕ
state_of a = row_of a 0 (row_of a 1 (row_of a 2 (row_of a 3 (row_of a 4 []))))

unfoldable pub round : ℕ → List ℕ → List ℕ
unfolding theta rho pi chi iota
round rc s = state_of (iota rc (chi (pi (rho (theta (plane_of s))))))

-- `n` rounds from round index `ir` on.
unfoldable pub keccak_p : ℕ → ℕ → List ℕ → List ℕ
keccak_p zero ir s = s
keccak_p (suc n) ir s = keccak_p n (ir + 1) (round (round_constant ir) s)
