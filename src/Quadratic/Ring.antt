-- ===== src/Quadratic/Ring.antt =====
-- GF(p)[i] is a commutative ring: the operations on residues are those of pairs of natural numbers,
-- with p - 1 for -1, and a last reduction.
use zkproof_demo.Base.{ℕ, ◌+◌, ◌-◌, ◌*◌, ◌%◌, ◌≡◌, sym, ap, ap₂, ◌∙◌, arith}
use zkproof_demo.Base.Modulo.{mul-mod_left}
use zkproof_demo.Field.{prime1271}
use zkproof_demo.Quadratic.Laws.{Fp2}

unfoldable pub raw_add : Fp2 → Fp2 → Fp2
raw_add x y = record { re = x.re + y.re; im = x.im + y.im }

-- Here `m` is the number for -1, whatever it is.
module _ (m : ℕ) where
  unfoldable pub raw_mul : Fp2 → Fp2 → Fp2
  raw_mul x y = record { re = x.re * y.re + m * (x.im * y.im); im = x.re * y.im + x.im * y.re }

  raw_mul_comm : (x y : Fp2) → raw_mul x y ≡ raw_mul y x
  unfolding raw_mul
  raw_mul_comm x y = ground arith

  raw_mul_assoc : (x y z : Fp2) → raw_mul (raw_mul x y) z ≡ raw_mul x (raw_mul y z)
  unfolding raw_mul
  raw_mul_assoc x y z = ground arith

  raw_mul-raw_add : (x y z : Fp2) → raw_mul x (raw_add y z) ≡ raw_add (raw_mul x y) (raw_mul x z)
  unfolding raw_mul raw_add
  raw_mul-raw_add x y z = ground arith

unfoldable pub reduce : Fp2 → Fp2
reduce x = record { re = x.re % prime1271; im = x.im % prime1271 }

abbrev minus_one : ℕ
minus_one = prime1271 - 1

infixl 65 ◌⊕◌ ◌⊖◌
infixl 70 ◌⊗◌
-- The ring operations, total on pairs of any numbers.
unfoldable pub ◌⊕◌ : Fp2 → Fp2 → Fp2
unfolding raw_add
x ⊕ y = reduce (raw_add x y)

unfoldable pub ◌⊗◌ : Fp2 → Fp2 → Fp2
unfolding raw_mul
x ⊗ y = reduce (raw_mul minus_one x y)

unfoldable pub ◌⊖◌ : Fp2 → Fp2 → Fp2
x ⊖ y = record {
  re = (x.re + minus_one * y.re) % prime1271;
  im = (x.im + minus_one * y.im) % prime1271;
}

reduce-raw_mul_left :
    (x y : Fp2) → reduce (raw_mul minus_one (reduce x) y) ≡ reduce (raw_mul minus_one x y)
unfolding reduce raw_mul
reduce-raw_mul_left x y = ground (
  arith,
  mul-mod_left x.re y.re prime1271,
  mul-mod_left x.im y.im prime1271,
  mul-mod_left x.re y.im prime1271,
  mul-mod_left x.im y.re prime1271,
)

reduce-raw_add_left : (x y : Fp2) → reduce (raw_add (reduce x) y) ≡ reduce (raw_add x y)
unfolding reduce raw_add
reduce-raw_add_left x y = ground arith

pub mul_comm : (x y : Fp2) → x ⊗ y ≡ y ⊗ x
unfolding ◌⊗◌
mul_comm x y = ap reduce (raw_mul_comm minus_one x y)

pub add_comm : (x y : Fp2) → x ⊕ y ≡ y ⊕ x
unfolding ◌⊕◌ reduce raw_add
add_comm x y = ground arith

pub add_assoc : (x y z : Fp2) → (x ⊕ y) ⊕ z ≡ x ⊕ (y ⊕ z)
unfolding ◌⊕◌ reduce raw_add
add_assoc x y z = ground arith

pub mul_assoc : (x y z : Fp2) → (x ⊗ y) ⊗ z ≡ x ⊗ (y ⊗ z)
unfolding ◌⊗◌
mul_assoc x y z =
    reduce-raw_mul_left (raw_mul minus_one x y) z
    ∙ ap reduce (raw_mul_assoc minus_one x y z)
    ∙ ap reduce (raw_mul_comm minus_one x (raw_mul minus_one y z))
    ∙ sym (reduce-raw_mul_left (raw_mul minus_one y z) x)
    ∙ ap reduce (raw_mul_comm minus_one _ x)

reduce-raw_add : (x y : Fp2) → reduce (raw_add (reduce x) (reduce y)) ≡ reduce (raw_add x y)
unfolding reduce raw_add
reduce-raw_add x y = ground arith

pub mul-add : (x y z : Fp2) → x ⊗ (y ⊕ z) ≡ x ⊗ y ⊕ x ⊗ z
unfolding ◌⊗◌ ◌⊕◌
mul-add x y z =
    ap reduce (raw_mul_comm minus_one x (reduce (raw_add y z)))
    ∙ reduce-raw_mul_left (raw_add y z) x
    ∙ ap reduce (raw_mul_comm minus_one (raw_add y z) x ∙ raw_mul-raw_add minus_one x y z)
    ∙ sym (reduce-raw_add (raw_mul minus_one x y) (raw_mul minus_one x z))

-- The element -1.
abbrev pub neg_one : Fp2
neg_one = record { re = minus_one; im = 0 }

pub sub-eq-add : (x y : Fp2) → x ⊖ y ≡ x ⊕ neg_one ⊗ y
unfolding ◌⊖◌ ◌⊕◌ ◌⊗◌ reduce raw_add raw_mul
sub-eq-add x y = ground arith

pub neg_one_twice : (x y : Fp2) → neg_one ⊗ (neg_one ⊗ (x ⊗ y)) ≡ x ⊗ y
unfolding ◌⊗◌ reduce raw_mul
neg_one_twice x y = ground arith

-- Twice the second, and twice the first part of a sum and a difference.
pub sum-sub-difference : (m n : Fp2) → reduce m ≡ m → reduce n ≡ n → (m ⊕ n) ⊖ (m ⊖ n) ≡ n ⊕ n
unfolding ◌⊖◌ ◌⊕◌ reduce raw_add
sum-sub-difference m n hm hn = ground arith

pub sum-add-difference : (m n : Fp2) → reduce m ≡ m → reduce n ≡ n → (m ⊕ n) ⊕ (m ⊖ n) ≡ m ⊕ m
unfolding ◌⊖◌ ◌⊕◌ reduce raw_add
sum-add-difference m n hm hn = ground arith

pub reduce-mul : (x y : Fp2) → reduce (x ⊗ y) ≡ x ⊗ y
unfolding ◌⊗◌ reduce
reduce-mul x y = ground arith

pub reduce-add : (x y : Fp2) → reduce (x ⊕ y) ≡ x ⊕ y
unfolding ◌⊕◌ reduce
reduce-add x y = ground arith

pub mul_left_comm : (x y z : Fp2) → x ⊗ (y ⊗ z) ≡ y ⊗ (x ⊗ z)
mul_left_comm x y z = sym (mul_assoc x y z) ∙ ap (λ t. t ⊗ z) (mul_comm x y) ∙ mul_assoc y x z

pub add_left_comm : (x y z : Fp2) → x ⊕ (y ⊕ z) ≡ y ⊕ (x ⊕ z)
add_left_comm x y z = sym (add_assoc x y z) ∙ ap (λ t. t ⊕ z) (add_comm x y) ∙ add_assoc y x z

pub add-mul : (x y z : Fp2) → (x ⊕ y) ⊗ z ≡ x ⊗ z ⊕ y ⊗ z
add-mul x y z = mul_comm (x ⊕ y) z ∙ mul-add z x y ∙ ap₂ ◌⊕◌ (mul_comm z x) (mul_comm z y)

pub ruleset ring_rules =
    (mul-add, add-mul, mul_comm, mul_assoc, mul_left_comm, add_comm, add_assoc, add_left_comm)

pub sum-mul-sum :
    (x1 y1 x2 y2 : Fp2) → (x1 ⊕ y1) ⊗ (x2 ⊕ y2) ≡ (y1 ⊗ y2 ⊕ x1 ⊗ x2) ⊕ (x1 ⊗ y2 ⊕ y1 ⊗ x2)
sum-mul-sum x1 y1 x2 y2 = simp ring_rules

pub difference-mul-difference :
    (x1 y1 x2 y2 : Fp2) → (y1 ⊖ x1) ⊗ (y2 ⊖ x2) ≡ (y1 ⊗ y2 ⊕ x1 ⊗ x2) ⊖ (x1 ⊗ y2 ⊕ y1 ⊗ x2)
difference-mul-difference x1 y1 x2 y2 = simp (sub-eq-add, ring_rules, neg_one_twice)

pub mul-sub : (x y z : Fp2) → x ⊗ (y ⊖ z) ≡ x ⊗ y ⊖ x ⊗ z
mul-sub x y z = simp (sub-eq-add, ring_rules)

pub sub-mul : (x y z : Fp2) → (x ⊖ y) ⊗ z ≡ x ⊗ z ⊖ y ⊗ z
sub-mul x y z = mul_comm (x ⊖ y) z ∙ mul-sub z x y ∙ ap₂ ◌⊖◌ (mul_comm z x) (mul_comm z y)

pub mul-swap_factors : (a b c d : Fp2) → (a ⊗ b) ⊗ (c ⊗ d) ≡ (a ⊗ c) ⊗ (b ⊗ d)
mul-swap_factors a b c d = simp (mul_assoc, mul_left_comm)

pub mul-regroup : (a b c : Fp2) → (a ⊗ b) ⊗ c ≡ a ⊗ (c ⊗ b)
mul-regroup a b c = mul_assoc a b c ∙ ap (λ t. a ⊗ t) (mul_comm b c)

pub twice-sub : (k e : Fp2) → (k ⊕ k) ⊖ (k ⊕ e) ≡ k ⊖ e
unfolding ◌⊖◌ ◌⊕◌ reduce raw_add
twice-sub k e = ground arith

pub add_sub : (x y : Fp2) → x ⊕ y ⊖ y ≡ reduce x
unfolding ◌⊖◌ ◌⊕◌ reduce raw_add
add_sub x y = ground arith

pub sub-neg : (x y : Fp2) → y ⊖ neg_one ⊗ x ≡ x ⊕ y
unfolding ◌⊖◌ ◌⊕◌ ◌⊗◌ reduce raw_add raw_mul
sub-neg x y = ground arith
