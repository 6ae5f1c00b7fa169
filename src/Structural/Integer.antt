-- ===== src/Structural/Integer.antt =====
-- Python's integers: `+`, `-`, `*`, a power, and `%` by a positive number, whose result is not negative.
-- The laws say that they are a commutative ring.
use leibniz_daemon.Common.{
  ℕ, zero, suc, ◌+◌, ◌-◌, ◌*◌, ◌%◌, leb, ◌≡◌, sym, ap, ◌∙◌, arith, if◌then◌else◌,
}

pub data ℤ : Type 0 where
  pos : ℕ → ℤ
  negsuc : ℕ → ℤ

-- An integer is the difference of these two.
abbrev pub up : ℤ → ℕ
up (pos n) = n
up (negsuc n) = 0

abbrev pub down : ℤ → ℕ
down (pos n) = 0
down (negsuc n) = suc n

unfoldable pub diff : ℕ → ℕ → ℤ
diff a b = if leb b a then pos (a - b) else negsuc (b - a - 1)

infixl 60 ◌+ℤ◌
unfoldable pub ◌+ℤ◌ : ℤ → ℤ → ℤ
unfolding diff
x +ℤ y = diff (up x + up y) (down x + down y)

unfoldable pub neg_ℤ : ℤ → ℤ
unfolding diff
neg_ℤ x = diff (down x) (up x)

infixl 65 ◌*ℤ◌
unfoldable pub ◌*ℤ◌ : ℤ → ℤ → ℤ
unfolding diff
x *ℤ y = diff (up x * up y + down x * down y) (up x * down y + down x * up y)

unfoldable pub pow : ℤ → ℕ → ℤ
pow x zero = pos 1
pow x (suc n) = x *ℤ pow x n

-- `x % m`
unfoldable pub residue : ℕ → ℤ → ℕ
residue m (pos n) = n % m
residue m (negsuc n) = m - 1 - n % m

diff_lem : (a b : ℕ) → up (diff a b) + b ≡ a + down (diff a b)
unfolding diff
diff_lem a b = ground arith

pub ext : (x y : ℤ) → up x + down y ≡ up y + down x → x ≡ y
ext (pos m) (pos n) h = let e : m ≡ n = omega (arith, h) in ap pos e
ext (pos m) (negsuc n) h = absurd (omega (arith, h))
ext (negsuc m) (pos n) h = absurd (omega (arith, h))
ext (negsuc m) (negsuc n) h = let e : m ≡ n = omega (arith, h) in ap negsuc e

pub add_lem : (x y : ℤ) → up (x +ℤ y) + (down x + down y) ≡ up x + up y + down (x +ℤ y)
unfolding ◌+ℤ◌
add_lem x y = diff_lem (up x + up y) (down x + down y)

pub mul_lem :
    (x y : ℤ)
    → up (x *ℤ y) + (up x * down y + down x * up y) ≡ up x * up y + down x * down y + down (x *ℤ y)
unfolding ◌*ℤ◌
mul_lem x y = diff_lem (up x * up y + down x * down y) (up x * down y + down x * up y)

neg_lem : (x : ℤ) → up (neg_ℤ x) + up x ≡ down x + down (neg_ℤ x)
unfolding neg_ℤ
neg_lem x = diff_lem (down x) (up x)

pub +ℤ_comm : (x y : ℤ) → x +ℤ y ≡ y +ℤ x
+ℤ_comm x y = ext _ _ (omega (arith, add_lem x y, add_lem y x))

pub +ℤ_assoc : (x y z : ℤ) → (x +ℤ y) +ℤ z ≡ x +ℤ (y +ℤ z)
+ℤ_assoc x y z =
    ext _ _ (omega (arith, add_lem x y, add_lem y z, add_lem (x +ℤ y) z, add_lem x (y +ℤ z)))

pub +ℤ_swap : (a b c d : ℤ) → (a +ℤ b) +ℤ (c +ℤ d) ≡ (a +ℤ c) +ℤ (b +ℤ d)
+ℤ_swap a b c d = ext _ _ (
    omega (
      arith,
      add_lem a b,
      add_lem c d,
      add_lem a c,
      add_lem b d,
      add_lem (a +ℤ b) (c +ℤ d),
      add_lem (a +ℤ c) (b +ℤ d),
    ))

pub +ℤ-zero : (x : ℤ) → x +ℤ pos 0 ≡ x
+ℤ-zero x = ext _ _ (omega (arith, add_lem x (pos 0)))

pub *ℤ_comm : (x y : ℤ) → x *ℤ y ≡ y *ℤ x
*ℤ_comm x y = ext _ _ (omega (arith, mul_lem x y, mul_lem y x))

-- A product of an equation with a number.
times : (k : ℕ) {a b : ℕ} → a ≡ b → a * k ≡ b * k
times k e = ap (λ n. n * k) e

pub *ℤ_assoc : (x y z : ℤ) → (x *ℤ y) *ℤ z ≡ x *ℤ (y *ℤ z)
*ℤ_assoc x y z = ext _ _ (
    omega (
      arith,
      mul_lem (x *ℤ y) z,
      mul_lem x (y *ℤ z),
      times (up z) (mul_lem x y),
      times (down z) (mul_lem x y),
      times (up x) (mul_lem y z),
      times (down x) (mul_lem y z),
    ))

pub *ℤ-+ℤ : (x y z : ℤ) → x *ℤ (y +ℤ z) ≡ x *ℤ y +ℤ x *ℤ z
*ℤ-+ℤ x y z = ext _ _ (
    omega (
      arith,
      mul_lem x (y +ℤ z),
      mul_lem x y,
      mul_lem x z,
      add_lem (x *ℤ y) (x *ℤ z),
      times (up x) (add_lem y z),
      times (down x) (add_lem y z),
    ))

pub *ℤ-one : (x : ℤ) → x *ℤ pos 1 ≡ x
*ℤ-one x = ext _ _ (omega (arith, mul_lem x (pos 1)))

pub *ℤ-zero : (x : ℤ) → x *ℤ pos 0 ≡ pos 0
*ℤ-zero x = ext _ _ (omega (arith, mul_lem x (pos 0)))

pub neg_ℤ-+ℤ : (x y : ℤ) → neg_ℤ (x +ℤ y) ≡ neg_ℤ x +ℤ neg_ℤ y
neg_ℤ-+ℤ x y = ext _ _ (
    omega (arith, neg_lem (x +ℤ y), add_lem x y, neg_lem x, neg_lem y, add_lem (neg_ℤ x) (neg_ℤ y)))

pub neg_ℤ-*ℤ : (x y : ℤ) → neg_ℤ x *ℤ y ≡ neg_ℤ (x *ℤ y)
neg_ℤ-*ℤ x y = ext _ _ (
    omega (
      arith,
      mul_lem (neg_ℤ x) y,
      neg_lem (x *ℤ y),
      mul_lem x y,
      times (up y) (neg_lem x),
      times (down y) (neg_lem x),
    ))

pub pow-+ : (x : ℤ) (m n : ℕ) → pow x (m + n) ≡ pow x m *ℤ pow x n
unfolding pow
pow-+ x zero n =
    let e : 0 + n ≡ n = omega arith in
    ap (pow x) e ∙ sym (*ℤ_comm (pos 1) (pow x n) ∙ *ℤ-one (pow x n))
pow-+ x (suc m) n =
    let e : suc m + n ≡ suc (m + n) = omega arith in
    ap (pow x) e ∙ ap (λ y. x *ℤ y) (pow-+ x m n) ∙ sym (*ℤ_assoc x (pow x m) (pow x n))

pub +ℤ-neg_ℤ_cancel : (x y : ℤ) → (x +ℤ neg_ℤ y) +ℤ y ≡ x
+ℤ-neg_ℤ_cancel x y =
    ext _ _ (omega (arith, add_lem (x +ℤ neg_ℤ y) y, add_lem x (neg_ℤ y), neg_lem y))
