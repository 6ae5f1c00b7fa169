-- ===== src/Structural/Residue.antt =====
-- `%` by a positive number depends on the residue class alone.
use native.Mathlib.Nat.{mod-eq_of_lt, add-mul-mod_self_left}
use leibniz_daemon.Common.{ℕ, ◌+◌, ◌-◌, ◌*◌, ◌%◌, ◌/◌, ◌<◌, ◌≡◌, sym, ap, ◌∙◌, arith, ◌↔◌}
use leibniz_daemon.Structural.Integer.{
  ℤ, pos, negsuc, up, down, ◌+ℤ◌, ◌*ℤ◌, residue, ext, add_lem, mul_lem,
}

-- Two numbers below `m` that differ by multiples of `m` are equal.
below_unique : (m r s a b : ℕ) → r < m → s < m → r + m * a ≡ s + m * b → r ≡ s
below_unique m r s a b h k e =
    sym (mod-eq_of_lt h)
    ∙ sym (add-mul-mod_self_left r m a)
    ∙ ap (λ n. n % m) e
    ∙ add-mul-mod_self_left s m b
    ∙ mod-eq_of_lt k

-- A number is its residue and a multiple of `m`.
residue_lem :
    (m : ℕ) (x : ℤ)
    → 0 < m
    → (residue m x < m) × ((a : ℕ) × (b : ℕ) × (residue m x + down x + m * a ≡ up x + m * b))
unfolding residue
residue_lem m (pos n) h = (omega (arith, h), (n / m, 0, omega (arith, h)))
residue_lem m (negsuc n) h = (omega (arith, h), (0, n / m + 1, omega (arith, h)))

-- A multiple of the modulus changes no residue.
pub residue-+ℤ_multiple : (m : ℕ) (x w : ℤ) → 0 < m → residue m (x +ℤ pos m *ℤ w) ≡ residue m x
residue-+ℤ_multiple m x w h =
    let y = x +ℤ pos m *ℤ w in
    let (lx, (a, b, ex)) = residue_lem m x h in
    let (ly, (c, d, ey)) = residue_lem m y h in
    below_unique m (residue m y) (residue m x) (c + b + down w) (d + a + up w) ly lx
      (omega (arith, ex, ey, add_lem x (pos m *ℤ w), mul_lem (pos m) w))

-- A number whose residue is 0 is a multiple.
pub residue-zero : (m : ℕ) (x : ℤ) → 0 < m → residue m x ≡ 0 → (q : ℤ) × (x ≡ pos m *ℤ q)
unfolding residue
residue-zero m (pos n) h e =
    (pos (n / m), ext _ _ (omega (arith, h, e, mul_lem (pos m) (pos (n / m)))))
residue-zero m (negsuc n) h e =
    (negsuc (n / m), ext _ _ (omega (arith, h, e, mul_lem (pos m) (negsuc (n / m)))))

pub residue-split : (m : ℕ) (x : ℤ) → 0 < m → (q : ℤ) × (x ≡ pos (residue m x) +ℤ pos m *ℤ q)
unfolding residue
residue-split m (pos n) h = (
  pos (n / m),
  ext _ _ (
      omega
        (arith, h, add_lem (pos (n % m)) (pos m *ℤ pos (n / m)), mul_lem (pos m) (pos (n / m)))),
)
residue-split m (negsuc n) h = (
  negsuc (n / m),
  ext _ _ (
      omega (
        arith,
        h,
        add_lem (pos (m - 1 - n % m)) (pos m *ℤ negsuc (n / m)),
        mul_lem (pos m) (negsuc (n / m)),
      )),
)

pub residue-lt : (m : ℕ) (x : ℤ) → 0 < m → residue m x < m
residue-lt m x h = (residue_lem m x h).0

-- Adding a number keeps the residue exactly where its own residue is 0.
pub residue-+ℤ_iff :
    (m : ℕ) (x k : ℤ) → 0 < m → (residue m (x +ℤ k) ≡ residue m x) ↔ (residue m k ≡ 0)
residue-+ℤ_iff m x k h = (
  (λ e.
      let (ly, (a, b, ey)) = residue_lem m (x +ℤ k) h in
      let (lx, (c, d, ex)) = residue_lem m x h in
      let (lk, (f, g, ek)) = residue_lem m k h in
      below_unique m (residue m k) 0 (b + c + f) (a + d + g) lk h
        (omega (arith, e, ey, ex, ek, add_lem x k))),
  λ e.
      let (q, same) = residue-zero m k h e in
      ap (λ z. residue m (x +ℤ z)) same ∙ residue-+ℤ_multiple m x q h,
)
