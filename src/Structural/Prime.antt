-- ===== src/Structural/Prime.antt =====
-- `_isprime` by trial division up to the square root; the bound on its rounds is enough.
use leibniz_daemon.Common.{
  ℕ, zero, suc, ◌+◌, ◌*◌, ◌%◌, ◌≤◌, ◌<◌, ◌==◌, leb, ltb, true, false, ◌≡◌, sym, ap, ◌∙◌, ◌-◌, inl,
  inr, arith, Bool-cases,
}
use leibniz_daemon.Structural.Signature.{prime_from, is_prime}

square_le : (i j : ℕ) → i * i ≤ (i + j) * (i + j)
square_le i j = omega arith

square_mono : (i d : ℕ) → i ≤ d → i * i ≤ d * d
square_mono i d h =
    let whole : i + (d - i) ≡ d = omega (arith, h) in rw whole at (square_le i (d - i))

le_square : (d : ℕ) → d ≤ d * d
le_square zero = omega arith
le_square (suc d) = omega arith

prime_from_lem :
    (k i x d : ℕ) → prime_from k i x ≡ true → i ≤ d → d < i + k → d * d ≤ x → (x % d == 0) ≡ false
unfolding prime_from
prime_from_lem zero i x d h low high small = absurd (omega (arith, low, high))
prime_from_lem (suc k) i x d h low high small = elim (Bool-cases (leb (i * i) x)) [
  | inr stopped ↦
      let square = square_mono i d low in
      let beyond : x < i * i = ground arith in absurd (omega (arith, square, beyond, small))
  | inl going ↦ elim (Bool-cases (x % i == 0)) [
    | inl divides ↦ absurd (cc (rw (going, divides, prime_from) at h))
    | inr free ↦ elim (Bool-cases (i == d)) [
      | inl here ↦ let same : i ≡ d = ground arith in ap (λ n. x % n == 0) (sym same) ∙ free
      | inr later ↦
          prime_from_lem k (i + 1) x d (rw (going, free, prime_from) at h) (ground arith)
            (omega (arith, high)) small
    ]
  ]
]

-- A prime has no divisor from 2 up to its square root.
is_prime_lem : (x d : ℕ) → is_prime x ≡ true → 2 ≤ d → d * d ≤ x → (x % d == 0) ≡ false
unfolding is_prime
is_prime_lem x d h low small = elim (Bool-cases (ltb x 2)) [
  | inl little ↦ absurd (cc (rw (little, is_prime) at h))
  | inr large ↦
      prime_from_lem x 2 x d (rw (large, is_prime) at h) low (omega (arith, le_square d, small))
        small
]
