-- ===== src/Structural/Value.antt =====
-- The operations on polynomials are sums, negations and products of their values.
use leibniz_daemon.Common.{
  ℕ, String, true, ◌≡◌, refl, sym, ap, ◌∙◌, inl, inr, some, [], ◌∷◌, arith, str_eq, eq_iff,
  Bool-cases, Option-cases,
}
use Prim.Native.Nat.{Ordering}
use Prim.Native.String.{compare}
use leibniz_daemon.Structural.Integer.{
  ℤ, pos, ◌+ℤ◌, ◌*ℤ◌, neg_ℤ, pow, +ℤ_comm, +ℤ_assoc, +ℤ-zero, *ℤ_comm, *ℤ_assoc, *ℤ-+ℤ, *ℤ-one,
  *ℤ-zero, neg_ℤ-+ℤ, neg_ℤ-*ℤ, pow-+,
}
use leibniz_daemon.Structural.Poly.{
  Mono, Poly, bump, bump_all, place, sorted, mono_mul, same_mono, add_term, add, neg, mul_term,
  mul_from, mul,
}

abbrev pub Env : Type 0
Env = String → ℤ

neg_zero : pos 0 ≡ neg_ℤ (pos 0)
unfolding neg_ℤ
neg_zero = refl

module _ (env : Env) where
  abbrev pub mono_value : Mono → ℤ
  mono_value [] = pos 1
  mono_value ((x, e) ∷ mono) = pow (env x) e *ℤ mono_value mono

  abbrev pub poly_value : Poly → ℤ
  poly_value [] = pos 0
  poly_value ((mono, c) ∷ p) = c *ℤ mono_value mono +ℤ poly_value p

  left_comm : (a b c : ℤ) → a *ℤ (b *ℤ c) ≡ b *ℤ (a *ℤ c)
  left_comm a b c = sym (*ℤ_assoc a b c) ∙ ap (λ x. x *ℤ c) (*ℤ_comm a b) ∙ *ℤ_assoc b a c

  add_left_comm : (a b c : ℤ) → a +ℤ (b +ℤ c) ≡ b +ℤ (a +ℤ c)
  add_left_comm a b c = sym (+ℤ_assoc a b c) ∙ ap (λ x. x +ℤ c) (+ℤ_comm a b) ∙ +ℤ_assoc b a c

  mono_value-bump :
      (x : String) (e : ℕ) (mono : Mono)
      → mono_value (bump x e mono) ≡ pow (env x) e *ℤ mono_value mono
  unfolding bump
  mono_value-bump x e [] = refl
  mono_value-bump x e ((y, f) ∷ mono) = elim (Bool-cases (str_eq y x)) [
    | inl same ↦
        let named : y ≡ x = (eq_iff y x).0 same in
        rw same (
          ap (λ p. p *ℤ mono_value mono) (pow-+ (env y) f e)
          ∙ *ℤ_assoc (pow (env y) f) (pow (env y) e) (mono_value mono)
          ∙ left_comm (pow (env y) f) (pow (env y) e) (mono_value mono)
          ∙ ap (λ z. pow (env z) e *ℤ (pow (env y) f *ℤ mono_value mono)) named)
    | inr other ↦ rw other (
        ap (λ v. pow (env y) f *ℤ v) (mono_value-bump x e mono)
        ∙ left_comm (pow (env y) f) (pow (env x) e) (mono_value mono))
  ]

  mono_value-bump_all : (a b : Mono) → mono_value (bump_all a b) ≡ mono_value a *ℤ mono_value b
  unfolding bump_all
  mono_value-bump_all [] b = sym (*ℤ_comm (pos 1) (mono_value b) ∙ *ℤ-one (mono_value b))
  mono_value-bump_all ((x, e) ∷ a) b =
      mono_value-bump_all a (bump x e b)
      ∙ ap (λ v. mono_value a *ℤ v) (mono_value-bump x e b)
      ∙ left_comm (mono_value a) (pow (env x) e) (mono_value b)
      ∙ sym (*ℤ_assoc (pow (env x) e) (mono_value a) (mono_value b))

  mono_value-place :
      (x : String) (e : ℕ) (mono : Mono)
      → mono_value (place (x, e) mono) ≡ pow (env x) e *ℤ mono_value mono
  unfolding place
  mono_value-place x e [] = refl
  mono_value-place x e ((y, f) ∷ mono) = cases (compare x y) (mono_value-place x e mono)
    where
      cases :
          (o : Ordering)
          → mono_value (place (x, e) mono) ≡ pow (env x) e *ℤ mono_value mono
          → mono_value
              (elim o [ Ordering.gt ↦ (y, f) ∷ place (x, e) mono | _ ↦ (x, e) ∷ (y, f) ∷ mono ])
            ≡ pow (env x) e *ℤ (pow (env y) f *ℤ mono_value mono)
      cases Ordering.lt h = refl
      cases Ordering.eq h = refl
      cases Ordering.gt h =
          ap (λ v. pow (env y) f *ℤ v) h
          ∙ left_comm (pow (env y) f) (pow (env x) e) (mono_value mono)

  mono_value-sorted : (mono : Mono) → mono_value (sorted mono) ≡ mono_value mono
  unfolding sorted
  mono_value-sorted [] = refl
  mono_value-sorted ((x, e) ∷ mono) =
      mono_value-place x e (sorted mono) ∙ ap (λ v. pow (env x) e *ℤ v) (mono_value-sorted mono)

  mono_value-mono_mul : (a b : Mono) → mono_value (mono_mul a b) ≡ mono_value a *ℤ mono_value b
  unfolding mono_mul
  mono_value-mono_mul a b =
      mono_value-sorted (bump_all b (bump_all a []))
      ∙ mono_value-bump_all b (bump_all a [])
      ∙ ap (λ v. mono_value b *ℤ v) (mono_value-bump_all a [] ∙ *ℤ-one (mono_value a))
      ∙ *ℤ_comm (mono_value b) (mono_value a)

  same_mono-eq : (a b : Mono) → same_mono a b ≡ true → a ≡ b
  same_mono-eq [] [] h = refl
  same_mono-eq [] (q ∷ b) h = cc
  same_mono-eq (p ∷ a) [] h = cc
  same_mono-eq ((x, e) ∷ a) ((y, f) ∷ b) h =
      let n : x ≡ y = ground (arith, eq_iff x y) in
      let k : e ≡ f = ground arith in
      let t : a ≡ b = same_mono-eq a b (ground arith) in cc (n, k, t)

  factor : (a b c : ℤ) → (a +ℤ b) *ℤ c ≡ a *ℤ c +ℤ b *ℤ c
  factor a b c =
      *ℤ_comm (a +ℤ b) c
      ∙ *ℤ-+ℤ c a b
      ∙ ap (λ x. x +ℤ c *ℤ b) (*ℤ_comm c a)
      ∙ ap (λ x. a *ℤ c +ℤ x) (*ℤ_comm c b)

  zero_add : (a : ℤ) → pos 0 +ℤ a ≡ a
  zero_add a = +ℤ_comm (pos 0) a ∙ +ℤ-zero a

  poly_value-add_term :
      (mono : Mono) (c : ℤ) (p : Poly)
      → poly_value (add_term mono c p) ≡ poly_value p +ℤ c *ℤ mono_value mono
  unfolding add_term
  poly_value-add_term mono c [] =
      ap (λ x. x *ℤ mono_value mono +ℤ pos 0) (zero_add c) ∙ +ℤ_comm (c *ℤ mono_value mono) (pos 0)
  poly_value-add_term mono c ((n, d) ∷ p) = elim (Bool-cases (same_mono n mono)) [
    | inl same ↦
        let eq : n ≡ mono = same_mono-eq n mono same in
        rw same (
          ap (λ x. x +ℤ poly_value p) (factor d c (mono_value n))
          ∙ +ℤ_assoc (d *ℤ mono_value n) (c *ℤ mono_value n) (poly_value p)
          ∙ ap (λ x. d *ℤ mono_value n +ℤ x) (+ℤ_comm (c *ℤ mono_value n) (poly_value p))
          ∙ sym (+ℤ_assoc (d *ℤ mono_value n) (poly_value p) (c *ℤ mono_value n))
          ∙ ap (λ z. (d *ℤ mono_value n +ℤ poly_value p) +ℤ c *ℤ mono_value z) eq)
    | inr other ↦ rw other (
        ap (λ x. d *ℤ mono_value n +ℤ x) (poly_value-add_term mono c p)
        ∙ sym (+ℤ_assoc (d *ℤ mono_value n) (poly_value p) (c *ℤ mono_value mono)))
  ]

  -- The sum of two polynomials has the sum of their values.
  pub poly_value-add : (a b : Poly) → poly_value (add a b) ≡ poly_value a +ℤ poly_value b
  unfolding add
  poly_value-add a [] = sym (+ℤ-zero (poly_value a))
  poly_value-add a ((mono, c) ∷ b) =
      poly_value-add (add_term mono c a) b
      ∙ ap (λ x. x +ℤ poly_value b) (poly_value-add_term mono c a)
      ∙ +ℤ_assoc (poly_value a) (c *ℤ mono_value mono) (poly_value b)

  pub poly_value-neg : (a : Poly) → poly_value (neg a) ≡ neg_ℤ (poly_value a)
  unfolding neg
  poly_value-neg [] = neg_zero
  poly_value-neg ((mono, c) ∷ a) =
      ap (λ x. x +ℤ poly_value (neg a)) (neg_ℤ-*ℤ c (mono_value mono))
      ∙ ap (λ x. neg_ℤ (c *ℤ mono_value mono) +ℤ x) (poly_value-neg a)
      ∙ sym (neg_ℤ-+ℤ (c *ℤ mono_value mono) (poly_value a))

  product_of_terms :
      (c1 c2 : ℤ) (m1 m2 : Mono)
      → (c1 *ℤ c2) *ℤ mono_value (mono_mul m1 m2) ≡ (c1 *ℤ mono_value m1) *ℤ (c2 *ℤ mono_value m2)
  product_of_terms c1 c2 m1 m2 =
      ap (λ x. (c1 *ℤ c2) *ℤ x) (mono_value-mono_mul m1 m2)
      ∙ *ℤ_assoc c1 c2 (mono_value m1 *ℤ mono_value m2)
      ∙ ap (λ x. c1 *ℤ x) (left_comm c2 (mono_value m1) (mono_value m2))
      ∙ sym (*ℤ_assoc c1 (mono_value m1) (c2 *ℤ mono_value m2))

  mul_term_value :
      (m1 : Mono) (c1 : ℤ) (b out r : Poly)
      → mul_term m1 c1 b out ≡ some r
      → poly_value r ≡ poly_value out +ℤ (c1 *ℤ mono_value m1) *ℤ poly_value b
  unfolding mul_term
  mul_term_value m1 c1 [] out r e =
      let same : out ≡ r = cc e in
      ap poly_value (sym same)
      ∙ sym
          (ap (λ x. poly_value out +ℤ x) (*ℤ-zero (c1 *ℤ mono_value m1)) ∙ +ℤ-zero (poly_value out))
  mul_term_value m1 c1 ((m2, c2) ∷ b) out r e =
      let k = c1 *ℤ mono_value m1 in
      let next = add_term (mono_mul m1 m2) (c1 *ℤ c2) out in
      let rest : mul_term m1 c1 b next ≡ some r = ground arith in
      mul_term_value m1 c1 b next r rest
      ∙ ap (λ x. x +ℤ k *ℤ poly_value b)
          (poly_value-add_term (mono_mul m1 m2) (c1 *ℤ c2) out
            ∙ ap (λ x. poly_value out +ℤ x) (product_of_terms c1 c2 m1 m2))
      ∙ +ℤ_assoc (poly_value out) (k *ℤ (c2 *ℤ mono_value m2)) (k *ℤ poly_value b)
      ∙ ap (λ x. poly_value out +ℤ x) (sym (*ℤ-+ℤ k (c2 *ℤ mono_value m2) (poly_value b)))

  mul_from_value :
      (a b out r : Poly)
      → mul_from a b out ≡ some r
      → poly_value r ≡ poly_value out +ℤ poly_value a *ℤ poly_value b
  unfolding mul_from
  mul_from_value [] b out r e =
      let same : out ≡ r = cc e in
      ap poly_value (sym same)
      ∙ sym (
          ap (λ x. poly_value out +ℤ x) (*ℤ_comm (pos 0) (poly_value b) ∙ *ℤ-zero (poly_value b))
          ∙ +ℤ-zero (poly_value out))
  mul_from_value ((m1, c1) ∷ a) b out r e = elim (Option-cases (mul_term m1 c1 b out)) [
    | inl over ↦ absurd (cc (rw (over, mul_from) at e))
    | inr (more, t) ↦
        let k = c1 *ℤ mono_value m1 in
        mul_from_value a b more r (rw (t, mul_from) at e)
        ∙ ap (λ x. x +ℤ poly_value a *ℤ poly_value b) (mul_term_value m1 c1 b out more t)
        ∙ +ℤ_assoc (poly_value out) (k *ℤ poly_value b) (poly_value a *ℤ poly_value b)
        ∙ ap (λ x. poly_value out +ℤ x) (sym (factor k (poly_value a) (poly_value b)))
  ]

  pub poly_value-mul :
      (a b r : Poly) → mul a b ≡ some r → poly_value r ≡ poly_value a *ℤ poly_value b
  unfolding mul
  poly_value-mul a b r e = mul_from_value a b [] r e ∙ zero_add (poly_value a *ℤ poly_value b)
