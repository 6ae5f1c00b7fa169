-- ===== src/Structural/Expansion.antt =====
-- The expansion of a term into a polynomial keeps its value.
use leibniz_daemon.Common.{
  ℕ, zero, suc, ◌<◌, true, ◌≡◌, refl, sym, ap, ◌∙◌, inl, inr, Option, none, some, [], ◌∷◌, arith,
  Option-cases,
}
use leibniz_daemon.Structural.Integer.{
  ℤ, pos, ◌+ℤ◌, ◌*ℤ◌, pow, residue, +ℤ_comm, +ℤ_assoc, +ℤ-zero, *ℤ_comm, *ℤ_assoc, *ℤ-+ℤ, *ℤ-one,
  *ℤ-zero,
}
use leibniz_daemon.Structural.Residue.{residue-zero}
use leibniz_daemon.Structural.Poly.{Poly, add, neg, mul}
use leibniz_daemon.Structural.Value.{
  Env, mono_value, poly_value, poly_value-add, poly_value-neg, poly_value-mul,
}
use leibniz_daemon.Structural.Syntax.{
  Node, constant, name, usub, binop, boolop, negation, comparison, collection, other, plus, minus,
  times, power, modulo, const_int,
}
use leibniz_daemon.Structural.Degenerate.{
  mul_repeated, both, one, raise_to, negated, expand, reduces_to_constant,
}
use leibniz_daemon.Structural.Meaning.{value}

pub both_parts :
    (f : Poly → Poly → Option Poly) (a b : Option Poly) (p : Poly)
    → both f a b ≡ some p
    → (x : Poly) × (y : Poly) × (a ≡ some x) × (b ≡ some y) × (f x y ≡ some p)
both_parts f none b p e = cc e
both_parts f (some x) none p e = cc e
both_parts f (some x) (some y) p e = (x, y, refl, refl, e)

negated_part :
    (a : Option Poly) (p : Poly) → negated a ≡ some p → (x : Poly) × (a ≡ some x) × (neg x ≡ p)
negated_part none p e = cc e
negated_part (some x) p e = (x, refl, cc e)

power_parts :
    (k : Option ℕ) (a : Option Poly) (p : Poly)
    → raise_to k a ≡ some p
    → (n : ℕ) × (x : Poly) × (k ≡ some n) × (a ≡ some x) × (mul_repeated n x one ≡ some p)
power_parts none a p e = cc e
power_parts (some n) none p e = cc e
power_parts (some n) (some x) p e = (n, x, refl, refl, ground arith)

module _ (env : Env) where
  mul_repeated_value :
      (k : ℕ) (base out r : Poly)
      → mul_repeated k base out ≡ some r
      → poly_value env r ≡ poly_value env out *ℤ pow (poly_value env base) k
  unfolding mul_repeated pow
  mul_repeated_value zero base out r e =
      let same : out ≡ r = cc e in
      ap (poly_value env) (sym same) ∙ sym (*ℤ-one (poly_value env out))
  mul_repeated_value (suc k) base out r e = elim (Option-cases (mul out base)) [
    | inl over ↦ absurd (cc (rw (over, mul_repeated) at e))
    | inr (next, m) ↦
        mul_repeated_value k base next r (rw (m, mul_repeated) at e)
        ∙ ap (λ x. x *ℤ pow (poly_value env base) k) (poly_value-mul env out base next m)
        ∙ *ℤ_assoc (poly_value env out) (poly_value env base) (pow (poly_value env base) k)
  ]

  one_value : poly_value env one ≡ pos 1
  one_value = +ℤ-zero (pos 1 *ℤ pos 1) ∙ *ℤ-one (pos 1)

  -- The term has the polynomial's value.
  pub expand-value :
      (n : Node) (p : Poly) → expand n ≡ some p → value env n ≡ some (poly_value env p)
  unfolding expand value pow
  expand-value (constant k) p e =
      let same : (([], pos k) ∷ []) ≡ p = cc e in
      ap some (sym (sym (ap (poly_value env) same) ∙ +ℤ-zero (pos k *ℤ pos 1) ∙ *ℤ-one (pos k)))
  expand-value (name x) p e =
      let same : (((x, 1) ∷ [], pos 1) ∷ []) ≡ p = cc e in
      ap some (
        sym (
          sym (ap (poly_value env) same)
          ∙ +ℤ-zero (pos 1 *ℤ (pow (env x) 1 *ℤ pos 1))
          ∙ *ℤ_comm (pos 1) (pow (env x) 1 *ℤ pos 1)
          ∙ *ℤ-one (pow (env x) 1 *ℤ pos 1)
          ∙ *ℤ-one (pow (env x) 1)
          ∙ *ℤ-one (env x)))
  expand-value (usub n) p e =
      let (x, a, made) = negated_part (expand n) p e in
      rw (expand-value n x a) (ap some (sym (poly_value-neg env x) ∙ ap (poly_value env) made))
  expand-value (binop plus l r) p e =
      let (x, y, a, b, made) = both_parts (λ p q. some (add p q)) (expand l) (expand r) p e in
      let same : add x y ≡ p = cc made in
      rw (expand-value l x a, expand-value r y b)
        (ap some (sym (poly_value-add env x y) ∙ ap (poly_value env) same))
  expand-value (binop minus l r) p e =
      let (x, y, a, b, made) = both_parts (λ p q. some (add p (neg q))) (expand l) (expand r) p e in
      let same : add x (neg y) ≡ p = cc made in
      rw (expand-value l x a, expand-value r y b)
        (ap some (
          ap (λ v. poly_value env x +ℤ v) (sym (poly_value-neg env y))
          ∙ sym (poly_value-add env x (neg y))
          ∙ ap (poly_value env) same))
  expand-value (binop times l r) p e =
      let (x, y, a, b, made) = both_parts mul (expand l) (expand r) p e in
      rw (expand-value l x a, expand-value r y b) (ap some (sym (poly_value-mul env x y p made)))
  expand-value (binop power l r) p e =
      let (k, x, c, a, made) = power_parts (const_int r) (expand l) p e in
      rw (c, expand-value l x a)
        (ap some (
          sym (
            mul_repeated_value k x one p made
            ∙ ap (λ v. v *ℤ pow (poly_value env x) k) one_value
            ∙ *ℤ_comm (pos 1) (pow (poly_value env x) k)
            ∙ *ℤ-one (pow (poly_value env x) k))))
  expand-value (binop modulo l r) p e = cc e
  expand-value (boolop c ns) p e = cc e
  expand-value (negation n) p e = cc e
  expand-value (comparison rel l r) p e = cc e
  expand-value (collection ns) p e = cc e
  expand-value other p e = cc e

-- The sum of the constant terms.
unfoldable pub constant_part : Poly → ℤ
constant_part [] = pos 0
constant_part (([], c) ∷ p) = c +ℤ constant_part p
constant_part ((x ∷ mono, c) ∷ p) = constant_part p

module _ (env : Env) (m : ℕ) (positive : 0 < m) where
  -- A polynomial that reduces is its constant part and a multiple of the modulus.
  pub reduced-value :
      (p : Poly)
      → reduces_to_constant p m ≡ true
      → (w : ℤ) × (poly_value env p ≡ constant_part p +ℤ pos m *ℤ w)
  unfolding reduces_to_constant constant_part
  reduced-value [] h = (pos 0, sym (ap (λ x. pos 0 +ℤ x) (*ℤ-zero (pos m)) ∙ +ℤ-zero (pos 0)))
  reduced-value (([], c) ∷ p) h =
      let (w, e) = reduced-value p h in
      (
        w,
        ap (λ x. x +ℤ poly_value env p) (*ℤ-one c)
            ∙ ap (λ x. c +ℤ x) e
            ∙ sym (+ℤ_assoc c (constant_part p) (pos m *ℤ w)),
      )
  reduced-value ((x ∷ mono, c) ∷ p) h =
      let zero_residue : residue m c ≡ 0 = ground arith in
      let (q, d) = residue-zero m c positive zero_residue in
      let (w, e) = reduced-value p (ground arith) in
      let v = mono_value env (x ∷ mono) in
      (
        w +ℤ q *ℤ v,
        ap (λ z. z *ℤ v +ℤ poly_value env p) d
            ∙ +ℤ_comm ((pos m *ℤ q) *ℤ v) (poly_value env p)
            ∙ ap (λ z. z +ℤ (pos m *ℤ q) *ℤ v) e
            ∙ +ℤ_assoc (constant_part p) (pos m *ℤ w) ((pos m *ℤ q) *ℤ v)
            ∙ ap (λ z. constant_part p +ℤ (pos m *ℤ w +ℤ z)) (*ℤ_assoc (pos m) q v)
            ∙ ap (λ z. constant_part p +ℤ z) (sym (*ℤ-+ℤ (pos m) w (q *ℤ v))),
      )
