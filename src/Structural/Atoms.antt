-- ===== src/Structural/Atoms.antt =====
-- An atom whose polynomial reduces to a constant has one truth value for all integers.
use leibniz_daemon.Common.{
  ℕ, ◌≤◌, ◌<◌, ◌==◌, Bool, true, false, ◌≡◌, refl, sym, ap, ◌∙◌, inl, inr, Option, none, some, [],
  ◌∷◌, arith, if◌then◌else◌, Option-cases,
}
use leibniz_daemon.Structural.Integer.{
  ℤ, pos, ◌+ℤ◌, ◌*ℤ◌, neg_ℤ, residue, +ℤ_comm, +ℤ_assoc, +ℤ-zero, *ℤ-one, +ℤ-neg_ℤ_cancel,
}
use leibniz_daemon.Structural.Residue.{residue-+ℤ_multiple, residue-+ℤ_iff}
use leibniz_daemon.Structural.Poly.{Poly, add, neg}
use leibniz_daemon.Structural.Value.{Env, poly_value, poly_value-add, poly_value-neg}
use leibniz_daemon.Structural.Syntax.{
  Node, constant, name, usub, binop, boolop, negation, comparison, collection, other, plus, minus,
  times, power, modulo, const_int, mod_of,
}
use leibniz_daemon.Structural.Degenerate.{expand, reduces_to_constant, reduces}
use leibniz_daemon.Structural.Meaning.{value, modulo_value}
use leibniz_daemon.Structural.Expansion.{expand-value, constant_part, reduced-value}

mod_of-value :
    (env : Env) (n : Node) (a : Node × ℕ)
    → mod_of n ≡ some a
    → value env n ≡ modulo_value (some a.1) (value env a.0)
unfolding mod_of value
mod_of-value env (binop modulo l r) a e = elim (Option-cases (const_int r)) [
  | inl none1 ↦ absurd (cc (rw (none1, mod_of) at e))
  | inr (m, c) ↦
      let same : (l, m) ≡ a = cc (rw (c, mod_of) at e) in
      rw c (ap (λ x. modulo_value (some x.1) (value env x.0)) same)
]
mod_of-value env (binop plus l r) a e = cc e
mod_of-value env (binop minus l r) a e = cc e
mod_of-value env (binop times l r) a e = cc e
mod_of-value env (binop power l r) a e = cc e
mod_of-value env (constant n) a e = cc e
mod_of-value env (name x) a e = cc e
mod_of-value env (usub n) a e = cc e
mod_of-value env (boolop c ns) a e = cc e
mod_of-value env (negation n) a e = cc e
mod_of-value env (comparison rel l r) a e = cc e
mod_of-value env (collection ns) a e = cc e
mod_of-value env other a e = cc e

pub const_int-value :
    (env : Env) (n : Node) (c : ℕ) → const_int n ≡ some c → value env n ≡ some (pos c)
unfolding const_int value
const_int-value env (constant k) c e = let same : k ≡ c = cc e in ap (λ x. some (pos x)) same
const_int-value env (name x) c e = cc e
const_int-value env (usub n) c e = cc e
const_int-value env (binop op l r) c e = cc e
const_int-value env (boolop k ns) c e = cc e
const_int-value env (negation n) c e = cc e
const_int-value env (comparison rel l r) c e = cc e
const_int-value env (collection ns) c e = cc e
const_int-value env other c e = cc e

-- `P % m`, where `P` has a polynomial.
pub modulo_of_poly :
    (env : Env) (n p : Node) (m : ℕ) (x : Poly)
    → 2 ≤ m
    → mod_of n ≡ some (p, m)
    → expand p ≡ some x
    → value env n ≡ some (pos (residue m (poly_value env x)))
modulo_of_poly env n p m x two e a =
    let nonzero : (m == 0) ≡ false = ground arith in
    mod_of-value env n (p, m) e
    ∙ ap (λ v. modulo_value (some m) v) (expand-value env p x a)
    ∙ ap (λ (b : Bool). if b then none else some (pos (residue m (poly_value env x)))) nonzero

module _ (m : ℕ) (two : 2 ≤ m) where
  positive : 0 < m
  positive = omega (arith, two)

  -- Where two values differ by a constant and a multiple of the modulus.
  residue_shift : (v u k w : ℤ) → v +ℤ neg_ℤ u ≡ k +ℤ pos m *ℤ w → residue m v ≡ residue m (u +ℤ k)
  residue_shift v u k w e =
      ap (residue m) (
        sym (+ℤ-neg_ℤ_cancel v u)
        ∙ ap (λ z. z +ℤ u) e
        ∙ +ℤ_comm (k +ℤ pos m *ℤ w) u
        ∙ sym (+ℤ_assoc u k (pos m *ℤ w)))
      ∙ residue-+ℤ_multiple m (u +ℤ k) w positive

  -- `P1 % m == P2 % m`
  pub two_residues :
      (env : Env) (x y : Poly)
      → reduces_to_constant (add x (neg y)) m ≡ true
      → (residue m (poly_value env x) == residue m (poly_value env y))
        ≡ (residue m (constant_part (add x (neg y))) == 0)
  two_residues env x y h =
      let k = constant_part (add x (neg y)) in
      let (w, e) = reduced-value env m positive (add x (neg y)) h in
      let split =
        ap (λ v. poly_value env x +ℤ v) (sym (poly_value-neg env y))
        ∙ sym (poly_value-add env x (neg y))
        ∙ e in
      let same = residue_shift (poly_value env x) (poly_value env y) k w split in
      ground (arith, same, residue-+ℤ_iff m (poly_value env y) k positive)

  -- `P % m` against a literal
  pub one_residue :
      (env : Env) (x : Poly) (c : ℕ)
      → reduces_to_constant (add x (([], neg_ℤ (pos c)) ∷ [])) m ≡ true
      → residue m (poly_value env x)
        ≡ residue m (pos c +ℤ constant_part (add x (([], neg_ℤ (pos c)) ∷ [])))
  one_residue env x c h =
      let literal = ([], neg_ℤ (pos c)) ∷ [] in
      let (w, e) = reduced-value env m positive (add x literal) h in
      let negative = +ℤ-zero (neg_ℤ (pos c) *ℤ pos 1) ∙ *ℤ-one (neg_ℤ (pos c)) in
      residue_shift (poly_value env x) (pos c) (constant_part (add x literal)) w
        (ap (λ v. poly_value env x +ℤ v) (sym negative) ∙ sym (poly_value-add env x literal) ∙ e)

pub reduces_parts :
    (m : ℕ) (o : Option Poly)
    → reduces (m, o) ≡ some true
    → (2 ≤ m) × ((p : Poly) × (o ≡ some p) × (reduces_to_constant p m ≡ true))
reduces_parts m none e = cc e
reduces_parts m (some p) e = (ground arith, (p, refl, ground arith))

-- The value of the equation, whatever the integers.
abbrev pub HasTruth : (Env → Option Bool) → Type 0
HasTruth f = (b : Bool) × ((env : Env) → f env ≡ some b)
