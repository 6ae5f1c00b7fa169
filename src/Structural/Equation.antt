-- ===== src/Structural/Equation.antt =====
-- An equation of residues holds exactly where the residue of its polynomial is 0.
use native.Mathlib.Nat.{mod-eq_of_lt}
use leibniz_daemon.Common.{
  ℕ, ◌≤◌, ◌<◌, ◌==◌, ltb, String, ◌≡◌, sym, ap, ◌∙◌, inl, inr, Option, none, some, List, [], ◌∷◌,
  arith, Bool-cases, Option-cases,
}
use leibniz_daemon.Structural.Integer.{
  ℤ, pos, ◌+ℤ◌, ◌*ℤ◌, neg_ℤ, residue, +ℤ_comm, +ℤ-zero, *ℤ-one, +ℤ-neg_ℤ_cancel,
}
use leibniz_daemon.Structural.Residue.{residue-+ℤ_iff}
use leibniz_daemon.Structural.Poly.{Poly, add, neg}
use leibniz_daemon.Structural.Value.{Env, poly_value, poly_value-add, poly_value-neg}
use leibniz_daemon.Structural.Syntax.{Node, const_int, mod_of}
use leibniz_daemon.Structural.Degenerate.{both, expand, minus_constant}
use leibniz_daemon.Structural.Meaning.{value, lift2, same_int}
use leibniz_daemon.Structural.Expansion.{both_parts}
use leibniz_daemon.Structural.Atoms.{const_int-value, modulo_of_poly}
use leibniz_daemon.Structural.Vacuous.{minus_constant_parts}
use leibniz_daemon.Structural.Signature.{vars_of, below, signed_poly}

same_residue :
    (m : ℕ) (x y : ℤ) → 0 < m → (residue m x == residue m y) ≡ (residue m (x +ℤ neg_ℤ y) == 0)
same_residue m x y positive =
    let k = x +ℤ neg_ℤ y in
    let whole : residue m (y +ℤ k) ≡ residue m x =
      ap (residue m) (+ℤ_comm y k ∙ +ℤ-neg_ℤ_cancel x y) in
    ground (arith, whole, residue-+ℤ_iff m y k positive)

residue-small : (m c : ℕ) → c < m → residue m (pos c) ≡ c
unfolding residue
residue-small m c h = mod-eq_of_lt h

below_parts : (m : ℕ) (o : Option ℕ) (c : ℕ) → below m o ≡ some c → (o ≡ some c) × (c < m)
below_parts m none c e = cc e
below_parts m (some b) c e = elim (Bool-cases (ltb b m)) [
  | inl small ↦ let same : b ≡ c = cc (rw small at e) in (ap some same, ground arith)
  | inr large ↦ absurd (cc (rw large at e))
]

module _ (env : Env) (l r : Node) (m : ℕ) (p : Poly) (two : 2 ≤ m) where
  mods_equation :
      (a b : Node)
      → mod_of l ≡ some (a, m)
      → mod_of r ≡ some (b, m)
      → both (λ p q. some (add p (neg q))) (expand a) (expand b) ≡ some p
      → lift2 same_int (value env l) (value env r) ≡ some (residue m (poly_value env p) == 0)
  mods_equation a b left right made =
      let (x, y, ea, eb, sum) =
        both_parts (λ p q. some (add p (neg q))) (expand a) (expand b) p made in
      let same : add x (neg y) ≡ p = cc sum in
      let difference =
        ap (λ v. poly_value env x +ℤ v) (sym (poly_value-neg env y))
        ∙ sym (poly_value-add env x (neg y))
        ∙ ap (poly_value env) same in
      rw (modulo_of_poly env l a m x two left ea, modulo_of_poly env r b m y two right eb)
        (ap some (
          same_residue m (poly_value env x) (poly_value env y) (omega (arith, two))
          ∙ ap (λ v. residue m v == 0) difference))

-- `P % m` on the left and a literal on the right, of which the equation's sides are these values.
literal_values :
    (env : Env) (l r a : Node) (m : ℕ) (p : Poly)
    → 2 ≤ m
    → mod_of l ≡ some (a, m)
    → minus_constant a (below m (const_int r)) ≡ some p
    → (k : ℕ) × (c : ℕ) × (value env l ≡ some (pos k))
      × (value env r ≡ some (pos c))
      × ((k == c) ≡ (residue m (poly_value env p) == 0))
literal_values env l r a m p two left made =
    let (c, x, literal, ea, sum) = minus_constant_parts a (below m (const_int r)) p made in
    let (written, small) = below_parts m (const_int r) c literal in
    let negative = +ℤ-zero (neg_ℤ (pos c) *ℤ pos 1) ∙ *ℤ-one (neg_ℤ (pos c)) in
    let difference =
      ap (λ v. poly_value env x +ℤ v) (sym negative)
      ∙ sym (poly_value-add env x (([], neg_ℤ (pos c)) ∷ []))
      ∙ ap (poly_value env) sum in
    (
      residue m (poly_value env x),
      c,
      modulo_of_poly env l a m x two left ea,
      const_int-value env r c written,
      ap (λ n. residue m (poly_value env x) == n) (sym (residue-small m c small))
          ∙ same_residue m (poly_value env x) (pos c) (omega (arith, two))
          ∙ ap (λ v. residue m v == 0) difference,
    )

found_parts :
    (a : ℕ × Option Poly × List String) (m : ℕ) (p : Poly) (vars : List String)
    → some a ≡ some (m, some p, vars)
    → (a.0 ≡ m) × (a.1 ≡ some p)
found_parts (k, o, v) m p vars e = (cc e, cc e)

-- An equation holds exactly where the polynomial's residue is 0.
pub signed_poly-equation :
    (env : Env) (l r : Node) (m : ℕ) (p : Poly) (vars : List String)
    → 2 ≤ m
    → signed_poly l r ≡ some (m, some p, vars)
    → lift2 same_int (value env l) (value env r) ≡ some (residue m (poly_value env p) == 0)
unfolding signed_poly
signed_poly-equation env l r m p vars two e = elim (Option-cases (mod_of l)) [
  | inl none1 ↦ elim (Option-cases (mod_of r)) [
    | inl none2 ↦ absurd (cc (rw (none1, none2, signed_poly) at e))
    | inr ((b, k), right) ↦
        let (same, made) =
          found_parts (k, minus_constant b (below k (const_int l)), vars_of b []) m p vars
            (rw (none1, right, signed_poly) at e) in
        let (n, c, eb, el, equation) =
          literal_values env r l b m p two (rw same at right) (rw same at made) in
        let flipped : (c == n) ≡ (n == c) = ground arith in
        rw (el, eb) (ap some (flipped ∙ equation))
  ]
  | inr ((a, k), left) ↦ elim (Option-cases (mod_of r)) [
    | inl none2 ↦
        let (same, made) =
          found_parts (k, minus_constant a (below k (const_int r)), vars_of a []) m p vars
            (rw (left, none2, signed_poly) at e) in
        let (n, c, ea, er, equation) =
          literal_values env l r a m p two (rw same at left) (rw same at made) in
        rw (ea, er) (ap some equation)
    | inr ((b, j), right) ↦ elim (Bool-cases (k == j)) [
      | inr differ ↦ absurd (cc (rw (left, right, differ, signed_poly) at e))
      | inl equal_moduli ↦
          let (same, made) =
            found_parts
              (
                k,
                both (λ p q. some (add p (neg q))) (expand a) (expand b),
                vars_of b (vars_of a []),
              )
              m p vars (rw (left, right, equal_moduli, signed_poly) at e) in
          let other : j ≡ m = ground arith in
          mods_equation env l r m p two a b (rw same at left) (rw other at right) made
    ]
  ]
]
