-- ===== src/Structural/Vacuous.antt =====
-- An equation or a membership whose polynomial reduces has one truth value for all integers.
use leibniz_daemon.Common.{
  ℕ, ◌==◌, true, ◌≡◌, refl, ap, ◌∙◌, inl, inr, Option, none, some, [], ◌∷◌, arith, Option-cases,
  Bool-cases,
}
use leibniz_daemon.Structural.Integer.{pos, neg_ℤ, ◌+ℤ◌, residue}
use leibniz_daemon.Structural.Poly.{Poly, add, neg}
use leibniz_daemon.Structural.Value.{Env}
use leibniz_daemon.Structural.Syntax.{Node, const_int, mod_of}
use leibniz_daemon.Structural.Degenerate.{both, expand, minus_constant, atom_poly, reduces}
use leibniz_daemon.Structural.Meaning.{value, lift2, same_int}
use leibniz_daemon.Structural.Expansion.{both_parts, constant_part}
use leibniz_daemon.Structural.Atoms.{
  const_int-value, modulo_of_poly, two_residues, one_residue, reduces_parts, HasTruth,
}

both_mods :
    (l r p q : Node) (m : ℕ)
    → mod_of l ≡ some (p, m)
    → mod_of r ≡ some (q, m)
    → reduces (m, both (λ p q. some (add p (neg q))) (expand p) (expand q)) ≡ some true
    → HasTruth (λ env. lift2 same_int (value env l) (value env r))
both_mods l r p q m left right h =
    let (two, (x, made, reduced)) =
      reduces_parts m (both (λ p q. some (add p (neg q))) (expand p) (expand q)) h in
    let (a, b, ea, eb, sum) =
      both_parts (λ p q. some (add p (neg q))) (expand p) (expand q) x made in
    let same : add a (neg b) ≡ x = cc sum in
    (
      residue m (constant_part (add a (neg b))) == 0,
      λ env.
          rw (modulo_of_poly env l p m a two left ea, modulo_of_poly env r q m b two right eb)
            (ap some (two_residues m two env a b (rw same reduced))),
    )

-- Both sides have a value that no variable changes.
abbrev HasValues : Node → Node → Type 0
HasValues l r =
    (k : ℕ) × (c : ℕ) × ((env : Env) → (value env l ≡ some (pos k)) × (value env r ≡ some (pos c)))

pub minus_constant_parts :
    (p : Node) (o : Option ℕ) (x : Poly)
    → minus_constant p o ≡ some x
    → (c : ℕ) × (a : Poly) × (o ≡ some c)
      × (expand p ≡ some a)
      × (add a (([], neg_ℤ (pos c)) ∷ []) ≡ x)
unfolding minus_constant
minus_constant_parts p none x e = cc e
minus_constant_parts p (some c) x e =
    let (a, b, ea, eb, sum) =
      both_parts (λ a b. some (add a b)) (expand p) (some (([], neg_ℤ (pos c)) ∷ [])) x e in
    let literal : (([], neg_ℤ (pos c)) ∷ []) ≡ b = cc eb in
    let same : add a b ≡ x = cc sum in (c, a, refl, ea, ap (add a) literal ∙ same)

mod_and_literal :
    (l r p : Node) (m : ℕ)
    → mod_of l ≡ some (p, m)
    → reduces (m, minus_constant p (const_int r)) ≡ some true
    → HasValues l r
mod_and_literal l r p m left h =
    let (two, (x, made, reduced)) = reduces_parts m (minus_constant p (const_int r)) h in
    let (c, a, literal, ea, same) = minus_constant_parts p (const_int r) x made in
    let k = residue m (pos c +ℤ constant_part (add a (([], neg_ℤ (pos c)) ∷ []))) in
    (
      k,
      c,
      λ env. (
        modulo_of_poly env l p m a two left ea
            ∙ ap (λ n. some (pos n)) (one_residue m two env a c (rw same reduced)),
        const_int-value env r c literal,
      ),
    )

module _ (l r : Node) where
  literal_right : HasValues l r → HasTruth (λ env. lift2 same_int (value env l) (value env r))
  literal_right (k, c, both_values) =
      (k == c, λ env. let (left, right) = both_values env in rw (left, right) refl)

  literal_left : HasValues r l → HasTruth (λ env. lift2 same_int (value env l) (value env r))
  literal_left (k, c, both_values) =
      (c == k, λ env. let (right, left) = both_values env in rw (left, right) refl)

  pub equation_vacuous :
      (a : ℕ × Option Poly)
      → atom_poly l r ≡ some a
      → reduces a ≡ some true
      → HasTruth (λ env. lift2 same_int (value env l) (value env r))
  unfolding atom_poly
  equation_vacuous a made h = elim (Option-cases (mod_of l)) [
    | inl none1 ↦ elim (Option-cases (mod_of r)) [
      | inl none2 ↦ absurd (cc (rw (none1, none2, atom_poly) at made))
      | inr ((q, m), right) ↦
          let same : (m, minus_constant q (const_int l)) ≡ a =
            cc (rw (none1, right, atom_poly) at made) in
          literal_left (mod_and_literal r l q m right (rw same h))
    ]
    | inr ((p, m), left) ↦ elim (Option-cases (mod_of r)) [
      | inl none2 ↦
          let same : (m, minus_constant p (const_int r)) ≡ a =
            cc (rw (left, none2, atom_poly) at made) in
          literal_right (mod_and_literal l r p m left (rw same h))
      | inr ((q, k), right) ↦ elim (Bool-cases (m == k)) [
        | inl equal_moduli ↦
            let same : (m, both (λ p q. some (add p (neg q))) (expand p) (expand q)) ≡ a =
              cc (rw (left, right, equal_moduli, atom_poly) at made) in
            let same_modulus : m ≡ k = ground arith in
            both_mods l r p q m left (rw same_modulus right) (rw same h)
        | inr differ ↦ absurd (cc (rw (left, right, differ, atom_poly) at made))
      ]
    ]
  ]
