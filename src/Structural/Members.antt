-- ===== src/Structural/Members.antt =====
-- A membership in a set of literals, and every atom that `_atom_is_degenerate` accepts.
use leibniz_daemon.Common.{
  ℕ, leb, Bool, true, false, not, ◌||◌, ◌≡◌, refl, ap, ◌∙◌, inl, inr, Option, none, some, arith,
  Option-cases, Bool-cases,
}
use leibniz_daemon.Structural.Integer.{ℤ, pos, residue}
use leibniz_daemon.Structural.Residue.{residue-+ℤ_multiple}
use leibniz_daemon.Structural.Value.{Env}
use leibniz_daemon.Structural.Syntax.{
  Node, Nodes, constant, name, usub, binop, boolop, negation, comparison, collection, other,
  no_nodes, nodes, member, not_member, mod_of,
}
use leibniz_daemon.Structural.Degenerate.{expand, member_reduces, atom_is_degenerate}
use leibniz_daemon.Structural.Meaning.{value, lift1, lift2, same_int, among, atom_truth}
use leibniz_daemon.Structural.Expansion.{constant_part, reduced-value}
use leibniz_daemon.Structural.Atoms.{modulo_of_poly, reduces_parts, HasTruth}

-- Every element is a literal.
unfoldable pub all_literals : Nodes → Bool
all_literals no_nodes = true
all_literals (nodes (constant n) ns) = all_literals ns
all_literals (nodes _ ns) = false

unfoldable pub is_literal_set : Node → Bool
is_literal_set (collection ns) = all_literals ns
is_literal_set _ = false

among_literals : (v : ℤ) (ns : Nodes) → all_literals ns ≡ true → HasTruth (λ env. among env v ns)
unfolding all_literals among value
among_literals v no_nodes h = (false, λ env. refl)
among_literals v (nodes (constant n) ns) h =
    let (b, e) = among_literals v ns h in (same_int v (pos n) || b, λ env. rw (e env) refl)
among_literals v (nodes (name x) ns) h = cc h
among_literals v (nodes (usub n) ns) h = cc h
among_literals v (nodes (binop op l r) ns) h = cc h
among_literals v (nodes (boolop c ms) ns) h = cc h
among_literals v (nodes (negation n) ns) h = cc h
among_literals v (nodes (comparison rel l r) ns) h = cc h
among_literals v (nodes (collection ms) ns) h = cc h
among_literals v (nodes other ns) h = cc h

-- The left side has one value.
constant_left :
    (l : Node) (a : Node × ℕ)
    → mod_of l ≡ some a
    → member_reduces a ≡ some true
    → (k : ℕ) × ((env : Env) → value env l ≡ some (pos k))
constant_left l (p, m) left h = elim (Bool-cases (leb 2 m)) [
  | inr small ↦ absurd (cc (rw small at h))
  | inl large ↦
      let (two, (x, made, reduced)) = reduces_parts m (expand p) (rw large at h) in
      (
        residue m (constant_part x),
        λ env.
            let (w, e) = reduced-value env m (omega (arith, two)) x reduced in
            modulo_of_poly env l p m x two left made
            ∙ ap (λ v. some (pos (residue m v))) e
            ∙ ap (λ n. some (pos n))
                (residue-+ℤ_multiple m (constant_part x) w (omega (arith, two))),
      )
]

pub lift1-HasTruth : (f : Env → Option Bool) → HasTruth f → HasTruth (λ env. lift1 not (f env))
lift1-HasTruth f (b, e) = (not b, λ env. rw (e env) refl)

pub member_vacuous :
    (l r : Node)
    → is_literal_set r ≡ true
    → atom_is_degenerate member l r ≡ some true
    → HasTruth (λ env. atom_truth env member l r)
unfolding is_literal_set atom_truth atom_is_degenerate
member_vacuous l (collection ns) literals h = elim (Option-cases (mod_of l)) [
  | inl none1 ↦ absurd (cc (rw (none1, atom_is_degenerate) at h))
  | inr (a, left) ↦
      let (k, same) = constant_left l a left (rw (left, atom_is_degenerate) at h) in
      let (b, e) = among_literals (pos k) ns literals in (b, λ env. rw (same env) (e env))
]
member_vacuous l (constant n) literals h = cc literals
member_vacuous l (name x) literals h = cc literals
member_vacuous l (usub n) literals h = cc literals
member_vacuous l (binop op p q) literals h = cc literals
member_vacuous l (boolop c ms) literals h = cc literals
member_vacuous l (negation n) literals h = cc literals
member_vacuous l (comparison rel p q) literals h = cc literals
member_vacuous l other literals h = cc literals

pub not_differs :
    (x y : Option ℤ) → lift2 (λ x y. not (same_int x y)) x y ≡ lift1 not (lift2 same_int x y)
not_differs none y = refl
not_differs (some x) none = refl
not_differs (some x) (some y) = refl

pub not_member_lem :
    (env : Env) (l r : Node) → atom_truth env not_member l r ≡ lift1 not (atom_truth env member l r)
unfolding atom_truth
not_member_lem env l (collection ns) = refl
not_member_lem env l (constant n) = refl
not_member_lem env l (name x) = refl
not_member_lem env l (usub n) = refl
not_member_lem env l (binop op p q) = refl
not_member_lem env l (boolop c ms) = refl
not_member_lem env l (negation n) = refl
not_member_lem env l (comparison rel p q) = refl
not_member_lem env l other = refl
