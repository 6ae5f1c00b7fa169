-- ===== src/Structural/Same.antt =====
-- Atoms with one multivariate signature say the same of the integers.
use leibniz_daemon.Common.{
  ℕ, ◌≤◌, ◌==◌, ltb, String, Bool, false, not, ◌≡◌, sym, ap, ◌∙◌, inl, inr, Option, none, some,
  List, arith, Bool-cases, Option-cases,
}
use leibniz_daemon.Structural.Integer.{residue}
use leibniz_daemon.Structural.Poly.{Poly}
use leibniz_daemon.Structural.Value.{Env}
use leibniz_daemon.Structural.Syntax.{Node, Relop, equal, differs, member, not_member}
use leibniz_daemon.Structural.Meaning.{value, lift1, lift2, same_int, atom_truth}
use leibniz_daemon.Structural.Members.{not_differs}
use leibniz_daemon.Structural.Signature.{Normal, signed_poly, sign, atom_signature, normalize}
use leibniz_daemon.Structural.Equation.{signed_poly-equation}
use leibniz_daemon.Structural.Normalized.{normal_value, normalize_lem}

-- What a signature says of the integers, where it is not univariate
abbrev holds_at : Env → Relop → ℕ → Normal → Bool
holds_at env differs m n = not (residue m (normal_value env n) == 0)
holds_at env _ m n = residue m (normal_value env n) == 0

signature_parts :
    (a : Relop × ℕ × Normal) (rel : Relop) (m : ℕ) (n : Normal)
    → some a ≡ some (rel, m, n)
    → (a.0 ≡ rel) × (a.1 ≡ m) × (a.2 ≡ n)
signature_parts (r, k, o) rel m n e = (cc e, cc e, cc e)

sign_parts :
    (rel rel2 : Relop) (a : ℕ × Option Poly × List String) (m : ℕ) (n : Normal)
    → sign rel (some false) a ≡ some (rel2, m, n)
    → (p : Poly) × (2 ≤ m) × (rel ≡ rel2) × (a ≡ (m, some p, a.2)) × (normalize p m false ≡ some n)
unfolding sign
sign_parts rel rel2 (k, none, vars) m n e = cc e
sign_parts rel rel2 (k, some p, vars) m n e = elim (Bool-cases (ltb k 2)) [
  | inl small ↦ absurd (cc (rw (small, sign) at e))
  | inr large ↦ elim (Option-cases (normalize p k false)) [
    | inl none1 ↦ absurd (cc (rw (large, none1, sign) at e))
    | inr (o, normal) ↦
        let (relops, moduli, forms) =
          signature_parts (rel, k, o) rel2 m n (rw (large, normal, sign) at e) in
        let two : 2 ≤ m = ground arith in
        (
          p,
          two,
          relops,
          ap (λ x. (x, some p, vars)) moduli,
          ap (λ x. normalize p x false) (sym moduli) ∙ normal ∙ ap some forms,
        )
  ]
]

sign_truth :
    (env : Env) (l r : Node) (rel rel2 : Relop) (a : ℕ × Option Poly × List String) (m : ℕ)
    (n : Normal)
    → signed_poly l r ≡ some a
    → sign rel (some false) a ≡ some (rel2, m, n)
    → (rel ≡ rel2)
      × (lift2 same_int (value env l) (value env r) ≡ some (residue m (normal_value env n) == 0))
sign_truth env l r rel rel2 a m n found e =
    let (p, two, relops, same, normal) = sign_parts rel rel2 a m n e in
    (
      relops,
      signed_poly-equation env l r m p a.2 two (found ∙ ap some same)
          ∙ ap (λ k. some (k == 0)) (normalize_lem env p m n (omega (arith, two)) normal),
    )

-- The truth of an atom is what its signature says.
atom_signature_truth :
    (env : Env) (rel rel2 : Relop) (l r : Node) (m : ℕ) (n : Normal)
    → atom_signature (some false) rel l r ≡ some (rel2, m, n)
    → atom_truth env rel l r ≡ some (holds_at env rel2 m n)
unfolding atom_signature atom_truth
atom_signature_truth env equal rel2 l r m n e = elim (Option-cases (signed_poly l r)) [
  | inl none1 ↦ absurd (cc (rw (none1, atom_signature) at e))
  | inr (a, found) ↦
      let (relops, h) =
        sign_truth env l r equal rel2 a m n found (rw (found, atom_signature) at e) in
      h ∙ ap (λ x. some (holds_at env x m n)) relops
]
atom_signature_truth env differs rel2 l r m n e = elim (Option-cases (signed_poly l r)) [
  | inl none1 ↦ absurd (cc (rw (none1, atom_signature) at e))
  | inr (a, found) ↦
      let (relops, h) =
        sign_truth env l r differs rel2 a m n found (rw (found, atom_signature) at e) in
      not_differs (value env l) (value env r)
      ∙ ap (lift1 not) h
      ∙ ap (λ x. some (holds_at env x m n)) relops
]
atom_signature_truth env member rel2 l r m n e = cc e
atom_signature_truth env not_member rel2 l r m n e = cc e

-- Two atoms that have one signature as claims of several variables have, for all integers that
-- their variables stand for, one truth value.
pub atom_signature-same_truth :
    (env : Env) (rel1 rel2 : Relop) (l1 r1 l2 r2 : Node) (s : Relop × ℕ × Normal)
    → atom_signature (some false) rel1 l1 r1 ≡ some s
    → atom_signature (some false) rel2 l2 r2 ≡ some s
    → (b : Bool) × (atom_truth env rel1 l1 r1 ≡ some b) × (atom_truth env rel2 l2 r2 ≡ some b)
atom_signature-same_truth env rel1 rel2 l1 r1 l2 r2 (rel, m, n) e f = (
  holds_at env rel m n,
  atom_signature_truth env rel1 rel l1 r1 m n e,
  atom_signature_truth env rel2 rel l2 r2 m n f,
)
