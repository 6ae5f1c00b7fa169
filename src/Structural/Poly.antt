-- ===== src/Structural/Poly.antt =====
-- The polynomials of leibniz/structural.py: a dictionary from monomials to coefficients, a monomial being
-- the pairs of a variable and its exponent, sorted by name.
use Prim.Native.Nat.{Ordering}
use Prim.Native.String.{compare}
use leibniz_daemon.Common.{
  ℕ, ◌+◌, ◌==◌, String, Bool, true, false, ◌&&◌, Option, none, some, List, [], ◌∷◌, ltb,
  if◌then◌else◌, str_eq,
}
use leibniz_daemon.Structural.Integer.{ℤ, pos, ◌+ℤ◌, ◌*ℤ◌, neg_ℤ}

abbrev pub Mono : Type 0
Mono = List (String × ℕ)

abbrev pub Poly : Type 0
Poly = List (Mono × ℤ)

abbrev pub max_degree : ℕ
max_degree = 64

-- `_mono_degree`
abbrev pub degree : Mono → ℕ
degree [] = 0
degree ((x, e) ∷ mono) = e + degree mono

-- `exps[name] = exps.get(name, 0) + e`
unfoldable pub bump : String → ℕ → Mono → Mono
bump x e [] = (x, e) ∷ []
bump x e ((y, f) ∷ exps) = if str_eq y x then (y, f + e) ∷ exps else (y, f) ∷ bump x e exps

unfoldable pub bump_all : Mono → Mono → Mono
bump_all [] exps = exps
bump_all ((x, e) ∷ mono) exps = bump_all mono (bump x e exps)

unfoldable pub place : String × ℕ → Mono → Mono
place (x, e) [] = (x, e) ∷ []
place (x, e) ((y, f) ∷ mono) = elim (compare x y) [
  | Ordering.gt ↦ (y, f) ∷ place (x, e) mono
  | _ ↦ (x, e) ∷ (y, f) ∷ mono
]

-- `sorted(exps.items())`; no two names are the same.
unfoldable pub sorted : Mono → Mono
sorted [] = []
sorted (p ∷ mono) = place p (sorted mono)

-- `_mono_mul`
unfoldable pub mono_mul : Mono → Mono → Mono
mono_mul a b = sorted (bump_all b (bump_all a []))

abbrev pub same_mono : Mono → Mono → Bool
same_mono [] [] = true
same_mono ((x, e) ∷ a) ((y, f) ∷ b) = str_eq x y && e == f && same_mono a b
same_mono _ _ = false

-- `out[mono] = out.get(mono, 0) + c`
unfoldable pub add_term : Mono → ℤ → Poly → Poly
add_term mono c [] = (mono, pos 0 +ℤ c) ∷ []
add_term mono c ((n, d) ∷ out) =
    if same_mono n mono then (n, d +ℤ c) ∷ out else (n, d) ∷ add_term mono c out

-- `_add`
unfoldable pub add : Poly → Poly → Poly
add a [] = a
add a ((mono, c) ∷ b) = add (add_term mono c a) b

-- `_neg`
unfoldable pub neg : Poly → Poly
neg [] = []
neg ((mono, c) ∷ a) = (mono, neg_ℤ c) ∷ neg a

-- One row of the double loop of `_mul`; `none` where it raises `_NotPoly`.
unfoldable pub mul_term : Mono → ℤ → Poly → Poly → Option Poly
mul_term m1 c1 [] out = some out
mul_term m1 c1 ((m2, c2) ∷ b) out =
    let rest = mul_term m1 c1 b (add_term (mono_mul m1 m2) (c1 *ℤ c2) out) in
    if ltb max_degree (degree (mono_mul m1 m2)) then none else rest

unfoldable pub mul_from : Poly → Poly → Poly → Option Poly
mul_from [] b out = some out
mul_from ((m1, c1) ∷ a) b out = elim (mul_term m1 c1 b out) [
  | none ↦ none
  | some more ↦ mul_from a b more
]

-- `_mul`
unfoldable pub mul : Poly → Poly → Option Poly
mul a b = mul_from a b []
