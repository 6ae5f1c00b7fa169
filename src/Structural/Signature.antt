-- ===== src/Structural/Signature.antt =====
-- The signature of one congruence (`_atom_signature`, `_normalize` and `_isprime` of
-- leibniz/structural.py). `none` is Python's None, or a modular inverse that does not exist.
use leibniz_daemon.Common.{
  ℕ, zero, suc, ◌+◌, ◌*◌, ◌%◌, ◌==◌, leb, ltb, String, Bool, true, false, Option, none, some, List,
  [], ◌∷◌, if◌then◌else◌, length,
}
use Prim.Native.Nat.{Ordering}
use Prim.Native.String.{compare}
use leibniz_daemon.Structural.Integer.{residue}
use leibniz_daemon.Structural.Poly.{Mono, Poly, degree, add, neg}
use leibniz_daemon.Structural.Syntax.{
  Node, Relop, name, usub, binop, equal, differs, power, const_int, mod_of,
}
use leibniz_daemon.Structural.Degenerate.{both, expand, minus_constant}
use leibniz_daemon.Structural.Residues.{add_name}

-- `while i * i <= x`; `k` bounds the rounds left.
unfoldable pub prime_from : ℕ → ℕ → ℕ → Bool
prime_from zero i x = true
prime_from (suc k) i x =
    let rest = prime_from k (i + 1) x in
    if leb (i * i) x then (if x % i == 0 then false else rest) else true

-- `_isprime`
unfoldable pub is_prime : ℕ → Bool
is_prime x = if ltb x 2 then false else prime_from x 2 x

-- `{mono: c % m for mono, c in poly.items() if c % m != 0}`
unfoldable pub reduced : Poly → ℕ → List (Mono × ℕ)
reduced [] m = []
reduced ((mono, c) ∷ p) m =
    let rest = reduced p m in if residue m c == 0 then rest else (mono, residue m c) ∷ rest

-- `uni[degree] = c`
unfoldable pub set_degree : ℕ → ℕ → List (ℕ × ℕ) → List (ℕ × ℕ)
set_degree d c [] = (d, c) ∷ []
set_degree d c ((e, b) ∷ uni) = if e == d then (e, c) ∷ uni else (e, b) ∷ set_degree d c uni

unfoldable pub by_degree : List (Mono × ℕ) → List (ℕ × ℕ) → List (ℕ × ℕ)
by_degree [] uni = uni
by_degree ((mono, c) ∷ p) uni = by_degree p (set_degree (degree mono) c uni)

-- `uni[max(uni)]`, from the best so far
unfoldable pub leading : ℕ × ℕ → List (ℕ × ℕ) → ℕ
leading (d, c) [] = c
leading (d, c) ((e, b) ∷ uni) =
    let higher = leading (e, b) uni in
    let same = leading (d, c) uni in if ltb d e then higher else same

-- `pow(a, -1, m)`: the inverse among the numbers below `k`
unfoldable pub inverse_below : ℕ → ℕ → ℕ → Option ℕ
inverse_below zero a m = none
inverse_below (suc k) a m =
    let lower = inverse_below k a m in if (a * k) % m == 1 % m then some k else lower

unfoldable pub scale : ℕ → ℕ → List (ℕ × ℕ) → List (ℕ × ℕ)
scale inv m [] = []
scale inv m ((e, c) ∷ uni) = (e, (c * inv) % m) ∷ scale inv m uni

unfoldable pub monic : ℕ → List (ℕ × ℕ) → Option (List (ℕ × ℕ))
monic m [] = none
monic m (first ∷ uni) = elim (inverse_below m (leading first uni) m) [
  | none ↦ none
  | some inv ↦ some (scale inv m (first ∷ uni))
]

-- `sorted(uni.items())`; no two degrees are the same.
unfoldable pub place_degree : ℕ × ℕ → List (ℕ × ℕ) → List (ℕ × ℕ)
place_degree (d, c) [] = (d, c) ∷ []
place_degree (d, c) ((e, b) ∷ uni) =
    if ltb e d then (e, b) ∷ place_degree (d, c) uni else (d, c) ∷ (e, b) ∷ uni

unfoldable pub sorted_degrees : List (ℕ × ℕ) → List (ℕ × ℕ)
sorted_degrees [] = []
sorted_degrees (p ∷ uni) = place_degree p (sorted_degrees uni)

-- The order of tuples of pairs
unfoldable pub is_before : Mono → Mono → Bool
is_before [] b = true
is_before (p ∷ a) [] = false
is_before ((x, e) ∷ a) ((y, f) ∷ b) =
    let rest = is_before a b in
    elim (compare x y) [
      | Ordering.lt ↦ true
      | Ordering.eq ↦ if e == f then rest else ltb e f
      | Ordering.gt ↦ false
    ]

-- `sorted(poly.items())`; no two monomials are the same.
unfoldable pub place_term : Mono × ℕ → List (Mono × ℕ) → List (Mono × ℕ)
place_term (a, c) [] = (a, c) ∷ []
place_term (a, c) ((b, d) ∷ terms) =
    if is_before a b then (a, c) ∷ (b, d) ∷ terms else (b, d) ∷ place_term (a, c) terms

unfoldable pub sorted_terms : List (Mono × ℕ) → List (Mono × ℕ)
sorted_terms [] = []
sorted_terms (t ∷ terms) = place_term t (sorted_terms terms)

pub data Normal : Type 0 where
  vanishing : Normal
  univariate : List (ℕ × ℕ) → Normal
  multivariate : List (Mono × ℕ) → Normal

abbrev pub render_univariate : Option (List (ℕ × ℕ)) → Option Normal
render_univariate none = none
render_univariate (some uni) = some (univariate (sorted_degrees uni))

unfoldable pub render : List (Mono × ℕ) → ℕ → Bool → Option Normal
render [] m single_var = some vanishing
render (t ∷ terms) m true =
    let uni = by_degree (t ∷ terms) [] in
    render_univariate (if is_prime m then monic m uni else some uni)
render (t ∷ terms) m false = some (multivariate (sorted_terms (t ∷ terms)))

-- `_normalize`
unfoldable pub normalize : Poly → ℕ → Bool → Option Normal
normalize p m single_var = render (reduced p m) m single_var

-- `state["vars"]` after `_expand`
unfoldable pub vars_of : Node → List String → List String
vars_of (name x) seen = add_name x seen
vars_of (usub n) seen = vars_of n seen
vars_of (binop power l r) seen = vars_of l seen
vars_of (binop op l r) seen = vars_of r (vars_of l seen)
vars_of _ seen = seen

-- A literal on the other side is below the modulus.
abbrev pub below : ℕ → Option ℕ → Option ℕ
below m none = none
below m (some c) = if ltb c m then some c else none

-- The modulus, the polynomial and its variables.
unfoldable pub signed_poly : Node → Node → Option (ℕ × Option Poly × List String)
signed_poly l r = elim (mod_of l) [
  | some a ↦ elim (mod_of r) [
    | some b ↦
        if a.1 == b.1
        then some (
          a.1,
          both (λ p q. some (add p (neg q))) (expand a.0) (expand b.0),
          vars_of b.0 (vars_of a.0 []),
        )
        else none
    | none ↦ some (a.1, minus_constant a.0 (below a.1 (const_int r)), vars_of a.0 [])
  ]
  | none ↦ elim (mod_of r) [
    | some b ↦ some (b.1, minus_constant b.0 (below b.1 (const_int l)), vars_of b.0 [])
    | none ↦ none
  ]
]

abbrev pub is_single : Option Bool → List String → Bool
is_single none vars = leb (length vars) 1
is_single (some b) vars = b

abbrev pub with_relop : Relop → ℕ → Option Normal → Option (Relop × ℕ × Normal)
with_relop rel m none = none
with_relop rel m (some n) = some (rel, m, n)

unfoldable pub sign :
    Relop → Option Bool → ℕ × Option Poly × List String → Option (Relop × ℕ × Normal)
sign rel single (m, none, vars) = none
sign rel single (m, some p, vars) =
    if ltb m 2 then none else with_relop rel m (normalize p m (is_single single vars))

-- `_atom_signature`, of a comparison
unfoldable pub atom_signature : Option Bool → Relop → Node → Node → Option (Relop × ℕ × Normal)
atom_signature single equal l r = elim (signed_poly l r) [
  | none ↦ none
  | some a ↦ sign equal single a
]
atom_signature single differs l r = elim (signed_poly l r) [
  | none ↦ none
  | some a ↦ sign differs single a
]
atom_signature single _ l r = none
