-- ===== src/Structural/Residues.antt =====
-- `_residue_set` of leibniz/structural.py: the residues that a polynomial in one variable takes,
-- by one full period. Its callers pass a modulus of at least 2.
use leibniz_daemon.Common.{
  ℕ, zero, suc, ◌+◌, ◌==◌, ltb, String, Bool, false, ◌||◌, Option, none, some, List, [], ◌∷◌,
  if◌then◌else◌, contains,
}
use leibniz_daemon.Structural.Integer.{ℤ, pos, ◌+ℤ◌, ◌*ℤ◌, pow, residue}
use leibniz_daemon.Structural.Poly.{Mono, Poly}

abbrev pub residue_bound : ℕ
residue_bound = 64

-- A set of names
abbrev pub add_name : String → List String → List String
add_name x names = if contains names x then names else x ∷ names

abbrev pub add_names : Mono → List String → List String
add_names [] names = names
add_names ((x, e) ∷ mono) names = add_name x (add_names mono names)

-- `{name for mono in poly for name, _ in mono}`
abbrev pub names_of : Poly → List String
names_of [] = []
names_of ((mono, c) ∷ p) = add_names mono (names_of p)

-- `for _, e in mono: term *= n ** e`
unfoldable pub term_at : ℤ → Mono → ℤ → ℤ
term_at n [] term = term
term_at n ((x, e) ∷ mono) term = term_at n mono (term *ℤ pow n e)

-- `for mono, c in poly.items(): ...; total += term`
unfoldable pub total_at : ℤ → Poly → ℤ → ℤ
total_at n [] total = total
total_at n ((mono, c) ∷ p) total = total_at n p (total +ℤ term_at n mono c)

-- `_eval`
unfoldable pub residue_at : Poly → ℕ → ℕ → ℕ
residue_at p m n = residue m (total_at (pos n) p (pos 0))

abbrev pub has_residue : List ℕ → ℕ → Bool
has_residue [] r = false
has_residue (x ∷ xs) r = x == r || has_residue xs r

abbrev pub add_residue : ℕ → List ℕ → List ℕ
add_residue r rs = if has_residue rs r then rs else r ∷ rs

-- `frozenset(_eval(n) for n in range(k))`
unfoldable pub residues_below : Poly → ℕ → ℕ → List ℕ
residues_below p m zero = []
residues_below p m (suc k) = add_residue (residue_at p m k) (residues_below p m k)

unfoldable pub residues_over : List String → Poly → ℕ → Option (List ℕ)
residues_over [] p m = some (add_residue (residue_at p m 0) [])
residues_over (x ∷ []) p m = some (residues_below p m m)
residues_over _ p m = none

-- `_residue_set`
unfoldable pub residue_set : Poly → ℕ → Option (List ℕ)
residue_set p m = if ltb (residue_bound + 1) m then none else residues_over (names_of p) p m
