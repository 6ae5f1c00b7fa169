-- ===== src/Structural/Degenerate.antt =====
-- `is_coefficient_degenerate` of leibniz/structural.py: a claim each of whose congruence atoms has a
-- polynomial that reduces to a constant. `_NotPoly` is `none`. Parsing, with its size limits
-- (`guard_source`), is an argument.
use leibniz_daemon.Common.{
  ℕ, zero, suc, ◌==◌, String, Bool, true, false, ◌&&◌, Option, none, some, [], ◌∷◌, leb,
  if◌then◌else◌, str_eq,
}
use leibniz_daemon.Structural.Integer.{pos, neg_ℤ, residue}
use leibniz_daemon.Structural.Poly.{Poly, add, neg, mul}
use leibniz_daemon.Structural.Syntax.{
  Node, Nodes, Relop, constant, name, usub, binop, boolop, negation, comparison, no_nodes, nodes,
  plus, minus, times, power, equal, differs, member, not_member, const_int, mod_of, is_bool_node,
}

abbrev pub max_exp : ℕ
max_exp = 8

-- `for _ in range(k): out = _mul(out, base)`
unfoldable pub mul_repeated : ℕ → Poly → Poly → Option Poly
mul_repeated zero base out = some out
mul_repeated (suc k) base out = elim (mul out base) [
  | none ↦ none
  | some next ↦ mul_repeated k base next
]

abbrev pub both : (Poly → Poly → Option Poly) → Option Poly → Option Poly → Option Poly
both f none q = none
both f (some p) none = none
both f (some p) (some q) = f p q

abbrev pub one : Poly
one = ([], pos 1) ∷ []

abbrev pub raise_to : Option ℕ → Option Poly → Option Poly
raise_to none base = none
raise_to (some k) none = none
raise_to (some k) (some base) = if leb k max_exp then mul_repeated k base one else none

abbrev pub negated : Option Poly → Option Poly
negated none = none
negated (some p) = some (neg p)

-- `_expand`
unfoldable pub expand : Node → Option Poly
expand (constant n) = some (([], pos n) ∷ [])
expand (name x) = some (((x, 1) ∷ [], pos 1) ∷ [])
expand (usub n) = negated (expand n)
expand (binop plus l r) = both (λ p q. some (add p q)) (expand l) (expand r)
expand (binop minus l r) = both (λ p q. some (add p (neg q))) (expand l) (expand r)
expand (binop times l r) = both mul (expand l) (expand r)
expand (binop power l r) = raise_to (const_int r) (expand l)
expand _ = none

-- `_reduces_to_constant_mod`
unfoldable pub reduces_to_constant : Poly → ℕ → Bool
reduces_to_constant [] m = true
reduces_to_constant (([], c) ∷ p) m = reduces_to_constant p m
reduces_to_constant ((x ∷ mono, c) ∷ p) m = residue m c == 0 && reduces_to_constant p m

-- `P % m <relop> c`
unfoldable pub minus_constant : Node → Option ℕ → Option Poly
minus_constant p none = none
minus_constant p (some c) =
    both (λ a b. some (add a b)) (expand p) (some (([], neg_ℤ (pos c)) ∷ []))

-- The modulus and the polynomial of an equation or an inequation.
unfoldable pub atom_poly : Node → Node → Option (ℕ × Option Poly)
atom_poly l r = elim (mod_of l) [
  | some a ↦ elim (mod_of r) [
    | some b ↦
        if a.1 == b.1
        then some (a.1, both (λ p q. some (add p (neg q))) (expand a.0) (expand b.0))
        else none
    | none ↦ some (a.1, minus_constant a.0 (const_int r))
  ]
  | none ↦ elim (mod_of r) [ some b ↦ some (b.1, minus_constant b.0 (const_int l)) | none ↦ none ]
]

-- Whether an atom's polynomial reduces, for a modulus of at least 2.
abbrev pub reduces : ℕ × Option Poly → Option Bool
reduces (m, none) = none
reduces (m, some p) = some (leb 2 m && reduces_to_constant p m)

-- `P % m in {...}`: the modulus is tested first.
abbrev pub member_reduces : Node × ℕ → Option Bool
member_reduces (p, m) = if leb 2 m then reduces (m, expand p) else none

-- `_atom_is_degenerate`, of a comparison
unfoldable pub atom_is_degenerate : Relop → Node → Node → Option Bool
atom_is_degenerate equal l r = elim (atom_poly l r) [ none ↦ none | some a ↦ reduces a ]
atom_is_degenerate differs l r = elim (atom_poly l r) [ none ↦ none | some a ↦ reduces a ]
atom_is_degenerate member l r = elim (mod_of l) [ none ↦ none | some a ↦ member_reduces a ]
atom_is_degenerate not_member l r = elim (mod_of l) [ none ↦ none | some a ↦ member_reduces a ]

abbrev pub both_hold : Option Bool → Option Bool → Option Bool
both_hold none b = none
both_hold (some a) none = none
both_hold (some a) (some b) = some (a && b)

-- Both sides of an equation or an inequation are Boolean.
abbrev pub is_biconditional : Relop → Node → Node → Bool
is_biconditional equal l r = is_bool_node l && is_bool_node r
is_biconditional differs l r = is_bool_node l && is_bool_node r
is_biconditional _ l r = false

-- `_combo_all_degenerate`; of a list of operands, whether all are.
unfoldable mutual
  pub combo_all_degenerate : Node → Option Bool
  combo_all_degenerate (boolop c ns) = all_degenerate ns
  combo_all_degenerate (negation n) = combo_all_degenerate n
  combo_all_degenerate (comparison rel l r) =
      let p = combo_all_degenerate l in
      let q = combo_all_degenerate r in
      if is_biconditional rel l r then both_hold p q else atom_is_degenerate rel l r
  combo_all_degenerate _ = none

  pub all_degenerate : Nodes → Option Bool
  all_degenerate no_nodes = some true
  all_degenerate (nodes n ns) = both_hold (combo_all_degenerate n) (all_degenerate ns)

abbrev pub is_true : Option Bool → Bool
is_true none = false
is_true (some b) = b

-- `is_coefficient_degenerate`
unfoldable pub is_coefficient_degenerate : (String → Option Node) → Option String → Bool
is_coefficient_degenerate parse none = false
is_coefficient_degenerate parse (some predicate) =
    if str_eq predicate ""
    then false
    else elim (parse predicate) [ none ↦ false | some tree ↦ is_true (combo_all_degenerate tree) ]
