-- ===== src/Tests/Structural.antt =====
-- The degenerate claims of leibniz/structural.py on concrete predicates.
use leibniz_daemon.Common.{
  ℕ, Bool, ◌↔◌, arith, String, true, false, ◌≡◌, refl, Option, none, some, List, [], ◌∷◌,
  if◌then◌else◌, str_eq,
}
use leibniz_daemon.Structural.Integer.{pos, pow, residue, diff, ◌+ℤ◌, ◌*ℤ◌, neg_ℤ}
use leibniz_daemon.Structural.Signature.{
  Normal, multivariate, atom_signature, signed_poly, sign, normalize, render, reduced, sorted_terms,
  place_term, is_before,
}
use leibniz_daemon.Structural.Same.{atom_signature-same_truth}
use leibniz_daemon.Structural.Residues.{
  residue_set, residues_over, residues_below, residue_at, total_at, term_at, has_residue,
}
use leibniz_daemon.Structural.Exact.{IsTaken, residue_set-IsTaken_iff}
use leibniz_daemon.Structural.Poly.{
  Poly, bump, bump_all, place, sorted, mono_mul, add_term, add, neg, mul_term, mul_from, mul,
}
use leibniz_daemon.Structural.Value.{Env}
use leibniz_daemon.Structural.Syntax.{
  Node, Relop, minus, constant, name, binop, boolop, negation, comparison, collection, no_nodes,
  nodes, plus, times, modulo, conj, equal, differs, member, const_int, mod_of, is_bool_node,
}
use leibniz_daemon.Structural.Degenerate.{
  expand, reduces_to_constant, minus_constant, atom_poly, atom_is_degenerate, combo_all_degenerate,
  all_degenerate, is_coefficient_degenerate,
}
use leibniz_daemon.Structural.Meaning.{value, among, atom_truth, truth}
use leibniz_daemon.Structural.Members.{all_literals, is_literal_set}
use leibniz_daemon.Structural.Atoms.{HasTruth}
use leibniz_daemon.Structural.Claims.{has_literal_sets, is_coefficient_degenerate-HasTruth}

abbrev var_a : Node
var_a = name "a"

abbrev var_b : Node
var_b = name "b"

-- `(2 * a * b + 1) % 2 == 1 and not (4 * a + 2 * b) % 2 != 0`
abbrev vacuous_text : String
vacuous_text = "(2 * a * b + 1) % 2 == 1 and not (4 * a + 2 * b) % 2 != 0"

abbrev odd_atom : Node
odd_atom =
    comparison equal
      (binop modulo (binop plus (binop times (binop times (constant 2) var_a) var_b) (constant 1))
        (constant 2))
      (constant 1)

abbrev even_atom : Node
even_atom =
    comparison differs
      (binop modulo (binop plus (binop times (constant 4) var_a) (binop times (constant 2) var_b))
        (constant 2))
      (constant 0)

abbrev vacuous_tree : Node
vacuous_tree = boolop conj (nodes odd_atom (nodes (negation even_atom) no_nodes))

abbrev parse_vacuous : String → Option Node
parse_vacuous s = if str_eq s vacuous_text then some vacuous_tree else none

is_coefficient_degenerate-HasTruth_example : HasTruth (λ env. truth env vacuous_tree)
unfolding combo_all_degenerate all_degenerate atom_is_degenerate atom_poly mod_of const_int
    minus_constant expand reduces_to_constant is_bool_node mul mul_from mul_term mono_mul sorted
    place bump_all bump add add_term neg residue ◌+ℤ◌ ◌*ℤ◌ neg_ℤ diff is_literal_set all_literals
    has_literal_sets is_coefficient_degenerate
is_coefficient_degenerate-HasTruth_example =
    is_coefficient_degenerate-HasTruth parse_vacuous vacuous_text vacuous_tree refl refl refl

-- `(a * a + a) % 2 == 0` carries a coefficient that the modulus does not divide.
abbrev parity_tree : Node
parity_tree =
    comparison equal (binop modulo (binop plus (binop times var_a var_a) var_a) (constant 2))
      (constant 0)

parity_kept : combo_all_degenerate parity_tree ≡ some false
unfolding combo_all_degenerate all_degenerate atom_is_degenerate atom_poly mod_of const_int
    minus_constant expand reduces_to_constant is_bool_node mul mul_from mul_term mono_mul sorted
    place bump_all bump add add_term neg residue ◌+ℤ◌ ◌*ℤ◌ neg_ℤ diff
parity_kept = refl

-- `(2 * a) % 2 in {a}` is flagged, and its truth depends on `a`.
abbrev variable_set : Node
variable_set =
    comparison member (binop modulo (binop times (constant 2) var_a) (constant 2))
      (collection (nodes var_a no_nodes))

variable_set_flagged : combo_all_degenerate variable_set ≡ some true
unfolding combo_all_degenerate all_degenerate atom_is_degenerate atom_poly mod_of const_int
    minus_constant expand reduces_to_constant is_bool_node mul mul_from mul_term mono_mul sorted
    place bump_all bump add add_term neg residue ◌+ℤ◌ ◌*ℤ◌ neg_ℤ diff
variable_set_flagged = refl

variable_set-true : truth (λ x. pos 0) variable_set ≡ some true
unfolding truth atom_truth value among mod_of const_int is_bool_node residue ◌*ℤ◌ diff
variable_set-true = refl

variable_set-false : truth (λ x. pos 1) variable_set ≡ some false
unfolding truth atom_truth value among mod_of const_int is_bool_node residue ◌*ℤ◌ diff
variable_set-false = refl

-- The squares are 0 and 1 modulo 4.
abbrev square : Poly
square = (("a", 2) ∷ [], pos 1) ∷ []

abbrev square_residues : List ℕ
square_residues = 1 ∷ 0 ∷ []

residue_set-IsTaken_iff_example : (has_residue square_residues 2 ≡ true) ↔ IsTaken square 4 2
unfolding residue_set residues_over residues_below residue_at total_at term_at pow residue ◌+ℤ◌ ◌*ℤ◌
    diff
residue_set-IsTaken_iff_example =
    residue_set-IsTaken_iff square 4 square_residues 2 (omega arith) refl

-- `(a * a + b) % 3 == 2` and `(b + 4 * a * a - 1) % 3 == 1`
abbrev first_atom : Node
first_atom = binop modulo (binop plus (binop times var_a var_a) var_b) (constant 3)

abbrev second_atom : Node
second_atom =
    binop modulo
      (binop minus (binop plus var_b (binop times (binop times (constant 4) var_a) var_a))
        (constant 1))
      (constant 3)

abbrev shared_signature : Relop × ℕ × Normal
shared_signature = (equal, 3, multivariate (([], 1) ∷ (("a", 2) ∷ [], 1) ∷ (("b", 1) ∷ [], 1) ∷ []))

abbrev at_two : Env
at_two x = pos 2

atom_signature-same_truth_example :
    (b : Bool) × (atom_truth at_two equal first_atom (constant 2) ≡ some b)
    × (atom_truth at_two equal second_atom (constant 1) ≡ some b)
unfolding atom_signature signed_poly sign normalize render reduced sorted_terms place_term is_before
    mod_of const_int minus_constant expand mul mul_from mul_term mono_mul sorted place bump_all bump
    add add_term neg residue ◌+ℤ◌ ◌*ℤ◌ neg_ℤ diff
atom_signature-same_truth_example =
    atom_signature-same_truth at_two equal equal first_atom (constant 2) second_atom (constant 1)
      shared_signature refl refl
