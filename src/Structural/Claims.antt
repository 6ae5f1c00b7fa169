-- ===== src/Structural/Claims.antt =====
-- `_combo_all_degenerate` and `is_coefficient_degenerate` against the truth of the claim.
use leibniz_daemon.Common.{
  String, Bool, true, not, ◌&&◌, ◌≡◌, refl, ap, ◌∙◌, inl, inr, Option, none, some, Option-cases,
  Bool-cases, str_eq, arith,
}
use leibniz_daemon.Structural.Value.{Env}
use leibniz_daemon.Structural.Syntax.{
  Node, Nodes, Relop, constant, name, usub, binop, boolop, negation, comparison, collection, other,
  no_nodes, nodes, equal, differs, member, not_member, Connective,
}
use leibniz_daemon.Structural.Degenerate.{
  atom_poly, atom_is_degenerate, both_hold, is_biconditional, combo_all_degenerate, all_degenerate,
  is_true, is_coefficient_degenerate,
}
use leibniz_daemon.Structural.Meaning.{
  value, lift1, lift2, atom_truth, bool_relation, connect, unit_of, truth, truth_of_all,
}
use leibniz_daemon.Structural.Atoms.{HasTruth}
use leibniz_daemon.Structural.Vacuous.{equation_vacuous}
use leibniz_daemon.Structural.Members.{
  is_literal_set, lift1-HasTruth, member_vacuous, not_differs, not_member_lem,
}

-- Every set that a membership names has literal elements only.
unfoldable mutual
  pub has_literal_sets : Node → Bool
  has_literal_sets (boolop c ns) = all_have_literal_sets ns
  has_literal_sets (negation n) = has_literal_sets n
  has_literal_sets (comparison member l r) = is_literal_set r
  has_literal_sets (comparison not_member l r) = is_literal_set r
  has_literal_sets (comparison equal l r) = has_literal_sets l && has_literal_sets r
  has_literal_sets (comparison differs l r) = has_literal_sets l && has_literal_sets r
  has_literal_sets _ = true

  pub all_have_literal_sets : Nodes → Bool
  all_have_literal_sets no_nodes = true
  all_have_literal_sets (nodes n ns) = has_literal_sets n && all_have_literal_sets ns

both_hold_parts :
    (a b : Option Bool) → both_hold a b ≡ some true → (a ≡ some true) × (b ≡ some true)
both_hold_parts none b e = cc e
both_hold_parts (some a) none e = cc e
both_hold_parts (some a) (some b) e = ground arith

lift2-HasTruth :
    (op : Bool → Bool → Bool) (f g : Env → Option Bool)
    → HasTruth f
    → HasTruth g
    → HasTruth (λ env. lift2 op (f env) (g env))
lift2-HasTruth op f g (a, e) (b, d) = (op a b, λ env. rw (e env, d env) refl)

equal_vacuous :
    (l r : Node)
    → atom_is_degenerate equal l r ≡ some true
    → HasTruth (λ env. atom_truth env equal l r)
unfolding atom_truth atom_is_degenerate
equal_vacuous l r h = elim (Option-cases (atom_poly l r)) [
  | inl none1 ↦ absurd (cc (rw (none1, atom_is_degenerate) at h))
  | inr (a, made) ↦ equation_vacuous l r a made (rw (made, atom_is_degenerate) at h)
]

atom_vacuous :
    (rel : Relop) (l r : Node)
    → has_literal_sets (comparison rel l r) ≡ true
    → atom_is_degenerate rel l r ≡ some true
    → HasTruth (λ env. atom_truth env rel l r)
unfolding atom_is_degenerate has_literal_sets atom_truth
atom_vacuous equal l r literals h = equal_vacuous l r h
atom_vacuous differs l r literals h =
    let (b, e) = equal_vacuous l r h in
    (not b, λ env. not_differs (value env l) (value env r) ∙ ap (lift1 not) (e env))
atom_vacuous member l r literals h = member_vacuous l r literals h
atom_vacuous not_member l r literals h =
    let (b, e) = member_vacuous l r literals h in
    (not b, λ env. not_member_lem env l r ∙ ap (lift1 not) (e env))

biconditional_parts :
    (rel : Relop) (l r : Node)
    → has_literal_sets (comparison rel l r) ≡ true
    → is_biconditional rel l r ≡ true
    → (has_literal_sets l ≡ true) × (has_literal_sets r ≡ true)
unfolding has_literal_sets
biconditional_parts equal l r literals h = ground arith
biconditional_parts differs l r literals h = ground arith
biconditional_parts member l r literals h = cc h
biconditional_parts not_member l r literals h = cc h

mutual
  unfolding has_literal_sets all_have_literal_sets combo_all_degenerate all_degenerate truth
      truth_of_all

  -- The truth value of a claim, whatever the integers.
  combo_vacuous :
      (n : Node)
      → has_literal_sets n ≡ true
      → combo_all_degenerate n ≡ some true
      → HasTruth (λ env. truth env n)
  combo_vacuous (boolop c ns) literals h = all_vacuous c ns literals h
  combo_vacuous (negation n) literals h =
      lift1-HasTruth (λ env. truth env n) (combo_vacuous n literals h)
  combo_vacuous (comparison rel l r) literals h = elim (Bool-cases (is_biconditional rel l r)) [
    | inl biconditional ↦
        let (left, right) = biconditional_parts rel l r literals biconditional in
        let (p, q) =
          both_hold_parts (combo_all_degenerate l) (combo_all_degenerate r)
            (rw biconditional at h) in
        let (b, e) =
          lift2-HasTruth (bool_relation rel) (λ env. truth env l) (λ env. truth env r)
            (combo_vacuous l left p) (combo_vacuous r right q) in
        (b, λ env. rw biconditional (e env))
    | inr atom ↦
        let (b, e) = atom_vacuous rel l r literals (rw atom at h) in (b, λ env. rw atom (e env))
  ]
  combo_vacuous (constant n) literals h = cc h
  combo_vacuous (name x) literals h = cc h
  combo_vacuous (usub n) literals h = cc h
  combo_vacuous (binop op l r) literals h = cc h
  combo_vacuous (collection ns) literals h = cc h
  combo_vacuous other literals h = cc h

  all_vacuous :
      (c : Connective) (ns : Nodes)
      → all_have_literal_sets ns ≡ true
      → all_degenerate ns ≡ some true
      → HasTruth (λ env. truth_of_all env c ns)
  all_vacuous c no_nodes literals h = (unit_of c, λ env. refl)
  all_vacuous c (nodes n ns) literals h =
      let (first, rest) = both_hold_parts (combo_all_degenerate n) (all_degenerate ns) h in
      lift2-HasTruth (connect c) (λ env. truth env n) (λ env. truth_of_all env c ns)
        (combo_vacuous n (ground arith) first) (all_vacuous c ns (ground arith) rest)

is_true_lem : (o : Option Bool) → is_true o ≡ true → o ≡ some true
is_true_lem none e = cc e
is_true_lem (some b) e = ap some e

-- A predicate that is flagged, each of whose sets has literal elements, has one truth value for
-- all integers that its variables stand for.
pub is_coefficient_degenerate-HasTruth :
    (parse : String → Option Node) (predicate : String) (tree : Node)
    → parse predicate ≡ some tree
    → has_literal_sets tree ≡ true
    → is_coefficient_degenerate parse (some predicate) ≡ true
    → HasTruth (λ env. truth env tree)
unfolding is_coefficient_degenerate
is_coefficient_degenerate-HasTruth parse predicate tree parsed literals h =
    elim (Bool-cases (str_eq predicate "")) [
      | inl empty ↦ absurd (cc (rw (empty, is_coefficient_degenerate) at h))
      | inr written ↦ combo_vacuous tree literals (
          is_true_lem (combo_all_degenerate tree)
            (rw (written, parsed, is_coefficient_degenerate) at h))
    ]
