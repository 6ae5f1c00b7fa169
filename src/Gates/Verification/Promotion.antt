-- ===== src/Gates/Verification/Promotion.antt =====
-- What the promotion verdict means, said without the code, and what `finalize` does with it.
use leibniz_daemon.Common.{
  String, Bool, true, ◌≡◌, refl, ◌↔◌, ◌⊎◌, inl, inr, Option, none, some, List, [], ◌∷◌, ◌∙◌, arith,
  eq_iff, any, all, keep, All, Outcome, raised, returned, Bool-cases,
}
use leibniz_daemon.Types.{EdgeEvidence, pass, is_pass}
use leibniz_daemon.Trust.{proof_edge, novelty_edge, faithfulness_edge, on_edge, validate_path}
use leibniz_daemon.Trust.Path.{
  IsAdmissible, Has, IsPromotionPath, on_edge_iff, any-on_edge, validate_path_iff,
}
use leibniz_daemon.Propositio.{Propositio, Expressio}
use leibniz_daemon.Gates.Verification.{
  Law, canonical_theorem_src, required, same_statement, binds, admissible, is_promotable,
}

abbrev pub IsRequired : EdgeEvidence → Type 0
IsRequired e = (e.edge ≡ proof_edge) ⊎ (e.edge ≡ faithfulness_edge) ⊎ (e.edge ≡ novelty_edge)

-- The statement that was proved is `canonical`.
abbrev pub Proves : Propositio → String → Type 0
Proves prop canonical =
    (expr : Expressio) × (prop.expressio ≡ some expr) × (expr.theorem_src ≡ canonical)

abbrev pub IsBound : Law → Propositio → EdgeEvidence → Type 0
IsBound law prop e =
    e.edge ≡ faithfulness_edge
    → e.verdict ≡ pass
    → (canonical : String) → canonical_theorem_src law e.producer prop ≡ some canonical
    → Proves prop canonical

pub record IsPromotable (law : Law) (prop : Propositio) : Type 0 where
  pub has_proof : Has proof_edge prop.edges
  pub has_faithfulness : Has faithfulness_edge prop.edges
  pub has_novelty : Has novelty_edge prop.edges
  pub evidence :
      All (λ (e : EdgeEvidence). IsRequired e → IsAdmissible e × (e.verdict ≡ pass)) prop.edges
  pub bound : All (IsBound law prop) prop.edges

required_iff : (e : EdgeEvidence) → (required e ≡ true) ↔ IsRequired e
required_iff e =
    ground
      (arith, on_edge_iff proof_edge e, on_edge_iff faithfulness_edge e, on_edge_iff novelty_edge e)

-- `keep` loses no edge of a required name.
any-keep :
    (p q : EdgeEvidence → Bool) (edges : List EdgeEvidence)
    → ((e : EdgeEvidence) → p e ≡ true → q e ≡ true)
    → any p (keep q edges) ≡ any p edges
any-keep p q [] h = refl
any-keep p q (e ∷ edges) h = ground (arith, h e, any-keep p q edges h)

All-keep :
    (P : EdgeEvidence → Type 0) (edges : List EdgeEvidence)
    → All P (keep required edges) ↔ All (λ e. IsRequired e → P e) edges
All-keep P [] = ((λ _. tt), λ _. tt)
All-keep P (e ∷ edges) = elim (Bool-cases (required e)) [
  | inl y ↦
      let need : IsRequired e = (required_iff e).0 y in
      rw y
        ((λ h. ((λ _. h.0), (All-keep P edges).0 h.1)), λ h. (h.0 need, (All-keep P edges).1 h.1))
  | inr n ↦
      let skip : ¬ IsRequired e = λ i. cc (n, (required_iff e).1 i) in
      rw n ((λ h. ((λ i. absurd (skip i)), (All-keep P edges).0 h)), λ h. (All-keep P edges).1 h.1)
]

-- The statement of an expression that may be missing is `canonical`.
abbrev States : Option Expressio → String → Type 0
States x canonical = (expr : Expressio) × (x ≡ some expr) × (expr.theorem_src ≡ canonical)

same_statement_iff :
    (c : Option String) (x : Option Expressio)
    → (same_statement c x ≡ true) ↔ ((canonical : String) → c ≡ some canonical → States x canonical)
same_statement_iff none x = ((λ _ canonical e. cc), λ _. refl)
same_statement_iff (some c) none = ((λ h canonical e. cc), λ h. let (expr, e, _) = h c refl in cc)
same_statement_iff (some c) (some expr) = (
  (λ h canonical e. (expr, refl, ground (arith, eq_iff expr.theorem_src c))),
  λ h. let (other, e, same) = h c refl in ground (arith, eq_iff expr.theorem_src c),
)

binds_iff :
    (law : Law) (prop : Propositio) (e : EdgeEvidence)
    → (binds law prop e ≡ true) ↔ IsBound law prop e
unfolding binds
binds_iff law prop e =
    let same = same_statement_iff (canonical_theorem_src law e.producer prop) prop.expressio in
    (
      (λ h at passed. same.0 (ground (arith, on_edge_iff faithfulness_edge e))),
      λ h. ground (
        arith,
        on_edge_iff faithfulness_edge e,
        λ (a : e.edge ≡ faithfulness_edge) (p : e.verdict ≡ pass). same.1 (h a p),
      ),
    )

all_iff :
    (p : EdgeEvidence → Bool) (P : EdgeEvidence → Type 0) (edges : List EdgeEvidence)
    → ((e : EdgeEvidence) → (p e ≡ true) ↔ P e)
    → (all p edges ≡ true) ↔ All P edges
all_iff p P [] h = ((λ _. tt), λ _. refl)
all_iff p P (e ∷ edges) h = ground (arith, h e, all_iff p P edges h)

admissible_iff : (o : Outcome (Unit {0})) → (admissible o ≡ true) ↔ (o ≡ returned tt)
admissible_iff raised = ground arith
admissible_iff (returned _) = ((λ _. refl), λ _. refl)

-- The last conjunct of the code follows from the path.
all-pass :
    (edges : List EdgeEvidence)
    → All (λ (e : EdgeEvidence). IsAdmissible e × (e.verdict ≡ pass)) edges
    → all (λ e. is_pass e.verdict) edges ≡ true
all-pass [] h = refl
all-pass (e ∷ edges) h = ground (arith, all-pass edges h.1)

any-required :
    (name : String) (edges : List EdgeEvidence)
    → ((e : EdgeEvidence) → on_edge name e ≡ true → required e ≡ true)
    → Has name edges
    → Has name (keep required edges)
any-required name edges h has =
    (any-on_edge name (keep required edges)).0
      (any-keep (on_edge name) required edges h ∙ (any-on_edge name edges).1 has)

module _ (law : Law) (prop : Propositio) where
  abbrev kept : List EdgeEvidence
  kept = keep required prop.edges

  -- The six tests, joined by `and`.
  abbrev Tests : Type 0
  Tests =
      (any (on_edge proof_edge) prop.edges ≡ true)
      × (any (on_edge faithfulness_edge) prop.edges ≡ true)
      × (any (on_edge novelty_edge) prop.edges ≡ true)
      × (admissible (validate_path kept) ≡ true)
      × (all (binds law prop) prop.edges ≡ true)
      × (all (λ e. is_pass e.verdict) kept ≡ true)

  is_promotable-Tests : (is_promotable law prop ≡ true) ↔ Tests
  unfolding is_promotable
  is_promotable-Tests = ground arith

  path-kept : IsPromotionPath kept ↔ (admissible (validate_path kept) ≡ true)
  path-kept = ground (arith, admissible_iff (validate_path kept), validate_path_iff kept)

  Tests-IsPromotable : Tests → IsPromotable law prop
  Tests-IsPromotable t = record {
    has_proof = (any-on_edge proof_edge prop.edges).0 t.0;
    has_faithfulness = (any-on_edge faithfulness_edge prop.edges).0 t.1;
    has_novelty = (any-on_edge novelty_edge prop.edges).0 t.2;
    evidence = (All-keep _ prop.edges).0 (path-kept.1 t.3).passed;
    bound = (all_iff (binds law prop) (IsBound law prop) prop.edges (binds_iff law prop)).0 t.4;
  }

  IsPromotable-Tests : IsPromotable law prop → Tests
  IsPromotable-Tests h =
      let passed = (All-keep _ prop.edges).1 h.evidence in
      let path : IsPromotionPath kept = record {
        has_proof = any-required proof_edge prop.edges (λ e on. ground arith) h.has_proof;
        has_faithfulness =
            any-required faithfulness_edge prop.edges (λ e on. ground arith) h.has_faithfulness;
        passed = passed;
      } in
      (
        (any-on_edge proof_edge prop.edges).1 h.has_proof,
        (any-on_edge faithfulness_edge prop.edges).1 h.has_faithfulness,
        (any-on_edge novelty_edge prop.edges).1 h.has_novelty,
        path-kept.0 path,
        (all_iff (binds law prop) (IsBound law prop) prop.edges (binds_iff law prop)).1 h.bound,
        all-pass kept passed,
      )

-- A candidate is promotable exactly when it holds a proof, a faithfulness and a novelty edge, each
-- such edge passed and is admissible, and the statement that was proved is the canonical one of
-- every passed faithfulness edge whose producer has one.
pub is_promotable_iff :
    (law : Law) (prop : Propositio) → (is_promotable law prop ≡ true) ↔ IsPromotable law prop
is_promotable_iff law prop = (
  (λ h. Tests-IsPromotable law prop ((is_promotable-Tests law prop).0 h)),
  λ h. (is_promotable-Tests law prop).1 (IsPromotable-Tests law prop h),
)
