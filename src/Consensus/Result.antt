-- ===== src/Consensus/Result.antt =====
-- What a consensus result says: the votes behind it, and the edge that is recorded.
use Prim.Native.String.{◌++◌ as str_append}
use leibniz_daemon.Common.{
  ◌≢◌, str_eq, Bool-cases, ap, ℕ, ◌≤◌, ◌<◌, String, Bool, true, false, ◌≡◌, refl, ◌↔◌, inl, inr,
  Option, none, some, List, [], ◌∷◌, map, arith, eq_iff, contains, length, All, leb, Option-cases,
  subst, sym, ◌∙◌,
}
use leibniz_daemon.Types.{EdgeEvidence, pass}
use leibniz_daemon.Trust.{proof_edge}
use leibniz_daemon.Trust.Path.{IsAdmissible}
use leibniz_daemon.Propositio.{Expressio, Demonstratio}
use leibniz_daemon.Consensus.{
  Prover, direct, wrapped, ProofConsensus, prover_identity, attempt, verified, identity_of,
  distinct, first_of_list, ConsensusResult, edge_for, tally, prove, consensus_edge, short_edge,
}
use leibniz_daemon.Consensus.Votes.{
  AllDistinct, distinct-AllDistinct, All-distinct, AmongProvers, Proved, ProvedBy, voters, voted,
  contains-distinct, IsStamped, attempt-IsStamped,
}

pub IsAdmissible-same :
    (e f : EdgeEvidence)
    → f.edge ≡ e.edge
    → f.tier ≡ e.tier
    → f.producer ≡ e.producer
    → IsAdmissible e
    → IsAdmissible f
IsAdmissible-same e f edge tier producer h = record {
  proof_tier = rw (edge, tier) h.proof_tier;
  novelty_tier = rw (edge, tier) h.novelty_tier;
  proof_producer = rw (edge, producer) h.proof_producer;
  judge_tier = rw (producer, tier) h.judge_tier;
  faithfulness_producer = rw (edge, tier, producer) h.faithfulness_producer;
}

short-IsAdmissible :
    (count required attempts : ℕ) → IsAdmissible (short_edge count required attempts)
short-IsAdmissible count required attempts = record {
  proof_tier = λ _. refl;
  novelty_tier = λ _ e. cc;
  proof_producer = λ _. inl refl;
  judge_tier = λ e. cc;
  faithfulness_producer = λ _ _. inl refl;
}

-- The first proof of the list, if there is one, is stamped.
first-IsStamped :
    (c : ProofConsensus) (expr : Expressio) (ps : List Prover) (demo : Demonstratio)
    (ev : EdgeEvidence)
    → first_of_list (verified c expr ps) ≡ some (demo, ev)
    → IsStamped c expr demo ev
unfolding verified
first-IsStamped c expr [] demo ev e = cc
first-IsStamped c expr (p ∷ ps) demo ev e = elim (Option-cases (attempt c expr p)) [
  | inl lost ↦ first-IsStamped c expr ps demo ev (ground arith)
  | inr ((d, v), won) ↦ attempt-IsStamped c expr p demo ev (ground arith)
]

-- A list of proofs with none first is empty, and so are its votes.
no_first :
    (proofs : List (Prover × Demonstratio × EdgeEvidence))
    → first_of_list proofs ≡ none
    → length (distinct (map identity_of proofs)) ≡ 0
unfolding distinct
no_first [] e = refl
no_first ((p, demo, ev) ∷ rest) e = cc

holds_some : (xs : List String) (x : String) → contains xs x ≡ true → 0 < length xs
holds_some [] x h = cc
holds_some (y ∷ ys) x h = omega arith

some_first :
    (proofs : List (Prover × Demonstratio × EdgeEvidence)) (x : Demonstratio × EdgeEvidence)
    → first_of_list proofs ≡ some x
    → 0 < length (distinct (map identity_of proofs))
unfolding distinct
some_first [] x e = cc
some_first ((p, demo, ev) ∷ rest) x e =
    ground (arith, holds_some (distinct (map identity_of rest)) (prover_identity p))

edge_for-IsAdmissible :
    (b : Bool) (first : Option (Demonstratio × EdgeEvidence)) (n required attempts : ℕ)
    → ((demo : Demonstratio) (ev : EdgeEvidence)
        → first ≡ some (demo, ev)
        → IsAdmissible ev × (ev.edge ≡ proof_edge))
    → IsAdmissible (edge_for b first n required attempts)
      × ((edge_for b first n required attempts).edge ≡ proof_edge)
edge_for-IsAdmissible true (some (demo, ev)) n required attempts h =
    let (ok, at) = h demo ev refl in
    (IsAdmissible-same ev (consensus_edge ev n required) refl refl refl ok, at)
edge_for-IsAdmissible true none n required attempts h =
    (short-IsAdmissible n required attempts, refl)
edge_for-IsAdmissible false first n required attempts h =
    (short-IsAdmissible n required attempts, refl)

one_id : (id : String) (xs : List String) → AllDistinct xs → All (λ x. x ≡ id) xs → length xs ≤ 1
one_id id [] d h = omega arith
one_id id (x ∷ []) d h = omega arith
one_id id (x ∷ y ∷ ys) d h = absurd (ground (arith, eq_iff y x))

-- The prover names the model, or is a strategy over one of that model.
abbrev pub IsOfModel : String → Prover → Type 0
IsOfModel m (direct model object_id propose) = model ≡ some m
IsOfModel m (wrapped base propose) = IsOfModel m base

prover_identity-IsOfModel :
    (m : String) (p : Prover) → m ≢ "" → IsOfModel m p → prover_identity p ≡ str_append "model:" m
unfolding prover_identity
prover_identity-IsOfModel m (direct none object_id propose) named h = cc h
prover_identity-IsOfModel m (direct (some model) object_id propose) named h =
    let same : model ≡ m = cc h in
    elim (Bool-cases (str_eq model "")) [
      | inl empty ↦ absurd (named (sym same ∙ (eq_iff model "").0 empty))
      | inr full ↦ rw full (ap (str_append "model:") same)
    ]
prover_identity-IsOfModel m (wrapped base propose) named h =
    prover_identity-IsOfModel m base named h

module _ (c : ProofConsensus) (expr : Expressio) where
  abbrev pub result : ConsensusResult
  result = prove c expr

  abbrev proofs : List (Prover × Demonstratio × EdgeEvidence)
  proofs = verified c expr c.provers

  -- The edge passes exactly where enough distinct identities have a proof, and at least one.
  pub edge_passes :
      (result.edge.verdict ≡ pass) ↔ ((c.min_consensus ≤ result.count) × (0 < result.count))
  unfolding prove tally
  edge_passes = elim (Option-cases (first_of_list proofs)) [
    | inl empty ↦ ground (arith, no_first proofs empty)
    | inr (x, first) ↦ ground (arith, some_first proofs x first)
  ]

  first_proof-IsStamped :
      (demo : Demonstratio) (ev : EdgeEvidence)
      → first_of_list proofs ≡ some (demo, ev)
      → IsStamped c expr demo ev
  first_proof-IsStamped = first-IsStamped c expr c.provers

  -- The votes are distinct identities, each of a prover of the ensemble whose draft the ensemble's
  -- kernel accepted, and every prover with such a draft has its vote; the count is their number, the edge passes exactly where it reaches the required
  -- number and is not 0, and the edge is an admissible proof edge either way.
  pub prove_counts_votes :
      (result.count ≡ length result.identities)
      × AllDistinct result.identities
      × All (ProvedBy c expr c.provers) result.identities
      × ((p : Prover)
          → AmongProvers p c.provers
          → Proved c expr p
          → contains result.identities (prover_identity p) ≡ true)
      × ((result.edge.verdict ≡ pass) ↔ ((c.min_consensus ≤ result.count) × (0 < result.count)))
      × IsAdmissible result.edge
      × (result.edge.edge ≡ proof_edge)
  unfolding prove tally
  prove_counts_votes =
      let admissible =
        edge_for-IsAdmissible (leb c.min_consensus (length (distinct (map identity_of proofs))))
          (first_of_list proofs) (length (distinct (map identity_of proofs))) c.min_consensus
          (length c.provers)
          (λ demo ev e. let st = first_proof-IsStamped demo ev e in (st.is_kernel, st.at)) in
      (
        refl,
        distinct-AllDistinct (map identity_of proofs),
        All-distinct (ProvedBy c expr c.provers) (map identity_of proofs) (voters c expr c.provers),
        (λ p at h. contains-distinct _ _ (voted c expr p c.provers at h)),
        edge_passes,
        admissible.0,
        admissible.1,
      )

  -- A proof is handed on only with a consensus, and the kernel stamped it.
  pub proof-IsStamped :
      (demo : Demonstratio)
      → result.proof ≡ some demo
      → (c.min_consensus ≤ result.count) × ((ev : EdgeEvidence) × IsStamped c expr demo ev)
  unfolding prove tally
  proof-IsStamped demo e = elim (Option-cases (first_of_list proofs)) [
    | inl empty ↦ absurd (ground arith)
    | inr ((d, ev), first) ↦
        let same : d ≡ demo = ground arith in
        (
          ground arith,
          (ev, subst (λ x. IsStamped c expr x ev) same (first_proof-IsStamped d ev first)),
        )
  ]

  -- With a PASS there is a proof.
  pub pass-proof : result.edge.verdict ≡ pass → (demo : Demonstratio) × (result.proof ≡ some demo)
  unfolding prove tally
  pass-proof passed = elim (Option-cases (first_of_list proofs)) [
    | inl empty ↦ absurd (ground (arith, passed, edge_passes, no_first proofs empty))
    | inr ((demo, ev), first) ↦ (demo, ground (arith, passed))
  ]

  All-same :
      (id : String) (ids : List String)
      → ((p : Prover) → AmongProvers p c.provers → prover_identity p ≡ id)
      → All (ProvedBy c expr c.provers) ids
      → All (λ x. x ≡ id) ids
  All-same id [] same h = tt
  All-same id (x ∷ ids) same ((p, at, named, won), h) =
      (sym named ∙ same p at, All-same id ids same h)

  -- Where every prover of the ensemble is of one named model, directly or wrapped in strategies
  -- however deep, the result counts at most one vote.
  pub one_model_one_vote :
      (model : String)
      → model ≢ ""
      → ((p : Prover) → AmongProvers p c.provers → IsOfModel model p)
      → result.count ≤ 1
  one_model_one_vote model named same =
      let (counted, apart, votes, _, _, _, _) = prove_counts_votes in
      let id = str_append "model:" model in
      rw counted (
        one_id id result.identities apart (
          All-same id result.identities
            (λ p at. prover_identity-IsOfModel model p named (same p at)) votes))
