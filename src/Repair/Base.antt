-- ===== src/Repair/Base.antt =====
-- The models whose votes the repair panel starts from.
use leibniz_daemon.Common.{
  All, true, map, sym, str_eq, eq_iff, contains, arith, String, ◌≡◌, refl, inl, inr, List, [], ◌∷◌,
  Bool-cases, subst, ap,
}
use leibniz_daemon.Propositio.{Expressio}
use leibniz_daemon.Consensus.{
  Prover, ProofConsensus, ConsensusResult, prover_identity, prove as prove_by_consensus,
}
use leibniz_daemon.Repair.Canonical.{canonical_model}
use leibniz_daemon.Consensus.Votes.{
  AllDistinct, AmongProvers, Proved, ProvedBy, All-distinct, distinct-AllDistinct,
  contains-distinct,
}
use leibniz_daemon.Consensus.Result.{prove_counts_votes}
use leibniz_daemon.Decomposition.Statement.{IsOwn, IsConsensusOn}
use leibniz_daemon.Repair.{RepairingDemonstrate, canonical_base}

-- The models of the base verifiers: distinct names, each the canonical name of a prover of the stage's
-- own ensemble, or of its decomposer's, that proved the statement; and no such prover is missing.
pub record IsBase (s : RepairingDemonstrate) (expr : Expressio) (base : List String) : Type 0 where
  pub ensemble : ProofConsensus
  pub is_own : IsOwn s.consensus s.decomposer ensemble
  pub asked : Expressio
  pub same_statement : asked.theorem_src ≡ expr.theorem_src
  pub same_imports : asked.imports ≡ expr.imports
  pub apart : AllDistinct base
  pub votes :
      All
        (λ b.
          (id : String) × (canonical_model s.consensus.lower id ≡ b)
          × ProvedBy ensemble asked ensemble.provers id)
        base
  pub complete :
      (p : Prover)
      → AmongProvers p ensemble.provers
      → Proved ensemble asked p
      → contains base (canonical_model s.consensus.lower (prover_identity p)) ≡ true

-- The canonical names of identities that have a property.
module _ (f : String → String) (P : String → Type 0) where
  named_All :
      (ids : List String) → All P ids → All (λ b. (id : String) × (f id ≡ b) × P id) (map f ids)
  named_All [] h = tt
  named_All (id ∷ ids) (h, k) = ((id, refl, h), named_All ids k)

contains-map :
    (f : String → String) (ids : List String) (id : String)
    → contains ids id ≡ true
    → contains (map f ids) (f id) ≡ true
contains-map f [] id h = h
contains-map f (x ∷ ids) id h = elim (Bool-cases (str_eq x id)) [
  | inl same ↦
      let e : str_eq (f x) (f id) ≡ true = (eq_iff (f x) (f id)).1 (ap f ((eq_iff x id).0 same)) in
      rw e refl
  | inr other ↦ let rest = contains-map f ids id (rw other at h) in ground arith
]

pub canonical_base-IsBase :
    (s : RepairingDemonstrate) (expr : Expressio) (res : ConsensusResult)
    → IsConsensusOn s.consensus s.decomposer expr res
    → IsBase s expr (canonical_base s res)
canonical_base-IsBase s expr res h =
    let canon = canonical_model s.consensus.lower in
    let result = prove_by_consensus h.ensemble h.asked in
    let (_, _, votes, counted, _, _, _) = prove_counts_votes h.ensemble h.asked in
    subst (λ (r : ConsensusResult). IsBase s expr (canonical_base s r)) (sym h.is_result)
      (record {
        ensemble = h.ensemble;
        is_own = h.is_own;
        asked = h.asked;
        same_statement = h.same_statement;
        same_imports = h.same_imports;
        apart = distinct-AllDistinct (map canon result.identities);
        votes = All-distinct _ (map canon result.identities) (
            named_All canon (ProvedBy h.ensemble h.asked h.ensemble.provers) result.identities
              votes);
        complete = λ p at proved.
            contains-distinct (map canon result.identities) (canon (prover_identity p))
              (contains-map canon result.identities (prover_identity p) (counted p at proved));
      })
