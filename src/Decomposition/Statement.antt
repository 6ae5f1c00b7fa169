-- ===== src/Decomposition/Statement.antt =====
-- What a decomposition hands on is a consensus on the statement itself.
use leibniz_daemon.Common.{
  All, ◌⊎◌, ◌≤◌, String, ◌≡◌, refl, inl, inr, Option, none, some, List, [], ◌∷◌, ◌++◌, arith, leb,
  length, Dict, Outcome, raised, returned, Option-cases, Bool-cases, subst, sym, ap,
  returned-injective,
}
use leibniz_daemon.Types.{EdgeEvidence, pass, Item}
use leibniz_daemon.Trust.{proof_edge}
use leibniz_daemon.Trust.Path.{IsAdmissible}
use leibniz_daemon.Propositio.{Propositio, Expressio, Demonstratio}
use leibniz_daemon.Consensus.{
  ProofConsensus, ConsensusResult, prove as prove_by_consensus, or_unproved,
}
use leibniz_daemon.Consensus.Votes.{IsStamped, AllDistinct, ProvedBy}
use leibniz_daemon.Consensus.Result.{prove_counts_votes, proof-IsStamped, pass-proof}
use leibniz_daemon.Decomposition.{
  DecompositionStats, LemmaDecomposer, composed, compose, with_plan, plan_of, decompose_and_prove,
  better, prove_or_decompose, demonstrate_decomposing,
}

-- The stage's own ensemble, or its decomposer's.
abbrev pub IsOwn : ProofConsensus → Option LemmaDecomposer → ProofConsensus → Type 0
IsOwn c o ensemble =
    (ensemble ≡ c) ⊎ ((d : LemmaDecomposer) × (o ≡ some d) × (ensemble ≡ d.consensus))

-- The result of one of these ensembles on an expression with this theorem source and these imports.
pub record IsConsensusOn (c : ProofConsensus) (o : Option LemmaDecomposer) (expr : Expressio)
    (res : ConsensusResult) : Type 0 where
  pub ensemble : ProofConsensus
  pub is_own : IsOwn c o ensemble
  pub asked : Expressio
  pub is_result : res ≡ prove_by_consensus ensemble asked
  pub same_statement : asked.theorem_src ≡ expr.theorem_src
  pub same_imports : asked.imports ≡ expr.imports

-- A PASS of such a result has a proof of this statement that the ensemble's kernel stamped, and enough
-- distinct identities, each of a prover of the ensemble that proved the statement.
pub record IsPassed (c : ProofConsensus) (o : Option LemmaDecomposer) (expr : Expressio)
    (attached : Option Demonstratio) : Type 0 where
  pub ensemble : ProofConsensus
  pub is_own : IsOwn c o ensemble
  pub asked : Expressio
  pub same_statement : asked.theorem_src ≡ expr.theorem_src
  pub same_imports : asked.imports ≡ expr.imports
  pub demo : Demonstratio
  pub ev : EdgeEvidence
  pub proved : attached ≡ some demo
  pub stamped : IsStamped ensemble asked demo ev
  pub identities : List String
  pub enough : ensemble.min_consensus ≤ length identities
  pub apart : AllDistinct identities
  pub votes : All (ProvedBy ensemble asked ensemble.provers) identities

pub record IsSound (c : ProofConsensus) (o : Option LemmaDecomposer) (expr : Expressio)
    (res : ConsensusResult) : Type 0 where
  pub admissible : IsAdmissible res.edge
  pub at : res.edge.edge ≡ proof_edge
  pub on_pass : res.edge.verdict ≡ pass → IsPassed c o expr res.proof

prove-IsSound :
    (c : ProofConsensus) (o : Option LemmaDecomposer) (expr : Expressio) (res : ConsensusResult)
    (h : IsConsensusOn c o expr res)
    → IsSound c o expr (prove_by_consensus h.ensemble h.asked)
prove-IsSound c o expr res h =
    let (counted, apart, votes, all', passes, admissible, at) =
      prove_counts_votes h.ensemble h.asked in
    record {
      admissible = admissible;
      at = at;
      on_pass = λ p.
          let (demo, e) = pass-proof h.ensemble h.asked p in
          let (enough, (ev, stamped)) = proof-IsStamped h.ensemble h.asked demo e in
          record {
            ensemble = h.ensemble;
            is_own = h.is_own;
            asked = h.asked;
            same_statement = h.same_statement;
            same_imports = h.same_imports;
            demo = demo;
            ev = ev;
            proved = e;
            stamped = stamped;
            identities = (prove_by_consensus h.ensemble h.asked).identities;
            enough = subst (λ n. h.ensemble.min_consensus ≤ n) counted enough;
            apart = apart;
            votes = votes;
          };
    }

pub IsConsensusOn-IsSound :
    (c : ProofConsensus) (o : Option LemmaDecomposer) (expr : Expressio) (res : ConsensusResult)
    → IsConsensusOn c o expr res
    → IsSound c o expr res
IsConsensusOn-IsSound c o expr res h =
    subst (IsSound c o expr) (sym h.is_result) (prove-IsSound c o expr res h)

module _ (c : ProofConsensus) (d : LemmaDecomposer) (expr : Expressio) where
  abbrev IsUsable : Option ConsensusResult → Type 0
  IsUsable none = Unit
  IsUsable (some res) = IsConsensusOn c (some d) expr res

  compose-IsUsable : (r : DecompositionStats × List String) → IsUsable (compose d expr r).1
  unfolding compose
  compose-IsUsable (stats, []) = tt
  compose-IsUsable (stats, have ∷ haves) = record {
    ensemble = d.consensus;
    is_own = inr (d, refl, refl);
    asked = composed expr (have ∷ haves);
    is_result = refl;
    same_statement = refl;
    same_imports = refl;
  }

  with_plan-IsUsable :
      (plan : Outcome (Option (List (Option (Dict Item))))) (stats : DecompositionStats)
      → IsUsable (with_plan d expr plan stats).1
  unfolding with_plan
  with_plan-IsUsable raised stats = tt
  with_plan-IsUsable (returned none) stats = tt
  with_plan-IsUsable (returned (some lems)) stats = compose-IsUsable _

  decompose_and_prove-IsUsable :
      (stats : DecompositionStats) → IsUsable (decompose_and_prove d stats expr).1
  unfolding decompose_and_prove
  decompose_and_prove-IsUsable stats = elim (Option-cases (plan_of d expr)) [
    | inl empty ↦ rw (empty, decompose_and_prove) tt
    | inr (plan, e) ↦ rw (e, decompose_and_prove) (with_plan-IsUsable plan _)
  ]

  better-IsConsensusOn :
      (first : ConsensusResult) (second : Option ConsensusResult)
      → IsConsensusOn c (some d) expr first
      → IsUsable second
      → IsConsensusOn c (some d) expr (better first second)
  better-IsConsensusOn first none h k = h
  better-IsConsensusOn first (some res) h k = ground arith

-- The recorded result is a consensus on the candidate's own statement, directly or with hints.
pub prove_or_decompose-IsConsensusOn :
    (c : ProofConsensus) (d : LemmaDecomposer) (stats : DecompositionStats) (expr : Expressio)
    → IsConsensusOn c (some d) expr (prove_or_decompose c d stats expr).1
unfolding prove_or_decompose
prove_or_decompose-IsConsensusOn c d stats expr =
    let result = prove_by_consensus c expr in
    let direct : IsConsensusOn c (some d) expr result = record {
      ensemble = c;
      is_own = inl refl;
      asked = expr;
      is_result = refl;
      same_statement = refl;
      same_imports = refl;
    } in
    elim (Bool-cases (leb result.required result.count)) [
      | inl reached ↦ rw (reached, prove_or_decompose) direct
      | inr short ↦
          rw (short, prove_or_decompose)
            (better-IsConsensusOn c d expr result (decompose_and_prove d stats expr).1 direct
              (decompose_and_prove-IsUsable c d expr stats))
    ]

-- What the stage writes into the candidate: one admissible proof edge, and with a PASS a proof of
-- the candidate's own statement, by one of the stage's ensembles.
pub record IsDemonstrated (c : ProofConsensus) (o : Option LemmaDecomposer) (expr : Expressio)
    (before after : Propositio) : Type 0 where
  pub ev : EdgeEvidence
  pub one_edge : after.edges ≡ before.edges ++ ev ∷ []
  pub admissible : IsAdmissible ev
  pub at : ev.edge ≡ proof_edge
  pub on_pass : ev.verdict ≡ pass → IsPassed c o expr after.demonstratio

pub handed_on :
    (c : ProofConsensus) (o : Option LemmaDecomposer) (expr : Expressio)
    (before after : Option Demonstratio)
    → ((demo : Demonstratio) → before ≡ some demo → after ≡ some demo)
    → IsPassed c o expr before
    → IsPassed c o expr after
handed_on c o expr before after keeps h = record {
  ensemble = h.ensemble;
  is_own = h.is_own;
  asked = h.asked;
  same_statement = h.same_statement;
  same_imports = h.same_imports;
  demo = h.demo;
  ev = h.ev;
  proved = keeps h.demo h.proved;
  stamped = h.stamped;
  identities = h.identities;
  enough = h.enough;
  apart = h.apart;
  votes = h.votes;
}

-- The stage records exactly one proof edge, which is admissible. Where it passes, the attached proof is
-- one that the kernel of the stage's ensemble, or of its decomposer's, stamped for an expression with
-- the candidate's own theorem source and imports, and at least as many provers of that ensemble as it
-- requires, with distinct identities, proved it: the decomposition never changes what is proved.
pub demonstrate_decomposing-IsDemonstrated :
    (c : ProofConsensus) (d : LemmaDecomposer) (stats : DecompositionStats) (expr : Expressio)
    (prop after : Propositio)
    → prop.expressio ≡ some expr
    → (demonstrate_decomposing c d stats prop).1 ≡ returned after
    → IsDemonstrated c (some d) expr prop after
unfolding demonstrate_decomposing
demonstrate_decomposing-IsDemonstrated c d stats expr prop after has e =
    let res = (prove_or_decompose c d stats expr).1 in
    let sound =
      IsConsensusOn-IsSound c (some d) expr res (prove_or_decompose-IsConsensusOn c d stats expr) in
    let made = returned-injective (rw (has, demonstrate_decomposing) at e) in
    subst (IsDemonstrated c (some d) expr prop) made (record {
      ev = res.edge;
      one_edge = refl;
      admissible = sound.admissible;
      at = sound.at;
      on_pass = λ p.
          handed_on c (some d) expr res.proof (some (or_unproved c.obligation res.proof))
            (λ demo e. ap (λ x. some (or_unproved c.obligation x)) e) (sound.on_pass p);
    })
