-- ===== src/Tests/Proofs.antt =====
-- The proof stage and the promotion on the small run: four provers, three proofs, two votes.
use leibniz_daemon.Common.{
  String, subst, sym, ◌≢◌, arith, eq_iff, contains, raised, returned, inl, inr, ◌≤◌, ◌<◌, true, ◌≡◌,
  refl, ◌↔◌, some, [], ◌∷◌, All, length, lookup, strip,
}
use leibniz_daemon.Types.{EdgeEvidence, pass}
use leibniz_daemon.Trust.{
  proof_edge, on_edge, not_kernel, from_judge, is_admitted, not_admitted, validate_edge,
  validate_edges, validate_path, is_judged_faithfulness,
}
use leibniz_daemon.Trust.Path.{IsAdmissible}
use leibniz_daemon.Propositio.{Propositio, Demonstratio, seal, record_edge}
use leibniz_daemon.Budget.{try_admit}
use leibniz_daemon.Verifiers.{stamps, discharge}
use leibniz_daemon.Gates.Verification.{canonical_theorem_src, binds, is_promotable}
use leibniz_daemon.Gates.Verification.Promotion.{IsPromotable}
use leibniz_daemon.Consensus.{
  wrapped, Prover, direct, prover_identity, ProofConsensus, prove, draft, ConsensusResult, attempt,
  verified, distinct, tally, demonstrate,
}
use leibniz_daemon.Consensus.Normalize.{normalize_proof}
use leibniz_daemon.Consensus.Votes.{Proved, AmongProvers, AllDistinct, ProvedBy, IsStamped}
use leibniz_daemon.Consensus.Result.{
  IsOfModel, one_model_one_vote, prove_counts_votes, proof-IsStamped,
}
use leibniz_daemon.Daemon.{prove_with, by_decision, revalidated, promotion}
use leibniz_daemon.Daemon.Promotions.{IsQed, promotion-IsLaw}
use leibniz_daemon.Tests.Data.{candidate, statement, consensus, daemon, budget}

abbrev result : ConsensusResult
result = prove consensus statement

two_votes : result.identities ≡ "model:a" ∷ "model:b" ∷ []
unfolding normalize_proof strip prove tally verified attempt draft discharge stamps seal distinct
    prover_identity
two_votes = refl

prove_counts_votes_example :
    (result.count ≡ length result.identities)
    × AllDistinct result.identities
    × All (ProvedBy consensus statement consensus.provers) result.identities
    × ((p : Prover)
        → AmongProvers p consensus.provers
        → Proved consensus statement p
        → contains result.identities (prover_identity p) ≡ true)
    × ((result.edge.verdict ≡ pass)
        ↔ ((consensus.min_consensus ≤ result.count) × (0 < result.count)))
    × IsAdmissible result.edge
    × (result.edge.edge ≡ proof_edge)
prove_counts_votes_example = prove_counts_votes consensus statement

abbrev stamped : Demonstratio
stamped = record {
  proof_obligation = "claim";
  proof_src = some "by simp";
  kernel_verified = true;
  qed = "Q.E.D.";
}

proof-IsStamped_example :
    (consensus.min_consensus ≤ result.count)
    × ((ev : EdgeEvidence) × IsStamped consensus statement stamped ev)
unfolding normalize_proof strip prove tally verified attempt draft discharge stamps seal distinct
    prover_identity
proof-IsStamped_example = proof-IsStamped consensus statement stamped refl

-- The candidate with the ensemble's proof and edge.
abbrev proved : Propositio
proved = record_edge result.edge (record candidate { demonstratio = some stamped })

promotion-IsLaw_example : IsPromotable daemon.law proved × IsQed proved
unfolding normalize_proof strip prove_with demonstrate prove tally verified attempt draft discharge
    stamps seal distinct prover_identity promotion revalidated by_decision try_admit
    is_judged_faithfulness is_promotable validate_path validate_edges validate_edge on_edge
    not_kernel from_judge is_admitted not_admitted binds canonical_theorem_src lookup
promotion-IsLaw_example =
    promotion-IsLaw daemon (some budget) (some (try_admit budget proved.edges).0) candidate proved
      proved refl refl

-- Two strategies of one model.
abbrev one_model : ProofConsensus
one_model = record consensus {
  provers =
      direct (some "a") "1" (λ role context. returned "by simp")
      ∷ wrapped (direct (some "a") "9" (λ role context. raised))
          (λ role context. returned "by omega")
      ∷ [];
}

abbrev model : String
model = "a"

one_model_provers : (p : Prover) → AmongProvers p one_model.provers → IsOfModel model p
one_model_provers p (inl e) = subst (IsOfModel model) (sym e) refl
one_model_provers p (inr (inl e)) = subst (IsOfModel model) (sym e) refl
one_model_provers p (inr (inr e)) = absurd e

model_is_named : model ≢ ""
model_is_named = ground (arith, eq_iff model "")

one_model_one_vote_example : (prove one_model statement).count ≤ 1
one_model_one_vote_example =
    one_model_one_vote one_model statement model model_is_named one_model_provers
