-- ===== src/Tests/Gates.antt =====
-- The gates and the kernel's verdict on the small run.
use leibniz_daemon.Common.{true, ◌≡◌, refl, ◌≢◌, ◌↔◌, ◌⊎◌, none, some, [], ◌∷◌, returned}
use leibniz_daemon.Types.{
  claim_type_value, EdgeEvidence, mechanical, adversarial, pass, fail, text, FinishReason, gamed,
  trivial, known, unproven,
}
use leibniz_daemon.Trust.{
  proof_edge, faithfulness_edge, novelty_edge, kernel_producer, validate_path,
}
use leibniz_daemon.Trust.Path.{IsPromotionPath, IsAdmissible, validate_path_iff}
use leibniz_daemon.Propositio.{Propositio, Demonstratio, new_demonstratio, quarantine}
use leibniz_daemon.Verifiers.{discharge}
use leibniz_daemon.Verifiers.Discharge.{KernelAccepts, discharge_exact}
use leibniz_daemon.Gates.Novelty.{check_with as novelty_with, revalidate}
use leibniz_daemon.Gates.Novelty.Decides.{IsVacuous, IsKnown, check_with_decides, revalidate-check}
use leibniz_daemon.Gates.Faithfulness.{
  gaming_witness, by_rank, consult_all, probe_stage, after_spine, check_with,
}
use leibniz_daemon.Gates.Faithfulness.Grounds.{IsSettled, check_with_rests}
use leibniz_daemon.Gates.Verification.{is_promotable, finalize}
use leibniz_daemon.Gates.Verification.Promotion.{IsPromotable, is_promotable_iff}
use leibniz_daemon.Gates.Verification.Finalize.{finalize_branches}
use leibniz_daemon.Tests.Data.{
  edge_of, candidate, statement, signature, lean, novelty, faithfulness, law,
}

-- The candidate with the kernel's edge.
abbrev proved : Propositio
proved = record candidate { edges = edge_of proof_edge (some kernel_producer) ∷ candidate.edges }

validate_path_iff_example :
    (validate_path proved.edges ≡ returned tt) ↔ IsPromotionPath proved.edges
validate_path_iff_example = validate_path_iff proved.edges

is_promotable_iff_example : (is_promotable law proved ≡ true) ↔ IsPromotable law proved
is_promotable_iff_example = is_promotable_iff law proved

finalize_branches_example :
    let (after, reason) = finalize law proved in
    (after.finish_reason ≡ some reason)
    × (after.edges ≡ proved.edges)
    × (IsPromotable law proved → (after.promulgated ≡ true) × (reason ≡ FinishReason.promulgated))
    × (¬ IsPromotable law proved
        → (after.promulgated ≡ proved.promulgated)
          × ((proved.finish_reason ≡ some reason)
              ⊎ ((proved.finish_reason ≡ none) × (reason ≡ unproven))))
finalize_branches_example = finalize_branches law proved

-- The edge of the probe.
abbrev probed : EdgeEvidence
probed = record {
  edge = faithfulness_edge;
  tier = mechanical;
  verdict = pass;
  details = ("probe", text "correctness") ∷ [];
  cost_units = 2;
  producer = some "ClaimProbe";
}

check_with_rests_example :
    ((gaming_witness faithfulness candidate.enuntiatio statement ≢ none)
      × (probed.verdict ≡ fail)
      × (probed.tier ≡ adversarial)
      × (candidate ≡ quarantine gamed candidate))
    ⊎ ((gaming_witness faithfulness candidate.enuntiatio statement ≡ none)
        × IsSettled faithfulness candidate statement candidate probed)
unfolding check_with gaming_witness after_spine consult_all by_rank probe_stage claim_type_value
check_with_rests_example =
    check_with_rests faithfulness candidate statement candidate probed refl refl

check_with_decides_example :
    let (after, ev) = novelty_with novelty candidate statement signature in
    (IsVacuous novelty candidate statement
      → (ev.verdict ≡ fail) × (after ≡ quarantine trivial candidate))
    × (¬ IsVacuous novelty candidate statement
        → IsKnown novelty candidate signature
        → (ev.verdict ≡ fail) × (after ≡ quarantine known candidate))
    × ((ev.verdict ≡ pass)
        ↔ (¬ IsVacuous novelty candidate statement × ¬ IsKnown novelty candidate signature))
    × ((ev.verdict ≡ pass) → after ≡ candidate)
    × (ev.edge ≡ novelty_edge)
    × (ev.tier ≡ mechanical)
check_with_decides_example = check_with_decides novelty candidate statement signature

revalidate-check_example :
    ((revalidate novelty candidate).1 ≡ none
      ↔ (novelty_with novelty candidate statement signature).1.verdict ≡ pass)
    × ((revalidate novelty candidate).0 ≡ (novelty_with novelty candidate statement signature).0)
revalidate-check_example = revalidate-check novelty candidate statement signature refl refl

abbrev drafted : Demonstratio
drafted = new_demonstratio "claim" (some "by simp")

discharge_exact_example :
    let (after, ev) = discharge lean statement drafted in
    ((after.kernel_verified ≡ true) ↔ KernelAccepts lean statement drafted)
    × ((after.qed ≡ "Q.E.D.") ↔ KernelAccepts lean statement drafted)
    × ((ev.verdict ≡ pass) ↔ KernelAccepts lean statement drafted)
    × IsAdmissible ev
    × (ev.edge ≡ proof_edge)
    × (after.proof_src ≡ drafted.proof_src)
    × (after.proof_obligation ≡ drafted.proof_obligation)
discharge_exact_example = discharge_exact lean statement drafted
