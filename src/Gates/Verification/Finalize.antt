-- ===== src/Gates/Verification/Finalize.antt =====
-- The terminal state, and what a failed edge does to a candidate.
use leibniz_daemon.Common.{
  true, false, ◌≡◌, ◌≢◌, ◌⊎◌, inl, inr, none, some, List, [], ◌∷◌, ◌++◌, arith, All, subst,
  Bool-cases,
}
use leibniz_daemon.Types.{EdgeEvidence, FinishReason, unproven, pass}
use leibniz_daemon.Propositio.{Propositio}
use leibniz_daemon.Gates.Verification.{Law, is_promotable, finalize}
use leibniz_daemon.Gates.Verification.Promotion.{IsRequired, IsPromotable, is_promotable_iff}

All-front :
    (P : EdgeEvidence → Type 0) (edges more : List EdgeEvidence)
    → All P (edges ++ more)
    → All P more
All-front P [] more h = h
All-front P (e ∷ edges) more h = All-front P edges more h.1

-- A required edge that did not pass bars the promotion for good, whatever is recorded before it and
-- after it.
pub not_promotable_after :
    (law : Law) (prop : Propositio) (before after : List EdgeEvidence) (ev : EdgeEvidence)
    → prop.edges ≡ before ++ ev ∷ after
    → IsRequired ev
    → ev.verdict ≢ pass
    → is_promotable law prop ≡ false
not_promotable_after law prop before after ev held need failed =
    elim (Bool-cases (is_promotable law prop)) [
      | inr no' ↦ no'
      | inl yes' ↦
          let h = (is_promotable_iff law prop).0 yes' in
          let rest = All-front _ before (ev ∷ after) (subst (All _) held h.evidence) in
          absurd (failed (rest.0 need).1)
    ]

-- `finalize` promulgates exactly the promotable candidates; any other keeps the reason that a gate
-- gave it, or is unproven, and its promulgation flag is as it was.
pub finalize_branches :
    (law : Law) (prop : Propositio)
    → let (after, reason) = finalize law prop in
      (after.finish_reason ≡ some reason)
      × (after.edges ≡ prop.edges)
      × (IsPromotable law prop → (after.promulgated ≡ true) × (reason ≡ FinishReason.promulgated))
      × (¬ IsPromotable law prop
          → (after.promulgated ≡ prop.promulgated)
            × ((prop.finish_reason ≡ some reason)
                ⊎ ((prop.finish_reason ≡ none) × (reason ≡ unproven))))
unfolding finalize
finalize_branches law prop = ground (arith, is_promotable_iff law prop)
