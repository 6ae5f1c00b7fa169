-- ===== src/Repair/Conversation.antt =====
-- The conversation of the repair loop: which candidates are accepted, and what is said of the others.
use leibniz_daemon.Common.{
  ◌≢◌, ◌⊎◌, sym, ℕ, suc, String, true, false, ◌≡◌, refl, inl, inr, none, some, arith, returned,
  Bool-cases,
}
use leibniz_daemon.Types.{EdgeEvidence}
use leibniz_daemon.Propositio.{Expressio, Demonstratio}
use leibniz_daemon.Verifiers.{discharge}
use leibniz_daemon.Verifiers.Discharge.{KernelAccepts, discharge_exact}
use leibniz_daemon.Repair.{
  RepairStats, Reply, ProofRepairer, Check, candidate_of, demo_of, judge_candidate,
}

-- The candidate is not empty, the check passes it, and the kernel accepts it.
abbrev pub Accepts : ProofRepairer → Check → Expressio → String → Type 0
Accepts p check expr said =
    (said ≢ "") × ((check expr said).0 ≡ true) × KernelAccepts p.lean expr (demo_of p said)

-- What the reasoner is told of a rejected candidate: the check's error, or that the kernel rejected it.
abbrev pub IsComplaint : Check → Expressio → String → String → Type 0
IsComplaint check expr said error =
    (((check expr said).0 ≡ false) × (error ≡ (check expr said).1))
    ⊎ (((check expr said).0 ≡ true) × (error ≡ "kernel rejected a proof the pre-check accepted"))

-- The loop, with this many repairs left, comes to a candidate that is accepted: this one, or one
-- further on, where each rejected candidate is answered with a repair.
pub data Closes (p : ProofRepairer) (check : Check) (expr : Expressio) : ℕ → Reply → Type 0 where
  accepted :
      {left : ℕ} {candidate : Reply}
      → Accepts p check expr candidate.said
      → Closes p check expr left candidate
  repaired :
      {left : ℕ} {candidate : Reply} (reply : Reply) (error : String)
      → candidate.said ≢ ""
      → ¬ Accepts p check expr candidate.said
      → IsComplaint check expr candidate.said error
      → p.provider.repair_proof expr.theorem_src candidate.said error ≡ returned reply
      → Closes p check expr left (candidate_of p reply)
      → Closes p check expr (suc left) candidate

-- The statistics play no part.
module _ (p : ProofRepairer) (stats : RepairStats) (check : Check) (expr : Expressio) where
  pub recounted :
      {left : ℕ} {candidate : Reply}
      → Closes (record p { stats = stats }) check expr left candidate
      → Closes p check expr left candidate
  recounted (accepted ok) = accepted ok
  recounted (repaired reply error full lost told asked h) =
      repaired reply error full lost told asked (recounted h)

  pub counted :
      {left : ℕ} {candidate : Reply}
      → Closes p check expr left candidate
      → Closes (record p { stats = stats }) check expr left candidate
  counted (accepted ok) = accepted ok
  counted (repaired reply error full lost told asked h) =
      repaired reply error full lost told asked (counted h)

-- The check of a candidate that is not empty, against what it should be.
module _ (p : ProofRepairer) (check : Check) (expr : Expressio) (said : String) where
  pub judged-Accepts :
      (won : Demonstratio × EdgeEvidence)
      → said ≢ ""
      → (judge_candidate p check expr said).0 ≡ some won
      → Accepts p check expr said
  unfolding judge_candidate
  judged-Accepts won full e =
      let facts = discharge_exact p.lean expr (demo_of p said) in
      let stamped : (discharge p.lean expr (demo_of p said)).0.kernel_verified ≡ true =
        ground arith in
      (full, ground arith, facts.0.0 stamped)

  pub Accepts-judged :
      Accepts p check expr said
      → (won : Demonstratio × EdgeEvidence) × ((judge_candidate p check expr said).0 ≡ some won)
  unfolding judge_candidate
  Accepts-judged (full, passes, kernel) =
      let stamped = (discharge_exact p.lean expr (demo_of p said)).0.1 kernel in
      (discharge p.lean expr (demo_of p said), rw passes (rw stamped refl))

  pub judged-IsComplaint :
      (judge_candidate p check expr said).0 ≡ none
      → IsComplaint check expr said (judge_candidate p check expr said).1
  unfolding judge_candidate
  judged-IsComplaint lost = elim (Bool-cases (check expr said).0) [
    | inl passes ↦ inr (passes, rw passes refl)
    | inr fails ↦ inl (fails, rw fails refl)
  ]

  pub IsComplaint-judged :
      (error : String)
      → IsComplaint check expr said error
      → (judge_candidate p check expr said).1 ≡ error
  unfolding judge_candidate
  IsComplaint-judged error (inl (fails, e)) = rw fails (sym e)
  IsComplaint-judged error (inr (passes, e)) = rw passes (sym e)
