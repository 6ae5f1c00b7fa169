-- ===== src/Gates/Faithfulness/Grounds.antt =====
-- What a verdict of the faithfulness gate rests on.
use leibniz_daemon.Common.{
  ◌≤◌, true, ◌≡◌, refl, ◌≢◌, ◌↔◌, ◌⊎◌, inl, inr, Option, none, some, arith, returned, Option-cases,
  subst, >>=-eq-returned, returned-injective,
}
use leibniz_daemon.Types.{
  EdgeEvidence, gamed, unfaithful, pass, fail, defer, mechanical, adversarial, judged, is_open_form,
  ClaimType, open_form,
}
use leibniz_daemon.Propositio.{Propositio, Expressio, quarantine}
use leibniz_daemon.Gates.Sound.{SoundBackend, FaithfulnessVerdict}
use leibniz_daemon.Gates.Faithfulness.{
  FaithfulnessGate, by_rank, consult_all, probe_stage, judge_stage, gaming_witness, after_spine,
  check_with, ClaimProbe, or_else,
}
use leibniz_daemon.Gates.Faithfulness.Rollback.{IsCertified}
use leibniz_daemon.Gates.Faithfulness.Verdicts.{
  Among, Candidate, Among-by_rank, Loop, passed_by, refuted_in, certified_in, consult_all-Loop,
}

-- What a PASS of the gate rests on. In each case no gaming witness was found.
pub data Grounds (g : FaithfulnessGate) (prop : Propositio) (expr : Expressio) (after : Propositio)
    (ev : EdgeEvidence) : Type 0 where
  -- a registered backend's certificate, which the gate re-checked and bound
  by_certificate :
      (b : SoundBackend) (v : FaithfulnessVerdict)
      → Among b g.sound_backends
      → IsCertified g after b v
      → Candidate prop expr after
      → ev.tier ≡ mechanical
      → Grounds g prop expr after ev
  -- a decisive probe of the claim's type
  by_probe :
      (probe : ClaimProbe)
      → g.probes prop.enuntiatio.claim_type ≡ some probe
      → probe prop ≡ some true
      → after ≡ prop
      → ev.tier ≡ mechanical
      → Grounds g prop expr after ev
  -- the judge, above the threshold, on an open-form claim
  by_judge :
      prop.enuntiatio.claim_type ≡ open_form
      → g.judge_threshold ≤ g.judge prop
      → after ≡ prop
      → ev.tier ≡ judged
      → Grounds g prop expr after ev

-- What a verdict says of the candidate, whatever stage gave it.
pub record IsSettled (g : FaithfulnessGate) (prop : Propositio) (expr : Expressio)
    (after : Propositio) (ev : EdgeEvidence) : Type 0 where
  pub on_pass : ev.verdict ≡ pass → Grounds g prop expr after ev
  pub on_fail : ev.verdict ≡ fail → after ≡ quarantine unfaithful prop
  pub on_defer : ev.verdict ≡ defer → (after ≡ prop) × (prop.enuntiatio.claim_type ≢ open_form)
  pub on_judged : ev.tier ≡ judged → prop.enuntiatio.claim_type ≡ open_form

open_form_iff : (c : ClaimType) → (is_open_form c ≡ true) ↔ (c ≡ open_form)
open_form_iff c = ground arith

module _ (g : FaithfulnessGate) (prop : Propositio) (expr : Expressio) where
  abbrev judged_of : Propositio × EdgeEvidence
  judged_of = judge_stage g prop

  judge_facts :
      (judged_of.1.verdict ≡ pass
        → (prop.enuntiatio.claim_type ≡ open_form)
          × (g.judge_threshold ≤ g.judge prop)
          × (judged_of.0 ≡ prop)
          × (judged_of.1.tier ≡ judged))
      × (judged_of.1.verdict ≡ fail → judged_of.0 ≡ quarantine unfaithful prop)
      × (judged_of.1.verdict ≡ defer
          → (judged_of.0 ≡ prop) × (prop.enuntiatio.claim_type ≢ open_form))
      × (judged_of.1.tier ≡ judged → prop.enuntiatio.claim_type ≡ open_form)
  unfolding judge_stage
  judge_facts = ground (arith, open_form_iff prop.enuntiatio.claim_type)

  judge_stage-IsSettled : IsSettled g prop expr judged_of.0 judged_of.1
  judge_stage-IsSettled =
      let (on_pass, on_fail, on_defer, on_judged) = judge_facts in
      record {
        on_pass = λ h. let (c, t, k, j) = on_pass h in by_judge c t k j;
        on_fail = on_fail;
        on_defer = on_defer;
        on_judged = on_judged;
      }

  probe_facts :
      (ev : EdgeEvidence)
      → (probe_stage g prop).1 ≡ some ev
      → (ev.verdict ≢ defer)
        × (ev.tier ≡ mechanical)
        × (ev.verdict ≡ fail → (probe_stage g prop).0 ≡ quarantine unfaithful prop)
        × (ev.verdict ≡ pass
            → (probe : ClaimProbe) × (g.probes prop.enuntiatio.claim_type ≡ some probe)
              × (probe prop ≡ some true)
              × ((probe_stage g prop).0 ≡ prop))
  unfolding probe_stage
  probe_facts ev e = (ground arith, ground arith, ground arith, ground arith)

  probe_none : (probe_stage g prop).1 ≡ none → (probe_stage g prop).0 ≡ prop
  unfolding probe_stage
  probe_none e = ground arith

  probe_stage-IsSettled :
      (ev : EdgeEvidence)
      → (probe_stage g prop).1 ≡ some ev
      → IsSettled g prop expr (probe_stage g prop).0 ev
  probe_stage-IsSettled ev e =
      let (decisive, mech, on_fail, on_pass) = probe_facts ev e in
      record {
        on_pass = λ h. let (probe, has, said, k) = on_pass h in by_probe probe has said k mech;
        on_fail = on_fail;
        on_defer = λ h. absurd (decisive h);
        on_judged = λ h. cc (mech, h);
      }

  -- What each stage says is settled, and a stage that says nothing changes nothing.
  or_else-IsSettled :
      (r : Propositio × Option EdgeEvidence) (rest : Propositio → Propositio × EdgeEvidence)
      → ((ev : EdgeEvidence) → r.1 ≡ some ev → IsSettled g prop expr r.0 ev)
      → (r.1 ≡ none → r.0 ≡ prop)
      → IsSettled g prop expr (rest prop).0 (rest prop).1
      → IsSettled g prop expr (or_else r rest).0 (or_else r rest).1
  or_else-IsSettled (q, some ev) rest said same later = said ev refl
  or_else-IsSettled (q, none) rest said same later = rw (same refl) later

  Loop-IsSettled :
      (after : Propositio) (answer : Option EdgeEvidence) (ev : EdgeEvidence)
      → Loop g prop expr (by_rank g.sound_backends) after answer
      → answer ≡ some ev
      → IsSettled g prop expr after ev
  Loop-IsSettled after answer ev (passed_by k n) e = cc
  Loop-IsSettled after answer ev (refuted_in ev' a f m q) e = record {
    on_pass = λ h. cc;
    on_fail = λ _. q;
    on_defer = λ h. cc;
    on_judged = λ h. cc;
  }
  Loop-IsSettled after answer ev (certified_in ev' b v a p m at i k) e = record {
    on_pass = λ _. by_certificate b v (Among-by_rank b g.sound_backends at) i k (cc);
    on_fail = λ h. cc;
    on_defer = λ h. cc;
    on_judged = λ h. cc;
  }

  Loop-same :
      (after : Propositio) (answer : Option EdgeEvidence)
      → Loop g prop expr (by_rank g.sound_backends) after answer
      → answer ≡ none
      → after ≡ prop
  Loop-same after answer (passed_by k n) e = k
  Loop-same after answer (refuted_in ev' a f m q) e = cc
  Loop-same after answer (certified_in ev' b v a p m at i k) e = cc

  after_spine-IsSettled :
      (r : Propositio × EdgeEvidence)
      → prop.expressio ≡ some expr
      → after_spine g prop expr ≡ returned r
      → IsSettled g prop expr r.0 r.1
  unfolding after_spine
  after_spine-IsSettled r e h =
      let (q, looped, same) =
        >>=-eq-returned (consult_all g prop expr (by_rank g.sound_backends)) _ h in
      let loop = consult_all-Loop g prop expr (by_rank g.sound_backends) q e looped in
      subst (λ (x : Propositio × EdgeEvidence). IsSettled g prop expr x.0 x.1)
        (returned-injective same)
        (or_else-IsSettled q (λ p. or_else (probe_stage g p) (judge_stage g))
          (λ ev said. Loop-IsSettled q.0 q.1 ev loop said) (Loop-same q.0 q.1 loop)
          (or_else-IsSettled (probe_stage g prop) (judge_stage g) probe_stage-IsSettled probe_none
            judge_stage-IsSettled))

  -- Whatever the gate answers: a gaming witness gives an adversarial FAIL and the reason GAMED. With
  -- no witness, a PASS rests on a certificate, a probe or the judge, a FAIL leaves the reason
  -- UNFAITHFUL, a DEFER leaves the candidate as it was, and only an open-form claim is judged.
  pub check_with_rests :
      (after : Propositio) (ev : EdgeEvidence)
      → prop.expressio ≡ some expr
      → check_with g prop expr ≡ returned (after, ev)
      → ((gaming_witness g prop.enuntiatio expr ≢ none)
          × (ev.verdict ≡ fail)
          × (ev.tier ≡ adversarial)
          × (after ≡ quarantine gamed prop))
        ⊎ ((gaming_witness g prop.enuntiatio expr ≡ none) × IsSettled g prop expr after ev)
  unfolding check_with
  check_with_rests after ev e h = elim (Option-cases (gaming_witness g prop.enuntiatio expr)) [
    | inl clean ↦ inr (clean, after_spine-IsSettled (after, ev) e (ground arith))
    | inr (w, gamed') ↦ inl (ground arith)
  ]
