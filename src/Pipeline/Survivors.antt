-- ===== src/Pipeline/Survivors.antt =====
-- What is true of a candidate that survives formalization.
use leibniz_daemon.Common.{
  String, Bool, true, false, ◌≡◌, refl, none, some, arith, returned, ◌>>=◌, Option-cases,
  Bool-cases, inl, inr, subst, >>=-eq-returned, sym,
}
use leibniz_daemon.Types.{EdgeEvidence, ClaimSignature, pass, is_fail, Role}
use leibniz_daemon.Propositio.{Propositio, Expressio, record_edge}
use leibniz_daemon.Verifiers.{cheap_refute}
use leibniz_daemon.Gates.Novelty.{check_with as novelty_with, check as novelty_check}
use leibniz_daemon.Gates.Novelty.Decides.{IsVacuous, IsKnown, check_with_decides}
use leibniz_daemon.Gates.Faithfulness.{
  gaming_witness, check as faithfulness_check, check_with as faithfulness_with,
}
use leibniz_daemon.Gates.Faithfulness.Grounds.{Grounds, check_with_rests}
use leibniz_daemon.Pipeline.{
  Formalize, steer_contract, judge_faithfulness, judge_novelty, judge, formalized, formalize,
  compile_with_repair, parse_expressio,
}

-- The faithfulness gate passed the steered candidate, on grounds, and its edge was recorded.
pub record IsFaithful (f : Formalize) (prop after : Propositio) : Type 0 where
  pub steered : Propositio
  pub by_steering :
      steer_contract f.os f.provider f.smt f.max_contract_repairs prop ≡ returned steered
  pub expr : Expressio
  pub has_expr : steered.expressio ≡ some expr
  pub ungamed : gaming_witness f.faithfulness steered.enuntiatio expr ≡ none
  pub settled : Propositio
  pub ev : EdgeEvidence
  pub passes : ev.verdict ≡ pass
  pub grounds : Grounds f.faithfulness steered expr settled ev
  pub recorded : after ≡ record_edge ev settled

-- The novelty gate passed the candidate, which is neither vacuous nor known.
pub record IsNovel (f : Formalize) (prop after : Propositio) : Type 0 where
  pub expr : Expressio
  pub sig : ClaimSignature
  pub has_expr : prop.expressio ≡ some expr
  pub has_sig : prop.signature ≡ some sig
  pub not_vacuous : ¬ IsVacuous f.novelty prop expr
  pub not_known : ¬ IsKnown f.novelty prop sig
  pub faithful : IsFaithful f (record_edge (novelty_with f.novelty prop expr sig).1 prop) after

-- The statement compiled, no counterexample was found, and the candidate is novel and faithful.
pub record IsSurvivor (f : Formalize) (prop after : Propositio) : Type 0 where
  pub compiled : Expressio × Bool
  pub draft : String
  pub drafted : f.provider.propose Role.formalize prop.enuntiatio.statement ≡ returned draft
  pub by_compiler :
      compile_with_repair f.os f.provider f.lean prop.enuntiatio.statement
        (parse_expressio f.os draft)
        f.max_repairs
      ≡ compiled
  pub compiles : compiled.1 ≡ true
  pub stated : Propositio
  pub by_statement : formalized f prop compiled.0 ≡ returned stated
  pub not_refuted : f.smt.find_counterexample stated.enuntiatio.falsifiable_claim 64 ≡ none
  pub novel :
      IsNovel f
        (record_edge (cheap_refute f.smt stated.enuntiatio.falsifiable_claim 64) stated)
        after

module _ (f : Formalize) (prop after : Propositio) where
  gate_passes :
      (q r : Propositio) (e : Expressio) (ev : EdgeEvidence)
      → q.expressio ≡ some e
      → faithfulness_with f.faithfulness q e ≡ returned (r, ev)
      → ev.verdict ≡ pass
      → (gaming_witness f.faithfulness q.enuntiatio e ≡ none) × Grounds f.faithfulness q e r ev
  gate_passes q r e ev has h passed = elim (check_with_rests f.faithfulness q e r ev has h) [
    | inl (w, failed, t, k) ↦ cc
    | inr (clean, settled) ↦ (clean, settled.on_pass passed)
  ]

  judge_faithfulness-IsFaithful :
      judge_faithfulness f prop ≡ returned (after, true) → IsFaithful f prop after
  unfolding judge_faithfulness faithfulness_check
  judge_faithfulness-IsFaithful h =
      let (q, steered, h1) =
        >>=-eq-returned (steer_contract f.os f.provider f.smt f.max_contract_repairs prop) _ h in
      let ((r, ev), checked, h2) = >>=-eq-returned (faithfulness_check f.faithfulness q) _ h1 in
      elim (Option-cases q.expressio) [
        | inl lacks ↦ absurd (ground arith)
        | inr (e, has) ↦
            let gate : faithfulness_with f.faithfulness q e ≡ returned (r, ev) = ground arith in
            let passed : ev.verdict ≡ pass = ground arith in
            let (clean, grounds) = gate_passes q r e ev has gate passed in
            record {
              steered = q;
              by_steering = steered;
              expr = e;
              has_expr = has;
              ungamed = clean;
              settled = r;
              ev = ev;
              passes = passed;
              grounds = grounds;
              recorded = ground arith;
            }
      ]

novel_passes :
    (f : Formalize) (prop : Propositio) (e : Expressio) (sig : ClaimSignature)
    → is_fail (novelty_with f.novelty prop e sig).1.verdict ≡ false
    → ((novelty_with f.novelty prop e sig).0 ≡ prop)
      × (¬ IsVacuous f.novelty prop e)
      × (¬ IsKnown f.novelty prop sig)
novel_passes f prop e sig unfailed =
    let (vacuous, known, passes, kept, _, _) = check_with_decides f.novelty prop e sig in
    let nv : ¬ IsVacuous f.novelty prop e = λ v. ground (arith, vacuous v) in
    let nk : ¬ IsKnown f.novelty prop sig = λ k. ground (arith, known nv k) in
    (kept (passes.1 (nv, nk)), nv, nk)

module _ (f : Formalize) (prop after : Propositio) where
  judge_novelty-IsNovel : judge_novelty f prop ≡ returned (after, true) → IsNovel f prop after
  unfolding judge_novelty novelty_check
  judge_novelty-IsNovel h =
      let ((q, ev), checked, h1) = >>=-eq-returned (novelty_check f.novelty prop) _ h in
      elim (Option-cases prop.expressio) [
        | inl lacks ↦ absurd (ground arith)
        | inr (e, has) ↦ elim (Option-cases prop.signature) [
          | inl unsigned ↦ absurd (ground arith)
          | inr (sig, signed) ↦
              let gate : novelty_with f.novelty prop e sig ≡ (q, ev) = ground arith in
              let unfailed : is_fail ev.verdict ≡ false = ground arith in
              let (same, nv, nk) = novel_passes f prop e sig (
                subst (λ (x : Propositio × EdgeEvidence). is_fail x.1.verdict ≡ false) (sym gate)
                  unfailed) in
              let onward : judge_faithfulness f (record_edge ev q) ≡ returned (after, true) =
                ground arith in
              let kept : record_edge ev q ≡ record_edge (novelty_with f.novelty prop e sig).1 prop =
                cc (same, gate) in
              record {
                expr = e;
                sig = sig;
                has_expr = has;
                has_sig = signed;
                not_vacuous = nv;
                not_known = nk;
                faithful =
                    judge_faithfulness-IsFaithful f
                      (record_edge (novelty_with f.novelty prop e sig).1 prop) after
                      (subst (λ x. judge_faithfulness f x ≡ returned (after, true)) kept onward);
              }
        ]
      ]

module _ (f : Formalize) (prop after : Propositio) where
  judge-unrefuted :
      judge f prop ≡ returned (after, true)
      → (f.smt.find_counterexample prop.enuntiatio.falsifiable_claim 64 ≡ none)
        × IsNovel f
            (record_edge (cheap_refute f.smt prop.enuntiatio.falsifiable_claim 64) prop)
            after
  unfolding judge cheap_refute
  judge-unrefuted h =
      elim (Option-cases (f.smt.find_counterexample prop.enuntiatio.falsifiable_claim 64)) [
        | inl clean ↦ (
          clean,
          judge_novelty-IsNovel f
              (record_edge (cheap_refute f.smt prop.enuntiatio.falsifiable_claim 64) prop) after
              (ground arith),
        )
        | inr (cx, found) ↦ absurd (ground arith)
      ]

-- A candidate survives formalization only where its statement compiled, the bounded search found no
-- counterexample, the statement is neither vacuous nor known, no gaming witness exists for the
-- steered contract, and the faithfulness gate's PASS rests on a re-checked certificate, a decisive
-- probe, or the judge on an open-form claim.
pub formalize-IsSurvivor :
    (f : Formalize) (prop after : Propositio)
    → formalize f prop ≡ returned (after, true)
    → IsSurvivor f prop after
unfolding formalize
formalize-IsSurvivor f prop after h =
    let (draft, drafted, h1) =
      >>=-eq-returned (f.provider.propose Role.formalize prop.enuntiatio.statement) _ h in
    let compiled =
      compile_with_repair f.os f.provider f.lean prop.enuntiatio.statement
        (parse_expressio f.os draft) f.max_repairs in
    elim (Bool-cases compiled.1) [
      | inr failed ↦ absurd (ground arith)
      | inl ok ↦
          let run : (formalized f prop compiled.0 >>= judge f) ≡ returned (after, true) =
            ground arith in
          let (stated, by_statement, judged) =
            >>=-eq-returned (formalized f prop compiled.0) _ run in
          let (clean, novel) = judge-unrefuted f stated after judged in
          record {
            compiled = compiled;
            draft = draft;
            drafted = drafted;
            by_compiler = refl;
            compiles = ok;
            stated = stated;
            by_statement = by_statement;
            not_refuted = clean;
            novel = novel;
          }
    ]
