-- ===== src/Pipeline/Reasons.antt =====
-- No stage before the promotion gives a candidate the reason PROMULGATED.
use leibniz_daemon.Common.{
  true, some, Bool, ◌≡◌, refl, ◌≢◌, some, arith, returned, ◌>>=◌, Option-cases, Bool-cases, inl,
  inr, >>=-eq-returned,
}
use leibniz_daemon.Types.{EdgeEvidence, Verdict, pass, fail, defer, is_fail, FinishReason, Role}
use leibniz_daemon.Propositio.{Propositio, Expressio, record_edge}
use leibniz_daemon.Verifiers.{cheap_refute}
use leibniz_daemon.Gates.Novelty.{
  NoveltyGate, check_with as novelty_with, check as novelty_check, revalidate,
}
use leibniz_daemon.Gates.Faithfulness.{FaithfulnessGate, check as faithfulness_check}
use leibniz_daemon.Gates.Faithfulness.Grounds.{
  Grounds, by_certificate, by_probe, by_judge, IsSettled, check_with_rests,
}
use leibniz_daemon.Pipeline.Steering.Guards.{steer_contract-faithful}
use leibniz_daemon.Pipeline.{
  Formalize, steer_contract, judge_faithfulness, judge_novelty, judge, formalized, formalize,
  compile_with_repair, parse_expressio, normalized_hash_of, signature_of,
}

abbrev pub Unpromoted : Propositio → Type 0
Unpromoted prop = prop.finish_reason ≢ some FinishReason.promulgated

novelty_check-Unpromoted :
    (g : NoveltyGate) (prop : Propositio) (r : Propositio × EdgeEvidence)
    → novelty_check g prop ≡ returned r
    → Unpromoted prop
    → Unpromoted r.0
unfolding novelty_check novelty_with
novelty_check-Unpromoted g prop r h u = ground arith

pub revalidate-Unpromoted :
    (g : NoveltyGate) (prop : Propositio) → Unpromoted prop → Unpromoted (revalidate g prop).0
unfolding revalidate
revalidate-Unpromoted g prop u = ground arith

Grounds-Unpromoted :
    (g : FaithfulnessGate) (prop : Propositio) (expr : Expressio) (after : Propositio)
    (ev : EdgeEvidence)
    → Grounds g prop expr after ev
    → Unpromoted prop
    → Unpromoted after
Grounds-Unpromoted g prop expr after ev (by_certificate b v a c k t) u = ground arith
Grounds-Unpromoted g prop expr after ev (by_probe p h s k t) u = ground arith
Grounds-Unpromoted g prop expr after ev (by_judge c h k t) u = ground arith

settled-Unpromoted :
    (g : FaithfulnessGate) (prop : Propositio) (expr : Expressio) (after : Propositio)
    (ev : EdgeEvidence) (v : Verdict)
    → ev.verdict ≡ v
    → IsSettled g prop expr after ev
    → Unpromoted prop
    → Unpromoted after
settled-Unpromoted g prop expr after ev pass e s u =
    Grounds-Unpromoted g prop expr after ev (s.on_pass e) u
settled-Unpromoted g prop expr after ev fail e s u = let k = s.on_fail e in ground arith
settled-Unpromoted g prop expr after ev defer e s u = let (k, _) = s.on_defer e in ground arith

faithfulness_check-Unpromoted :
    (g : FaithfulnessGate) (prop : Propositio) (r : Propositio × EdgeEvidence)
    → faithfulness_check g prop ≡ returned r
    → Unpromoted prop
    → Unpromoted r.0
unfolding faithfulness_check
faithfulness_check-Unpromoted g prop (after, ev) h u = elim (Option-cases prop.expressio) [
  | inl lacks ↦ absurd (ground arith)
  | inr (expr, has) ↦ elim (check_with_rests g prop expr after ev has (ground arith)) [
    | inl (w, f, t, k) ↦ ground arith
    | inr (clean, s) ↦ settled-Unpromoted g prop expr after ev ev.verdict refl s u
  ]
]

module _ (f : Formalize) (prop : Propositio) (r : Propositio × Bool) where
  judge_faithfulness-Unpromoted :
      judge_faithfulness f prop ≡ returned r → Unpromoted prop → Unpromoted r.0
  unfolding judge_faithfulness
  judge_faithfulness-Unpromoted h u =
      let (q, steered, h1) =
        >>=-eq-returned (steer_contract f.os f.provider f.smt f.max_contract_repairs prop) _ h in
      let ((s, ev), checked, h2) = >>=-eq-returned (faithfulness_check f.faithfulness q) _ h1 in
      let kept : Unpromoted q =
        elim (steer_contract-faithful f.os f.provider f.smt f.max_contract_repairs prop q steered) [
          | inl same ↦ ground arith
          | inr (e, c, o, he, hp, hf, k) ↦ ground arith
        ] in
      let last = faithfulness_check-Unpromoted f.faithfulness q (s, ev) checked kept in ground arith

module _ (f : Formalize) (prop : Propositio) (r : Propositio × Bool) where
  judge_novelty-Unpromoted : judge_novelty f prop ≡ returned r → Unpromoted prop → Unpromoted r.0
  unfolding judge_novelty
  judge_novelty-Unpromoted h u =
      let ((q, ev), checked, h1) = >>=-eq-returned (novelty_check f.novelty prop) _ h in
      let kept = novelty_check-Unpromoted f.novelty prop (q, ev) checked u in
      elim (Bool-cases (is_fail ev.verdict)) [
        | inl failed ↦ ground arith
        | inr went ↦ judge_faithfulness-Unpromoted f (record_edge ev q) r (ground arith) kept
      ]

module _ (f : Formalize) (prop : Propositio) (r : Propositio × Bool) where
  judge-Unpromoted : judge f prop ≡ returned r → Unpromoted prop → Unpromoted r.0
  unfolding judge
  judge-Unpromoted h u =
      let cr = cheap_refute f.smt prop.enuntiatio.falsifiable_claim 64 in
      elim (Bool-cases (is_fail cr.verdict)) [
        | inl failed ↦ ground arith
        | inr went ↦ judge_novelty-Unpromoted f (record_edge cr prop) r (ground arith) u
      ]

formalized-Unpromoted :
    (f : Formalize) (prop : Propositio) (expr : Expressio) (after : Propositio)
    → formalized f prop expr ≡ returned after
    → Unpromoted prop
    → Unpromoted after
unfolding formalized
formalized-Unpromoted f prop expr after h u =
    let expr' = record expr {
      compiles = some true;
      normalized_hash = normalized_hash_of f.os f.lean expr;
    } in
    let (sig, signed, h1) = >>=-eq-returned (signature_of f.os prop expr') _ h in ground arith

pub formalize-Unpromoted :
    (f : Formalize) (prop : Propositio) (r : Propositio × Bool)
    → formalize f prop ≡ returned r
    → Unpromoted prop
    → Unpromoted r.0
unfolding formalize
formalize-Unpromoted f prop r h u =
    let (draft, drafted, h1) =
      >>=-eq-returned (f.provider.propose Role.formalize prop.enuntiatio.statement) _ h in
    let compiled =
      compile_with_repair f.os f.provider f.lean prop.enuntiatio.statement
        (parse_expressio f.os draft) f.max_repairs in
    elim (Bool-cases compiled.1) [
      | inr failed ↦ ground arith
      | inl ok ↦
          let run : (formalized f prop compiled.0 >>= judge f) ≡ returned r = ground arith in
          let (stated, by_statement, judged) =
            >>=-eq-returned (formalized f prop compiled.0) _ run in
          judge-Unpromoted f stated r judged
            (formalized-Unpromoted f prop compiled.0 stated by_statement u)
    ]
