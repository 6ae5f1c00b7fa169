-- ===== src/Daemon/Settling.antt =====
-- What settling a candidate writes into the report, whether it returns or raises.
use leibniz_daemon.Common.{
  Dict, ◌≢◌, ◌⊎◌, sym, subst, str_eq, eq_iff, lookup-insert, ℕ, ◌+◌, String, Bool, true, false, ◌≡◌,
  refl, Option, none, some, arith, Outcome, raised, returned, Outcome-cases, inl, inr, ◌∙◌, ap,
  lookup, insert,
}
use leibniz_daemon.Types.{FinishReason, finish_reason_value}
use leibniz_daemon.Propositio.{Propositio}
use leibniz_daemon.Selection.{descriptor}
use leibniz_daemon.Runtime.{remember}
use leibniz_daemon.Notebook.{Notebook, kernel_proved}
use leibniz_daemon.Daemon.{
  Leibniz, State, CycleReport, reason_of, tally, count, settle, consider_task, remember_task, learn,
  Task, note_outcome, note_proved, in_report, counted,
}
use leibniz_daemon.Daemon.Tasks.{modify, followed}

-- What follows leaves the report as it is, where the call and the rest do.
followed-report :
    {A B : Type 0} (report : CycleReport) (r : State × Outcome A) (f : A → Task B)
    → r.0.report ≡ report
    → ((a : A) (t : State) → (f a t).0.report ≡ t.report)
    → (followed r f).0.report ≡ report
followed-report report (t, raised) f e k = e
followed-report report (t, returned a) f e k = k a t ∙ e

consider_task-report :
    (d : Leibniz) (prop : Propositio) (s : State) → (consider_task d prop s).0.report ≡ s.report
unfolding consider_task
consider_task-report d prop s = elim (Outcome-cases (descriptor d.hash8 prop)) [
  | inl e ↦ rw e refl
  | inr (bd, e) ↦ rw e refl
]

remember_task-report : (prop : Propositio) (s : State) → (remember_task prop s).0.report ≡ s.report
unfolding remember_task
remember_task-report prop s = elim (Outcome-cases (remember s.runtime s.clock prop s.ledger)) [
  | inl e ↦ rw e refl
  | inr (r, e) ↦ rw e refl
]

note_outcome-report :
    (prop : Propositio) (reason : FinishReason) (nb : Option Notebook) (s : State)
    → (note_outcome prop reason nb s).0.report ≡ s.report
note_outcome-report prop reason none s = refl
note_outcome-report prop reason (some nb) s = refl

note_proved-report : (proved : Bool) (s : State) → (note_proved proved s).report ≡ s.report
note_proved-report proved s = ground arith

learn-report :
    (prop : Propositio) (reason : FinishReason) (s : State)
    → (learn prop reason s).0.report ≡ s.report
unfolding learn
learn-report prop reason s =
    followed-report s.report (note_outcome prop reason s.notebook s)
      (λ u. modify (note_proved (kernel_proved prop)))
      (note_outcome-report prop reason s.notebook s) (λ u. note_proved-report (kernel_proved prop))

pub settle_report :
    (d : Leibniz) (prop : Propositio) (s : State)
    → (settle d prop s).0.report ≡ tally (reason_of prop) s.report
unfolding settle
settle_report d prop s =
    let t = in_report (tally (reason_of prop)) s in
    followed-report t.report (consider_task d prop t) _ (consider_task-report d prop t) (λ placed u.
      followed-report u.report (remember_task placed u) (λ _. learn placed (reason_of prop))
        (remember_task-report placed u) (λ _. learn-report placed (reason_of prop)))

-- One more outcome under this key, and no other.
pub record IsCounted (key : String) (before after : Dict ℕ) : Type 0 where
  pub first : lookup key before ≡ none → lookup key after ≡ some 1
  pub more : (n : ℕ) → lookup key before ≡ some n → lookup key after ≡ some (n + 1)
  pub others : (other : String) → other ≢ key → lookup other after ≡ lookup other before

pub insert-IsCounted :
    (key : String) (d after : Dict ℕ)
    → after ≡ insert key (counted (lookup key d)) d
    → IsCounted key d after
insert-IsCounted key d after grown =
    let looked = λ (other : String).
      ap (lookup other) grown ∙ lookup-insert key other (counted (lookup key d)) d in
    let own : str_eq key key ≡ true = (eq_iff key key).1 refl in
    record {
      first = λ e. looked key ∙ rw (own, e) refl;
      more = λ n e. looked key ∙ rw (own, e) refl;
      others = λ other apart.
          let differ : str_eq key other ≡ false = ground (arith, eq_iff key other) in
          looked other ∙ rw differ refl;
    }

-- One more outcome with this reason, and one more law where the reason is that of a law.
pub record IsTallied (reason : FinishReason) (before after : CycleReport) : Type 0 where
  pub outcome : IsCounted (finish_reason_value reason) before.by_reason after.by_reason
  pub law : reason ≡ FinishReason.promulgated → after.promulgated ≡ before.promulgated + 1
  pub no_law : reason ≢ FinishReason.promulgated → after.promulgated ≡ before.promulgated
  pub seeds : after.seeds ≡ before.seeds
  pub conjectured : after.conjectured ≡ before.conjectured
  pub reached_proof : after.reached_proof ≡ before.reached_proof

tally_lem :
    (reason : FinishReason) (r : CycleReport)
    → ((tally reason r).by_reason
        ≡ insert
            (finish_reason_value reason)
            (counted (lookup (finish_reason_value reason) r.by_reason))
            r.by_reason)
      × ((tally reason r).seeds ≡ r.seeds)
      × ((tally reason r).conjectured ≡ r.conjectured)
      × ((tally reason r).reached_proof ≡ r.reached_proof)
unfolding tally count
tally_lem reason r = ground arith

tally_laws :
    (reason : FinishReason) (r : CycleReport)
    → (reason ≡ FinishReason.promulgated → (tally reason r).promulgated ≡ r.promulgated + 1)
      × (reason ≢ FinishReason.promulgated → (tally reason r).promulgated ≡ r.promulgated)
unfolding tally count
tally_laws reason r = ground arith

pub tally-IsTallied :
    (reason : FinishReason) (r : CycleReport) → IsTallied reason r (tally reason r)
tally-IsTallied reason r =
    let (grown, seeds, conjectured, reached) = tally_lem reason r in
    let (law, no_law) = tally_laws reason r in
    record {
      outcome = insert-IsCounted (finish_reason_value reason) r.by_reason _ grown;
      law = law;
      no_law = no_law;
      seeds = seeds;
      conjectured = conjectured;
      reached_proof = reached;
    }

-- Settling a candidate counts one more outcome under the text of its reason, which is that it is
-- unproven where it has none, and one more law exactly where the reason is that of a law; nothing
-- else of the report changes, whether the settling returns or raises.
pub settle-IsTallied :
    (d : Leibniz) (prop : Propositio) (s : State) (reason : FinishReason)
    → (prop.finish_reason ≡ some reason)
      ⊎ ((prop.finish_reason ≡ none) × (reason ≡ FinishReason.unproven))
    → IsTallied reason s.report (settle d prop s).0.report
settle-IsTallied d prop s reason h =
    let same : reason_of prop ≡ reason = ground arith in
    subst (IsTallied reason s.report)
      (sym (settle_report d prop s ∙ ap (λ r. tally r s.report) same))
      (tally-IsTallied reason s.report)
