-- ===== src/Daemon/Rows.antt =====
-- The ledger's promulgated rows, where a candidate is settled.
use leibniz_daemon.Common.{
  ℕ, String, Bool, true, not, ◌≡◌, refl, Option, none, some, [], ◌∷◌, ◌++◌, All, keep, arith,
  Outcome, raised, returned, Option-cases, Bool-cases, Outcome-cases, inl, inr, subst, sym, ◌∙◌, ap,
  >>=-eq-returned, str_eq,
}
use leibniz_daemon.Types.{FinishReason, finish_reason_value}
use leibniz_daemon.Types.Values.{finish_reason_of, finish_reason_of-finish_reason_value}
use leibniz_daemon.Propositio.{Propositio}
use leibniz_daemon.Selection.{descriptor}
use leibniz_daemon.Runtime.{Row, Ledger, Runtime, remember, to_row, upsert, open_db}
use leibniz_daemon.Notebook.{Notebook, kernel_proved}
use leibniz_daemon.Daemon.{
  Leibniz, State, settle, consider_task, remember_task, learn, Task, note_outcome, note_proved,
  reason_of,
}
use leibniz_daemon.Daemon.Promotions.{IsQed}
use leibniz_daemon.Daemon.Tasks.{modify, followed}

-- A row that says PROMULGATED holds the kernel's stamp and its seal.
abbrev pub IsQedRow : Row → Type 0
IsQedRow row =
    row.finish_reason ≡ some "promulgated" → (row.kernel_verified ≡ true) × (row.qed ≡ "Q.E.D.")

-- A candidate that says PROMULGATED holds a stamped demonstration.
abbrev pub Honest : Propositio → Type 0
Honest prop = prop.finish_reason ≡ some FinishReason.promulgated → IsQed prop

value_promulgated :
    (reason : FinishReason)
    → finish_reason_value reason ≡ "promulgated"
    → some reason ≡ some FinishReason.promulgated
unfolding finish_reason_value
value_promulgated reason h =
    sym (finish_reason_of-finish_reason_value reason)
    ∙ ap finish_reason_of h
    ∙ finish_reason_of-finish_reason_value FinishReason.promulgated

to_row-IsQedRow :
    (name : String) (now : ℕ) (prop : Propositio) → Honest prop → IsQedRow (to_row name now prop)
unfolding to_row
to_row-IsQedRow name now prop h e = elim (Option-cases prop.finish_reason) [
  | inl open' ↦ absurd (ground arith)
  | inr (reason, has) ↦
      let said : finish_reason_value reason ≡ "promulgated" = ground arith in
      let q = h (has ∙ value_promulgated reason said) in rw q.has_demo (q.stamp, q.seal)
]

keep-IsQedRow : (p : Row → Bool) (rows : Ledger) → All IsQedRow rows → All IsQedRow (keep p rows)
keep-IsQedRow p [] h = tt
keep-IsQedRow p (r ∷ rows) h = elim (Bool-cases (p r)) [
  | inl y ↦ rw y (h.0, keep-IsQedRow p rows h.1)
  | inr n ↦ rw n (keep-IsQedRow p rows h.1)
]

snoc-IsQedRow :
    (rows : Ledger) (row : Row) → All IsQedRow rows → IsQedRow row → All IsQedRow (rows ++ row ∷ [])
snoc-IsQedRow [] row h q = (q, tt)
snoc-IsQedRow (r ∷ rows) row h q = (h.0, snoc-IsQedRow rows row h.1 q)

remember-rows :
    (rt : Runtime) (now : ℕ) (prop : Propositio) (rows : Ledger) (r : Runtime × Ledger)
    → remember rt now prop rows ≡ returned r
    → r.1 ≡ upsert (to_row rt.instance_name now prop) rows
unfolding remember
remember-rows rt now prop rows r h =
    let (rt', opened, e) = >>=-eq-returned (open_db rt rows) _ h in cc e

upsert-IsQedRow :
    (row : Row) (rows : Ledger) → All IsQedRow rows → IsQedRow row → All IsQedRow (upsert row rows)
unfolding upsert
upsert-IsQedRow row rows h q =
    snoc-IsQedRow _ row (keep-IsQedRow (λ (r : Row). not (str_eq r.pid row.pid)) rows h) q

-- What follows a call, where the call and the rest keep the rows.
followed-rows :
    {A B : Type 0} (r : State × Outcome A) (f : A → Task B)
    → All IsQedRow r.0.ledger
    → ((a : A) (t : State) → All IsQedRow t.ledger → All IsQedRow (f a t).0.ledger)
    → All IsQedRow (followed r f).0.ledger
followed-rows (t, raised) f h k = h
followed-rows (t, returned a) f h k = k a t h

remember_task-rows :
    (prop : Propositio) (s : State)
    → Honest prop
    → All IsQedRow s.ledger
    → All IsQedRow (remember_task prop s).0.ledger
unfolding remember_task
remember_task-rows prop s h rows = elim (Outcome-cases (remember s.runtime s.clock prop s.ledger)) [
  | inl e ↦ rw e rows
  | inr (r, e) ↦ rw e (
      subst (All IsQedRow) (sym (remember-rows s.runtime s.clock prop s.ledger r e)) (
        upsert-IsQedRow (to_row s.runtime.instance_name s.clock prop) s.ledger rows
          (to_row-IsQedRow s.runtime.instance_name s.clock prop h)))
]

note_outcome-ledger :
    (prop : Propositio) (reason : FinishReason) (nb : Option Notebook) (s : State)
    → (note_outcome prop reason nb s).0.ledger ≡ s.ledger
note_outcome-ledger prop reason none s = refl
note_outcome-ledger prop reason (some nb) s = refl

note_proved-ledger : (proved : Bool) (s : State) → (note_proved proved s).ledger ≡ s.ledger
note_proved-ledger proved s = ground arith

learn-rows :
    (prop : Propositio) (reason : FinishReason) (s : State)
    → All IsQedRow s.ledger
    → All IsQedRow (learn prop reason s).0.ledger
unfolding learn
learn-rows prop reason s rows =
    followed-rows (note_outcome prop reason s.notebook s)
      (λ u. modify (note_proved (kernel_proved prop)))
      (subst (All IsQedRow) (sym (note_outcome-ledger prop reason s.notebook s)) rows)
      (λ u t h. subst (All IsQedRow) (sym (note_proved-ledger (kernel_proved prop) t)) h)

pub settle-rows :
    (d : Leibniz) (prop : Propositio) (s : State)
    → Honest prop
    → All IsQedRow s.ledger
    → All IsQedRow (settle d prop s).0.ledger
unfolding settle consider_task
settle-rows d prop s h rows = elim (Outcome-cases (descriptor d.hash8 prop)) [
  | inl e ↦ rw e rows
  | inr (bd, e) ↦
      let placed = record prop { behavior_descriptor = bd } in
      let honest : Honest placed = λ said.
        let q = h said in
        record { demo = q.demo; has_demo = q.has_demo; stamp = q.stamp; seal = q.seal } in
      rw e (
        followed-rows (remember_task placed _) (λ _. learn placed (reason_of prop))
          (remember_task-rows placed _ honest rows) (λ _ t. learn-rows placed (reason_of prop) t))
]
