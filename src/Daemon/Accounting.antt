-- ===== src/Daemon/Accounting.antt =====
-- Every seed leaves a trace in the report.
use leibniz_daemon.Common.{
  some, sym, subst, suc, ◌⊎◌, ℕ, ◌+◌, String, ◌≡◌, refl, List, [], ◌∷◌, arith, Outcome, raised,
  returned, inl, ◌∙◌, ap, Dict, lookup, insert, lookup-cons, insert-cons, insert-nil, lookup-nil,
}
use leibniz_daemon.Types.{FinishReason, finish_reason_value}
use leibniz_daemon.Propositio.{Propositio}
use leibniz_daemon.Daemon.{
  Leibniz, State, CycleReport, reason_of, tally, count, settle, attempt_seed, run_seed, or_errored,
  counted,
}
use leibniz_daemon.Daemon.Settling.{
  settle_report, IsCounted, insert-IsCounted, IsTallied, settle-IsTallied,
}

-- All that the report has counted.
abbrev pub total : Dict ℕ → ℕ
total [] = 0
total ((key, n) ∷ rest) = n + total rest

total-insert :
    (key : String) (d : Dict ℕ) → total (insert key (counted (lookup key d)) d) ≡ total d + 1
total-insert key [] = rw (insert-nil key (counted (lookup key [])), lookup-nil {V = ℕ} key) refl
total-insert key ((k, n) ∷ rest) =
    ap total (insert-cons key k (counted (lookup key ((k, n) ∷ rest))) n rest)
    ∙ rw (lookup-cons key k n rest) (ground (arith, total-insert key rest))

total-count :
    (key : String) (r : CycleReport) → total (count key r).by_reason ≡ total r.by_reason + 1
unfolding count
total-count key r = total-insert key r.by_reason

total-tally :
    (reason : FinishReason) (r : CycleReport)
    → total (tally reason r).by_reason ≡ total r.by_reason + 1
unfolding tally count
total-tally reason r = ground (arith, total-insert (finish_reason_value reason) r.by_reason)

-- The settling of some candidate raises.
abbrev pub SettlingRaises : Leibniz → Type 0
SettlingRaises d = (prop : Propositio) × (t : State) × ((settle d prop t).1 ≡ raised)

-- One more than `low` where the call returned; where it raised, `low`, or one more where it is the
-- settling that raised.
abbrev Traced : Leibniz → ℕ → State × Outcome (Unit {0}) → Type 0
Traced d low (s, returned _) = total s.report.by_reason ≡ low + 1
Traced d low (s, raised) =
    (total s.report.by_reason ≡ low) ⊎ ((total s.report.by_reason ≡ low + 1) × SettlingRaises d)

-- A seed is counted once; or twice, where the settling of a candidate raised.
abbrev pub CountsOnce : Leibniz → String → State → Type 0
CountsOnce d seed s = total (run_seed d seed s).report.by_reason ≡ total s.report.by_reason + 1

abbrev pub CountsTwice : Leibniz → String → State → Type 0
CountsTwice d seed s =
    (total (run_seed d seed s).report.by_reason ≡ total s.report.by_reason + 2) × SettlingRaises d

-- A run of seeds, with the number of those that are counted twice.
pub data CountedTwice (d : Leibniz) : List String → State → ℕ → Type 0 where
  nothing : {s : State} → CountedTwice d [] s 0
  once :
      {seed : String} {seeds : List String} {s : State} {k : ℕ}
      → CountsOnce d seed s
      → CountedTwice d seeds (run_seed d seed s) k
      → CountedTwice d (seed ∷ seeds) s k
  twice :
      {seed : String} {seeds : List String} {s : State} {k : ℕ}
      → CountsTwice d seed s
      → CountedTwice d seeds (run_seed d seed s) k
      → CountedTwice d (seed ∷ seeds) s (suc k)

abbrev CountsUnderBoth : FinishReason → Dict ℕ → Dict ℕ → Type 0
CountsUnderBoth reason before after =
    (between : Dict ℕ) × IsCounted (finish_reason_value reason) before between
    × IsCounted "errored" between after
    × (total after ≡ total before + 2)

-- A seed whose attempt comes to settling a candidate that has a reason, with nothing counted before,
-- and whose settling raises, is counted twice: under the text of that reason, and then as errored.
pub run_seed-counts_twice :
    (d : Leibniz) (seed : String) (s t : State) (prop : Propositio) (reason : FinishReason)
    → attempt_seed d seed s ≡ settle d prop t
    → t.report.by_reason ≡ s.report.by_reason
    → (settle d prop t).1 ≡ raised
    → prop.finish_reason ≡ some reason
    → (between : Dict ℕ) × IsCounted (finish_reason_value reason) s.report.by_reason between
      × IsCounted "errored" between (run_seed d seed s).report.by_reason
      × (total (run_seed d seed s).report.by_reason ≡ total s.report.by_reason + 2)
unfolding run_seed count
run_seed-counts_twice d seed s t prop reason comes fresh fails named =
    subst
      (λ (r : State × Outcome (Unit {0})).
        CountsUnderBoth reason s.report.by_reason (or_errored r).report.by_reason)
      (sym comes)
      (at (settle d prop t) (settle-IsTallied d prop t reason (inl named)) (settle_report d prop t)
        fails)
  where
    at :
        (r : State × Outcome (Unit {0}))
        → IsTallied reason t.report r.0.report
        → r.0.report ≡ tally (reason_of prop) t.report
        → r.1 ≡ raised
        → CountsUnderBoth reason s.report.by_reason (or_errored r).report.by_reason
    at (u, returned x) h same e = cc e
    at (u, raised) h same e = (
      u.report.by_reason,
      subst (λ b. IsCounted (finish_reason_value reason) b u.report.by_reason) fresh h.outcome,
      insert-IsCounted "errored" u.report.by_reason _ refl,
      omega (
        arith,
        total-count "errored" u.report,
        ap (λ (r : CycleReport). total r.by_reason) same,
        total-tally (reason_of prop) t.report,
        ap total fresh,
      ),
    )
