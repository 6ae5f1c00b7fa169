-- ===== src/Cycles.antt =====
-- leibniz/daemon.py, `run_cycles`: circadian cycles, each with its own seeds and its own report, under
-- a cost ceiling. What the providers meter while a cycle's seeds run is a field (`metered`), read off
-- the states before and after; saving the controller and the notebook may raise.
pub mod Seeds
pub mod Stops
use leibniz_daemon.Common.{
  ℕ, zero, suc, ◌+◌, ◌*◌, ◌==◌, String, Bool, true, false, ◌||◌, Option, none, some, List, [], ◌∷◌,
  leb, ltb, if◌then◌else◌, length, Outcome, raised, returned,
}
use leibniz_daemon.Cost.{Price, Usage, CostBudget, record_all, record_calls, exhausted}
use leibniz_daemon.Frontier.{Frontier, update}
use leibniz_daemon.Notebook.{Notebook}
use leibniz_daemon.Pipeline.{Leonardo, survey}
use leibniz_daemon.Daemon.{CycleReport, State, Leibniz, run_seeds}
use leibniz_daemon.Daemon.Tasks.{followed, ◌>>=◌, ◌>>◌, lift, modify, get, done}
use leibniz_daemon.Cycles.Seeds.{Seeding, next_seeds, domain_of_cycle}

pub record Cycling : Type 0 where
  pub daemon : Leibniz
  pub seeding : Seeding
  pub env_override : String → Option Price
  pub metered : State → State → List Usage
  pub save_frontier : Frontier → Outcome (Unit {0})
  pub save_notebook : Notebook → Outcome (Unit {0})
  pub fresh_per_cycle : ℕ
  pub recombine_k : ℕ
  pub stagnation_limit : ℕ

-- What `run_cycles` keeps between cycles. There is no coverage before the first (-1 in the source).
pub record Loop : Type 0 where
  pub state : State
  pub cost : Option CostBudget
  pub prev_coverage : Option ℕ
  pub stagnant : ℕ

abbrev pub Step : Type 0 → Type 0
Step A = Loop → Loop × Outcome A

-- `CycleReport()`, with the number of its seeds
abbrev pub report_for : List String → CycleReport
report_for seeds = record {
  seeds = length seeds;
  conjectured = 0;
  reached_proof = 0;
  promulgated = 0;
  by_reason = [];
}

abbrev pub near_misses : Option Notebook → Option (List String)
near_misses none = none
near_misses (some nb) = some nb.too_hard

-- `i == 0 or stagnant >= stagnation_limit`
abbrev pub fresh_only : Cycling → ℕ → Loop → Bool
fresh_only c i l = (i == 0) || leb c.stagnation_limit l.stagnant

unfoldable pub draw_seeds : Cycling → ℕ → Loop → Outcome (List String)
draw_seeds c i l =
    next_seeds c.seeding l.state.archive (near_misses l.state.notebook) (fresh_only c i l)
      c.fresh_per_cycle c.recombine_k (domain_of_cycle c.seeding i)

-- The account after a cycle: what the providers metered, and then the coarse estimate.
abbrev pub account : Cycling → State → State → Option CostBudget → Option CostBudget
account c before after none = none
account c before after (some budget) = some (
    record_calls (after.report.conjectured * 2 + after.report.reached_proof * 4)
      (record_all c.env_override (c.metered before after) budget))

-- The seeds of a cycle, run.
unfoldable pub run_cycle_seeds : Cycling → List String → Loop → Loop
run_cycle_seeds c seeds l =
    let before = record l.state { report = report_for seeds } in
    let after = run_seeds c.daemon seeds before in
    record l { state = after; cost = account c before after l.cost }

abbrev pub grown : Option ℕ → ℕ → Bool
grown none coverage = true
grown (some prev) coverage = ltb prev coverage

unfoldable pub note_coverage : Loop → Loop
note_coverage l =
    let coverage = length l.state.archive.cells in
    record l {
      stagnant = if grown l.prev_coverage coverage then 0 else l.stagnant + 1;
      prev_coverage = some coverage;
    }

unfoldable pub retune : Loop → Loop
retune l = elim l.state.frontier [
  | none ↦ l
  | some f ↦ record l { state = record l.state { frontier = some (update f) } }
]

abbrev pub saved : {A : Type 0} → (A → Outcome (Unit {0})) → Option A → Outcome (Unit {0})
saved save none = returned tt
saved save (some x) = save x

-- The body of the loop.
unfoldable pub cycle : Cycling → ℕ → Step CycleReport
cycle c i = do
  l ← get
  seeds ← lift (draw_seeds c i l)
  modify (run_cycle_seeds c seeds)
  modify note_coverage
  modify retune
  l' ← get
  lift (saved c.save_frontier l'.state.frontier)
  lift (saved c.save_notebook l'.state.notebook)
  lift (returned l'.state.report)

unfoldable pub out_of_budget : Loop → Bool
out_of_budget l = elim l.cost [ none ↦ false | some budget ↦ exhausted budget ]

-- The cycles that are left, from the `i`-th on.
unfoldable pub cycles_from : Cycling → ℕ → ℕ → Step (List CycleReport)
cycles_from c zero i l = (l, returned [])
cycles_from c (suc n) i l = elim (out_of_budget l) [
  | true ↦ (l, returned [])
  | false ↦
      followed (cycle c i l)
        (λ report. cycles_from c n (i + 1) >>= λ rest. lift (returned (report ∷ rest)))
]

-- `run_cycles`
unfoldable pub run_cycles :
    Cycling → ℕ → State → Option CostBudget → Loop × Outcome (List CycleReport)
run_cycles c n state cost =
    cycles_from c n 0 (record { state = state; cost = cost; prev_coverage = none; stagnant = 0 })

-- `circadian_cycle`
unfoldable pub circadian_cycle : Leibniz → Leonardo → String → State → State × Outcome CycleReport
circadian_cycle d leonardo domain s = elim (survey leonardo domain) [
  | raised ↦ (s, raised)
  | returned seeds ↦
      let after = run_seeds d seeds (record s { report = report_for seeds }) in
      (after, returned after.report)
]
