-- ===== src/Daemon.antt =====
-- leibniz/daemon.py: the circadian cycle over its seeds. The state is all that a seed's run writes:
-- the report, the budget, the archive, the ledger with its connection, and what the proposal side
-- has learned. The text that conditions a conjecture (`steer`) and the quality of a candidate are
-- fields, as are the clock and the identities that a new candidate draws.
pub mod Tasks
pub mod Promotions
pub mod Settling
pub mod Accounting
pub mod Rows
pub mod Run
use leibniz_daemon.Common.{
  ◌==◌, ℕ, ◌+◌, ◌-◌, String, Bool, true, false, not, ◌&&◌, Option, none, some, List, [], ◌∷◌, ◌++◌,
  if◌then◌else◌, any, Dict, lookup, insert, length, drop, Outcome, raised, returned,
}
use leibniz_daemon.Types.{
  EdgeEvidence, FinishReason, unproven, over_budget, finish_reason_value, Item,
}
use leibniz_daemon.Trust.{proof_edge, on_edge}
use leibniz_daemon.Propositio.{Propositio, record_edge, quarantine}
use leibniz_daemon.Budget.{TrustBudget, try_admit}
use leibniz_daemon.Verifiers.{LeanBackend}
use leibniz_daemon.Gates.Novelty.{revalidate}
use leibniz_daemon.Gates.Verification.{Law, is_promotable}
use leibniz_daemon.Consensus.{ProofConsensus, demonstrate as demonstrate_by_consensus}
use leibniz_daemon.Pipeline.{
  Platform, Provider, Formalize, item_truthy, conjecture, formalize, derive, demonstrate,
  promulgate,
}
use leibniz_daemon.Selection.{Archive, consider, descriptor, starts_with, occurs_in}
use leibniz_daemon.Notebook.{Notebook, record_outcome, kernel_proved}
use leibniz_daemon.Frontier.{Frontier, record_proved}
use leibniz_daemon.Runtime.{Runtime, Ledger, remember}
use leibniz_daemon.Daemon.Tasks.{◌>>=◌, ◌>>◌, lift, modify, get, done}

pub record CycleReport : Type 0 where
  pub seeds : ℕ
  pub conjectured : ℕ
  pub reached_proof : ℕ
  pub promulgated : ℕ
  pub by_reason : Dict ℕ

pub record State : Type 0 where
  pub report : CycleReport
  pub budget : Option TrustBudget
  pub archive : Archive
  pub runtime : Runtime
  pub ledger : Ledger
  pub notebook : Option Notebook
  pub frontier : Option Frontier
  pub clock : ℕ

-- The proof stage: one draft of the provider's, or the ensemble.
pub data Prover : Type 0 where
  single : LeanBackend → Prover
  ensemble : ProofConsensus → Prover

pub record Leibniz : Type 0 where
  pub os : Platform
  pub hash8 : String → ℕ
  pub fresh : ℕ → String
  pub provider : Provider
  pub formalizer : Formalize
  pub prover : Prover
  pub law : Law
  pub steer : State → String → String
  pub quality : Propositio → ℕ

abbrev pub counted : Option ℕ → ℕ
counted none = 1
counted (some n) = n + 1

unfoldable pub count : String → CycleReport → CycleReport
count key r = record r { by_reason = insert key (counted (lookup key r.by_reason)) r.by_reason }

abbrev pub in_report : (CycleReport → CycleReport) → State → State
in_report f s = record s { report = f s.report }

abbrev pub reason_of : Propositio → FinishReason
reason_of prop = elim prop.finish_reason [ none ↦ unproven | some reason ↦ reason ]

-- `CycleReport.tally`, and the count of the laws.
unfoldable pub tally : FinishReason → CycleReport → CycleReport
unfolding count
tally FinishReason.promulgated r =
    let r' = count (finish_reason_value FinishReason.promulgated) r in
    record r' { promulgated = r'.promulgated + 1 }
tally reason r = count (finish_reason_value reason) r

abbrev pub Task : Type 0 → Type 0
Task A = State → State × Outcome A

unfoldable pub consider_task : Leibniz → Propositio → Task Propositio
consider_task d prop = do
  bd ← lift (descriptor d.hash8 prop)
  let placed = record prop { behavior_descriptor = bd }
  modify (λ s. record s { archive = (consider s.archive placed (d.quality prop)).0 })
  lift (returned placed)

unfoldable pub remember_task : Propositio → Task (Unit {0})
remember_task prop = do
  s ← get
  r ← lift (remember s.runtime s.clock prop s.ledger)
  modify (λ s'. record s' { runtime = r.0; ledger = r.1 })

abbrev pub note_outcome : Propositio → FinishReason → Option Notebook → Task (Unit {0})
note_outcome prop reason none s = done s
note_outcome prop reason (some nb) s =
    let (nb', ended) = record_outcome nb prop (some reason) in
    (record s { notebook = some nb' }, ended)

abbrev pub note_proved : Bool → State → State
note_proved proved s = elim s.frontier [
  | none ↦ s
  | some f ↦ record s { frontier = some (record_proved proved f) }
]

unfoldable pub learn : Propositio → FinishReason → Task (Unit {0})
learn prop reason = do
  s ← get
  note_outcome prop reason s.notebook
  modify (note_proved (kernel_proved prop))

-- `_settle`
unfoldable pub settle : Leibniz → Propositio → Task (Unit {0})
settle d prop = do
  modify (in_report (tally (reason_of prop)))
  placed ← consider_task d prop
  remember_task placed
  learn placed (reason_of prop)

-- A proof edge of a fast path.
unfoldable pub by_decision : EdgeEvidence → Bool
by_decision e =
    on_edge proof_edge e
    && elim (lookup "decision_procedure" e.details) [ none ↦ false | some item ↦ item_truthy item ]

abbrev pub or_recorded : Propositio × Option EdgeEvidence → Propositio
or_recorded (prop, none) = prop
or_recorded (prop, some ev) = record_edge ev prop

unfoldable pub revalidated : Leibniz → Propositio → Propositio
revalidated d prop =
    if any by_decision prop.edges then or_recorded (revalidate d.formalizer.novelty prop) else prop

abbrev pub charged : TrustBudget × Bool → Propositio → Option TrustBudget × Propositio × Bool
charged (b, true) prop = (some b, prop, true)
charged (b, false) prop = (some b, quarantine over_budget prop, false)

-- The verdict on a candidate that reached its proof, and what the budget says of it: the budget, the
-- candidate, and whether it is to be promulgated.
unfoldable pub promotion :
    Leibniz → Option TrustBudget → Propositio → Option TrustBudget × Propositio × Bool
promotion d budget prop =
    if is_promotable d.law prop
    then elim budget [ none ↦ (none, prop, true) | some b ↦ charged (try_admit b prop.edges) prop ]
    else (budget, prop, false)

-- `Derive.run`, or `NoOpDerive.run`: the ensemble drafts its own proofs.
unfoldable pub derive_with : Prover → Provider → Propositio → Outcome Propositio
derive_with (single lean) provider prop = derive provider prop
derive_with (ensemble c) provider prop = returned prop

unfoldable pub prove_with : Prover → Propositio → Outcome Propositio
prove_with (single lean) prop = demonstrate lean prop
prove_with (ensemble c) prop = demonstrate_by_consensus c prop

-- What follows for a survivor of the formalization.
unfoldable pub prove_and_settle : Leibniz → Propositio → Task (Unit {0})
prove_and_settle d survivor = do
  derived ← lift (derive_with d.prover d.provider survivor)
  proved ← lift (prove_with d.prover derived)
  modify (in_report (λ r. record r { reached_proof = r.reached_proof + 1 }))
  s ← get
  let (budget, prop, promotable) = promotion d s.budget (revalidated d proved)
  modify (λ s'. record s' { budget = budget })
  settle d (promulgate prop promotable)

abbrev mined_seed_prefix : String
mined_seed_prefix = "COMPUTED PATTERN"

-- `_seed_origin`
unfoldable pub seed_origin_of : String → String
seed_origin_of seed =
    if starts_with mined_seed_prefix seed
    then "mined"
    else if occurs_in "STRICTLY WEAKER" seed
    then "weaken"
    else if occurs_in "combining features" seed
    then "kfm"
    else "survey"

unfoldable pub draw : Leibniz → String → Task Propositio
draw d seed = do
  s ← get
  prop ← lift (conjecture d.os d.provider (d.fresh s.clock) s.clock (d.steer s seed))
  modify (λ s'. record s' {
    clock = s'.clock + 1;
    report = record s'.report { conjectured = s'.report.conjectured + 1 };
  })
  lift (returned (record prop { seed_origin = some (seed_origin_of seed) }))

-- The body of the loop's `try`.
unfoldable pub attempt_seed : Leibniz → String → Task (Unit {0})
attempt_seed d seed = do
  prop ← draw d seed
  r ← lift (formalize d.formalizer prop)
  (if r.1 then prove_and_settle d r.0 else settle d r.0)

abbrev pub or_errored : State × Outcome (Unit {0}) → State
or_errored (s, returned _) = s
or_errored (s, raised) = in_report (count "errored") s

-- One round of the loop, and the loop.
unfoldable pub run_seed : Leibniz → String → State → State
unfolding count
run_seed d seed s = or_errored (attempt_seed d seed s)

unfoldable pub run_seeds : Leibniz → List String → State → State
run_seeds d [] s = s
run_seeds d (seed ∷ seeds) s = run_seeds d seeds (run_seed d seed s)
