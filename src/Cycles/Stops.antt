-- ===== src/Cycles/Stops.antt =====
-- A run of cycles comes to its end, or to its cost ceiling.
use leibniz_daemon.Common.{ℕ, ◌<◌, String, true, ◌≡◌, ◌⊎◌, some, List, length, Outcome, returned}
use leibniz_daemon.Frontier.{Frontier}
use leibniz_daemon.Notebook.{Notebook}
use leibniz_daemon.Daemon.{CycleReport}
use leibniz_daemon.Cycles.{Cycling, Loop, out_of_budget}

abbrev pub Answers : {A B : Type 0} → (A → Outcome B) → Type 0
Answers {A} {B} f = (x : A) → (y : B) × (f x ≡ returned y)

-- Leonardo, the miner and the file system answer.
pub record IsCalm (c : Cycling) : Type 0 where
  pub surveys : Answers c.seeding.leonardo.survey_frontier
  pub relates : Answers c.seeding.leonardo.cross_domain_analogies
  pub mines : (mine : ℕ → Outcome (List String)) → c.seeding.miner ≡ some mine → Answers mine
  pub saves_frontier : Answers c.save_frontier
  pub saves_notebook : Answers c.save_notebook

module _ (c : Cycling) (calm : IsCalm c) where
  -- How a run of `n` cycles ends.
  abbrev Ends : ℕ → Loop × Outcome (List CycleReport) → Type 0
  Ends n r =
      (reports : List CycleReport) × (r.1 ≡ returned reports)
      × ((length reports ≡ n) ⊎ ((length reports < n) × (out_of_budget r.0 ≡ true)))
