-- ===== src/Repair/Recorded.antt =====
-- What the demonstration with repair writes into the candidate.
use leibniz_daemon.Common.{◌+◌, ◌≤◌, String, ◌≡◌, Option, some, List, [], ◌∷◌, ◌++◌, length}
use leibniz_daemon.Types.{EdgeEvidence, pass}
use leibniz_daemon.Trust.{proof_edge}
use leibniz_daemon.Trust.Path.{IsAdmissible}
use leibniz_daemon.Propositio.{Propositio, Expressio, Demonstratio}
use leibniz_daemon.Decomposition.Statement.{IsPassed}
use leibniz_daemon.Repair.{RepairingDemonstrate, Closers}
use leibniz_daemon.Repair.Panel.{IsPoll, IsVote}
use leibniz_daemon.Repair.Base.{IsBase}

-- Why a proof edge that passed was recorded: a consensus of the stage's own ensemble, or of its
-- decomposer's, on the statement; or enough votes of distinct models, the panel's among them, one of
-- whose proofs is attached.
pub data Grounds (s : RepairingDemonstrate) (expr : Expressio) (attached : Option Demonstratio)
    : Type 0 where
  by_consensus : IsPassed s.consensus s.decomposer expr attached → Grounds s expr attached
  by_repair :
      (base : List String) (closers : Closers) (k : String) (won : Demonstratio × EdgeEvidence)
      → IsBase s expr base
      → IsPoll (s.repairer ∷ s.panel) base expr closers
      → IsVote (s.repairer ∷ s.panel) base expr k won
      → s.consensus.min_consensus ≤ length base + length closers
      → attached ≡ some won.0
      → Grounds s expr attached

-- One admissible proof edge is recorded, and a PASS has grounds.
pub record IsRecorded (s : RepairingDemonstrate) (expr : Expressio) (before after : Propositio)
    : Type 0 where
  pub ev : EdgeEvidence
  pub one_edge : after.edges ≡ before.edges ++ ev ∷ []
  pub admissible : IsAdmissible ev
  pub at : ev.edge ≡ proof_edge
  pub on_pass : ev.verdict ≡ pass → Grounds s expr after.demonstratio
