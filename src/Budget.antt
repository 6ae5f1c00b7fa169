-- ===== src/Budget.antt =====
-- leibniz/budget.py: the running counts of promulgations, and of those whose faithfulness was
-- judged.
pub mod Bound
use leibniz_daemon.Common.{ℕ, ◌+◌, Bool, true, false, List, if◌then◌else◌}
use leibniz_daemon.Types.{EdgeEvidence}
use leibniz_daemon.Trust.{TrustPolicy, is_judged_faithfulness, admits_judged_faithfulness}

pub record TrustBudget : Type 0 where
  pub policy : TrustPolicy
  pub total : ℕ
  pub judged : ℕ

-- Returns the budget after the call, and whether the promulgation is admitted.
unfoldable pub try_admit : TrustBudget → List EdgeEvidence → TrustBudget × Bool
try_admit b edges =
    if is_judged_faithfulness edges
    then if admits_judged_faithfulness b.policy b.judged b.total
      then (record b { judged = b.judged + 1; total = b.total + 1 }, true)
      else (b, false)
    else (record b { total = b.total + 1 }, true)
