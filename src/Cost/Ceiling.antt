-- ===== src/Cost/Ceiling.antt =====
-- Spending is only ever added, and a reached ceiling stays reached.
use leibniz_daemon.Common.{ℕ, ◌≤◌, String, true, ◌≡◌, refl, Option, List, [], ◌∷◌, arith}
use leibniz_daemon.Cost.{
  Price, CostBudget, Usage, record_usage, record_calls, exhausted, record_all,
}

-- What one account becomes another by: the ceiling is the same, and no spending is taken back.
pub record Grows (before after : CostBudget) : Type 0 where
  pub same_cap : after.cap ≡ before.cap
  pub more : before.spent ≤ after.spent

Grows-trans : {a b c : CostBudget} → Grows a b → Grows b c → Grows a c
Grows-trans g h = record {
  same_cap = cc (g.same_cap, h.same_cap);
  more = omega (arith, g.more, h.more);
}

pub record_calls-Grows : (n : ℕ) (c : CostBudget) → Grows c (record_calls n c)
unfolding record_calls
record_calls-Grows n c = record { same_cap = ground arith; more = ground arith }

pub record_all-Grows :
    (env_override : String → Option Price) (us : List Usage) (c : CostBudget)
    → Grows c (record_all env_override us c)
unfolding record_all record_usage
record_all-Grows env_override [] c = record { same_cap = refl; more = omega arith }
record_all-Grows env_override (u ∷ us) c =
    Grows-trans {b = record_usage env_override u c} (record { same_cap = refl; more = omega arith })
      (record_all-Grows env_override us (record_usage env_override u c))

-- Once the ceiling is reached no further call is below it again.
pub exhausted_stays :
    (before after : CostBudget)
    → Grows before after
    → exhausted before ≡ true
    → exhausted after ≡ true
unfolding exhausted
exhausted_stays before after g h = ground (arith, g.same_cap, g.more)
