-- ===== src/Cost.antt =====
-- leibniz/cost.py and leibniz/pricing.py: the ceiling on what a run may spend. An amount is a whole
-- number of ten-millionths of a dollar, in which a price per million tokens that is listed in tenths of
-- a dollar is a whole price per token; the rounding of floats is not modelled. What the environment
-- says of a model's price is an argument.
pub mod Ceiling
use leibniz_daemon.Common.{
  ℕ, ◌+◌, ◌*◌, String, Bool, true, false, ◌&&◌, Option, none, some, List, [], ◌∷◌, leb, ltb,
  if◌then◌else◌, Dict, lookup,
}

abbrev pub Price : Type 0
Price = ℕ × ℕ

abbrev pub prices : Dict Price
prices =
    ("claude-opus-4-8", (150, 750))
    ∷ ("claude-sonnet-4-6", (30, 150))
    ∷ ("claude-haiku-4-5-20251001", (10, 50))
    ∷ ("deepseek/deepseek-prover-v2", (5, 20))
    ∷ ("deepseek/deepseek-chat", (3, 12))
    ∷ ("anthropic/claude-opus-4", (150, 750))
    ∷ ("anthropic/claude-sonnet-4", (30, 150))
    ∷ []

abbrev pub default_price : Price
default_price = (100, 300)

abbrev or_price : Option Price → Price → Price
or_price (some p) fallback = p
or_price none fallback = fallback

unfoldable pub price_for : (String → Option Price) → String → Price
price_for env_override model =
    or_price (env_override model) (or_price (lookup model prices) default_price)

-- `estimate_usd`
unfoldable pub estimate : (String → Option Price) → String → ℕ → ℕ → ℕ
estimate env_override model input_tokens output_tokens =
    let (pin, pout) = price_for env_override model in input_tokens * pin + output_tokens * pout

pub record CostBudget : Type 0 where
  pub cap : ℕ
  pub per_call : ℕ
  pub spent : ℕ
  pub calls : ℕ
  pub input_tokens : ℕ
  pub output_tokens : ℕ
  pub real : Bool

-- One metered call of a provider.
pub record Usage : Type 0 where
  pub model : String
  pub input_tokens : ℕ
  pub output_tokens : ℕ

unfoldable pub record_usage : (String → Option Price) → Usage → CostBudget → CostBudget
record_usage env_override u c = record c {
  real = true;
  calls = c.calls + 1;
  input_tokens = c.input_tokens + u.input_tokens;
  output_tokens = c.output_tokens + u.output_tokens;
  spent = c.spent + estimate env_override u.model u.input_tokens u.output_tokens;
}

unfoldable pub record_calls : ℕ → CostBudget → CostBudget
record_calls n c =
    if c.real then c else record c { calls = c.calls + n; spent = c.spent + n * c.per_call }

unfoldable pub exhausted : CostBudget → Bool
exhausted c = ltb 0 c.cap && leb c.cap c.spent

-- The calls that the providers meter, in order.
unfoldable pub record_all : (String → Option Price) → List Usage → CostBudget → CostBudget
record_all env_override [] c = c
record_all env_override (u ∷ us) c = record_all env_override us (record_usage env_override u c)
