-- ===== src/Trust.antt =====
-- leibniz/trust.py: the trust policy. A `TrustViolation` is `violation`; the float bound 0.15 is
-- the fraction 3/20, held as numerator and denominator.
pub mod Path
use leibniz_daemon.Common.{
  ℕ, ◌+◌, ◌*◌, String, Bool, true, false, not, ◌&&◌, ◌||◌, Option, none, some, List, [], ◌∷◌, leb,
  if◌then◌else◌, str_eq, contains, any, is_some, Outcome, raised, returned, ◌>>◌,
}
use leibniz_daemon.Types.{EdgeEvidence, TrustTier, judged, is_mechanical, is_judged, is_pass}

abbrev pub proof_edge : String
proof_edge = "proof<->statement"

abbrev pub faithfulness_edge : String
faithfulness_edge = "enuntiatio<->statement"

abbrev pub novelty_edge : String
novelty_edge = "novelty"

abbrev pub kernel_producer : String
kernel_producer = "LeanVerifier.discharge"

abbrev pub judge_producer : String
judge_producer = "FaithfulnessJudge"

abbrev pub judge_producers : List String
judge_producers = judge_producer ∷ []

abbrev pub faithfulness_producers : List String
faithfulness_producers =
    "SMTVerifier.gaming_witness" ∷ "ClaimProbe" ∷ "FaithfulnessGate" ∷ "walnut/recheck"
    ∷ "lean_decided/kernel" ∷ "minmax_identity/kernel" ∷ "boolean_modular/kernel"
    ∷ "mixed_modular/kernel" ∷ "power_mod/kernel" ∷ "factgcd/kernel" ∷ []

-- `ev.edge == name`
unfoldable pub on_edge : String → EdgeEvidence → Bool
on_edge name ev = str_eq ev.edge name

-- `producer is not None and producer != KERNEL_PRODUCER`, and the other tests on a producer.
unfoldable pub not_kernel : Option String → Bool
not_kernel none = false
not_kernel (some p) = not (str_eq p kernel_producer)

unfoldable pub from_judge : Option String → Bool
from_judge none = false
from_judge (some p) = contains judge_producers p

unfoldable pub is_admitted : String → Bool
is_admitted p = contains faithfulness_producers p

unfoldable pub not_admitted : Option String → Bool
not_admitted none = false
not_admitted (some p) = not (is_admitted p)

-- Whether one of the five tests of `validate_edge` raises.
abbrev raise_if : Bool → Outcome (Unit {0})
raise_if true = raised
raise_if false = returned tt

unfoldable pub validate_edge : EdgeEvidence → Outcome (Unit {0})
validate_edge ev = do
  raise_if (on_edge proof_edge ev && not (is_mechanical ev.tier))
  raise_if (on_edge novelty_edge ev && is_judged ev.tier)
  raise_if (on_edge proof_edge ev && not_kernel ev.producer)
  raise_if (not (is_judged ev.tier) && from_judge ev.producer)
  raise_if (on_edge faithfulness_edge ev && is_mechanical ev.tier && not_admitted ev.producer)

-- The loop of `validate_path`.
unfoldable pub validate_edges : List EdgeEvidence → Outcome (Unit {0})
validate_edges [] = returned tt
validate_edges (ev ∷ edges) = do
  validate_edge ev
  raise_if (not (is_pass ev.verdict))
  validate_edges edges

-- `by_edge` is read only for the presence of a name.
unfoldable pub validate_path : List EdgeEvidence → Outcome (Unit {0})
unfolding validate_edges
validate_path edges = do
  raise_if (not (any (on_edge proof_edge) edges))
  validate_edges edges
  raise_if (not (any (on_edge faithfulness_edge) edges))

unfoldable pub is_judged_faithfulness : List EdgeEvidence → Bool
is_judged_faithfulness [] = false
is_judged_faithfulness (e ∷ edges) =
    if on_edge faithfulness_edge e then is_judged e.tier else is_judged_faithfulness edges

pub record TrustPolicy : Type 0 where
  pub max_judged_num : ℕ
  pub max_judged_den : ℕ

abbrev pub default_policy : TrustPolicy
default_policy = record { max_judged_num = 3; max_judged_den = 20 }

unfoldable pub admits_judged_faithfulness : TrustPolicy → ℕ → ℕ → Bool
admits_judged_faithfulness policy judged_count total_count =
    leb ((judged_count + 1) * policy.max_judged_den) (policy.max_judged_num * (total_count + 1))
