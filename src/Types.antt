-- ===== src/Types.antt =====
-- leibniz/types.py: the shared vocabulary. An `edge` and a `producer` are texts, as in the source.
-- Costs are whole in the source (1.0, 2.0, 3.0, 10.0 and their multiples by counts), so they are
-- natural numbers. A `detail` dictionary maps texts to `Item`s; what the program only stores and
-- prints (a solver's model, a list of neighbours) is the text that it prints as.
pub mod Values
use leibniz_daemon.Common.{ℕ, String, Bool, true, false, Option, List, Dict}

pub data TrustTier : Type 0 where
  mechanical adversarial judged : TrustTier

pub data Role : Type 0 where
  survey conjecture formalize proof_draft analogy walnut_conjecture : Role

pub data ClaimType : Type 0 where
  complexity_bound correctness_over_domain optimality invariant existence structural open_form :
      ClaimType

pub data Verdict : Type 0 where
  pass fail defer : Verdict

pub data FinishReason : Type 0 where
  promulgated refuted trivial known unfaithful unproven malformed gamed over_budget walnut_decided :
      FinishReason

-- `ClaimType.value`
unfoldable pub claim_type_value : ClaimType → String
claim_type_value complexity_bound = "complexity_bound"
claim_type_value correctness_over_domain = "correctness"
claim_type_value optimality = "optimality"
claim_type_value invariant = "invariant"
claim_type_value existence = "existence"
claim_type_value structural = "structural"
claim_type_value open_form = "open_form"

-- `FinishReason.value`
unfoldable pub finish_reason_value : FinishReason → String
finish_reason_value promulgated = "promulgated"
finish_reason_value refuted = "refuted"
finish_reason_value trivial = "trivial"
finish_reason_value known = "known"
finish_reason_value unfaithful = "unfaithful"
finish_reason_value unproven = "unproven"
finish_reason_value malformed = "malformed"
finish_reason_value gamed = "gamed"
finish_reason_value over_budget = "over_budget"
finish_reason_value walnut_decided = "walnut_decided"

-- `tier is TrustTier.X`, `verdict is Verdict.X`
abbrev pub is_mechanical : TrustTier → Bool
is_mechanical mechanical = true
is_mechanical adversarial = false
is_mechanical judged = false

abbrev pub is_judged : TrustTier → Bool
is_judged judged = true
is_judged mechanical = false
is_judged adversarial = false

abbrev pub is_pass : Verdict → Bool
is_pass pass = true
is_pass fail = false
is_pass defer = false

abbrev pub is_fail : Verdict → Bool
is_fail fail = true
is_fail pass = false
is_fail defer = false

abbrev pub is_defer : Verdict → Bool
is_defer defer = true
is_defer pass = false
is_defer fail = false

abbrev pub is_open_form : ClaimType → Bool
is_open_form open_form = true
is_open_form complexity_bound = false
is_open_form correctness_over_domain = false
is_open_form optimality = false
is_open_form invariant = false
is_open_form existence = false
is_open_form structural = false

pub data Item : Type 0 where
  text : String → Item
  num : ℕ → Item
  flag : Bool → Item
  texts : List String → Item
  null : Item

pub record ClaimSignature : Type 0 where
  pub claim_type : ClaimType
  pub subject : String
  pub relation : String
  pub formal_hash : String
  pub properties : List String
  pub alt_hashes : List String

pub record EdgeEvidence : Type 0 where
  pub edge : String
  pub tier : TrustTier
  pub verdict : Verdict
  pub details : Dict Item
  pub cost_units : ℕ
  pub producer : Option String
