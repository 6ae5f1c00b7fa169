-- ===== src/Types/Values.antt =====
-- `ClaimType(value)` and `FinishReason(value)`: the members by their values, and the round trips.
use leibniz_daemon.Common.{String, Bool, ◌≡◌, refl, Option, none, some, if◌then◌else◌, str_eq}
use leibniz_daemon.Types.{
  ClaimType, complexity_bound, correctness_over_domain, optimality, invariant, existence,
  structural, open_form, claim_type_value, FinishReason, promulgated, refuted, trivial, known,
  unfaithful, unproven, malformed, gamed, over_budget, walnut_decided, finish_reason_value,
}

unfoldable pub claim_type_of : String → Option ClaimType
claim_type_of s =
    if str_eq s "complexity_bound"
    then some complexity_bound
    else if str_eq s "correctness"
    then some correctness_over_domain
    else if str_eq s "optimality"
    then some optimality
    else if str_eq s "invariant"
    then some invariant
    else if str_eq s "existence"
    then some existence
    else if str_eq s "structural"
    then some structural
    else if str_eq s "open_form"
    then some open_form
    else none

unfoldable pub finish_reason_of : String → Option FinishReason
finish_reason_of s =
    if str_eq s "promulgated"
    then some promulgated
    else if str_eq s "refuted"
    then some refuted
    else if str_eq s "trivial"
    then some trivial
    else if str_eq s "known"
    then some known
    else if str_eq s "unfaithful"
    then some unfaithful
    else if str_eq s "unproven"
    then some unproven
    else if str_eq s "malformed"
    then some malformed
    else if str_eq s "gamed"
    then some gamed
    else if str_eq s "over_budget"
    then some over_budget
    else if str_eq s "walnut_decided"
    then some walnut_decided
    else none

pub claim_type_of-claim_type_value : (c : ClaimType) → claim_type_of (claim_type_value c) ≡ some c
unfolding claim_type_of claim_type_value
claim_type_of-claim_type_value complexity_bound = refl
claim_type_of-claim_type_value correctness_over_domain = refl
claim_type_of-claim_type_value optimality = refl
claim_type_of-claim_type_value invariant = refl
claim_type_of-claim_type_value existence = refl
claim_type_of-claim_type_value structural = refl
claim_type_of-claim_type_value open_form = refl

pub finish_reason_of-finish_reason_value :
    (r : FinishReason) → finish_reason_of (finish_reason_value r) ≡ some r
unfolding finish_reason_of finish_reason_value
finish_reason_of-finish_reason_value promulgated = refl
finish_reason_of-finish_reason_value refuted = refl
finish_reason_of-finish_reason_value trivial = refl
finish_reason_of-finish_reason_value known = refl
finish_reason_of-finish_reason_value unfaithful = refl
finish_reason_of-finish_reason_value unproven = refl
finish_reason_of-finish_reason_value malformed = refl
finish_reason_of-finish_reason_value gamed = refl
finish_reason_of-finish_reason_value over_budget = refl
finish_reason_of-finish_reason_value walnut_decided = refl

pub finish_reason_value_nonempty :
    (r : FinishReason) → str_eq (finish_reason_value r) "" ≡ Bool.false
unfolding finish_reason_value
finish_reason_value_nonempty promulgated = refl
finish_reason_value_nonempty refuted = refl
finish_reason_value_nonempty trivial = refl
finish_reason_value_nonempty known = refl
finish_reason_value_nonempty unfaithful = refl
finish_reason_value_nonempty unproven = refl
finish_reason_value_nonempty malformed = refl
finish_reason_value_nonempty gamed = refl
finish_reason_value_nonempty over_budget = refl
finish_reason_value_nonempty walnut_decided = refl
