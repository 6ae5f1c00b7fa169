-- ===== src/Gates/Verification.antt =====
-- leibniz/gates/verification.py: the promotion verdict over recorded evidence. The statement
-- generators of the six fast paths (`residue_law` and its siblings in leibniz/providers) are the
-- argument `law`, which takes the names of the module and of the function.
pub mod Promotion
pub mod Finalize
use leibniz_daemon.Common.{
  truthy, String, Bool, true, false, not, ◌&&◌, ◌||◌, Option, none, some, [], ◌∷◌, if◌then◌else◌,
  str_eq, any, all, keep, Dict, lookup, Outcome, raised, returned,
}
use leibniz_daemon.Types.{EdgeEvidence, FinishReason, unproven, is_pass}
use leibniz_daemon.Trust.{proof_edge, faithfulness_edge, novelty_edge, on_edge, validate_path}
use leibniz_daemon.Propositio.{Propositio, Expressio, quarantine}

abbrev pub canonical_by_producer : Dict (String × String)
canonical_by_producer =
    ("lean_decided/kernel", ("leibniz.providers.residue_prover", "residue_law"))
    ∷ ("minmax_identity/kernel", ("leibniz.providers.minmax_prover", "minmax_law"))
    ∷ ("boolean_modular/kernel", ("leibniz.providers.boolean_prover", "boolean_law"))
    ∷ ("mixed_modular/kernel", ("leibniz.providers.mixed_modulus_prover", "mixed_law"))
    ∷ ("power_mod/kernel", ("leibniz.providers.power_mod_prover", "power_law"))
    ∷ ("factgcd/kernel", ("leibniz.providers.factgcd_prover", "factgcd_law"))
    ∷ []

-- A generator's law for a claim domain and a claim property; `none` where it abstains or raises.
abbrev pub Law : Type 0
Law = String → String → String → String → Option String

abbrev law_of : Law → Option (String × String) → Option String → Option String → Option String
law_of law none cd cp = none
law_of law (some (module_name, function)) none cp = none
law_of law (some (module_name, function)) (some cd) none = none
law_of law (some (module_name, function)) (some cd) (some cp) =
    if truthy (some cd) && truthy (some cp) then law module_name function cd cp else none

unfoldable pub canonical_theorem_src : Law → Option String → Propositio → Option String
canonical_theorem_src law none prop = none
canonical_theorem_src law (some producer) prop = elim prop.expressio [
  | none ↦ none
  | some expr ↦
      law_of law (lookup producer canonical_by_producer) prop.enuntiatio.claim_domain
        prop.enuntiatio.claim_property
]

abbrev pub required : EdgeEvidence → Bool
required e = on_edge proof_edge e || on_edge faithfulness_edge e || on_edge novelty_edge e

-- Whether the proved statement is the canonical one, where there is one.
abbrev same_statement : Option String → Option Expressio → Bool
same_statement none expr = true
same_statement (some canonical) none = false
same_statement (some canonical) (some expr) = str_eq expr.theorem_src canonical

-- One round of the loop that binds the proved statement to the certified one.
unfoldable pub binds : Law → Propositio → EdgeEvidence → Bool
binds law prop e =
    if not (on_edge faithfulness_edge e) || not (is_pass e.verdict)
    then true
    else same_statement (canonical_theorem_src law e.producer prop) prop.expressio

abbrev admissible : Outcome (Unit {0}) → Bool
admissible raised = false
admissible (returned _) = true

unfoldable pub is_promotable : Law → Propositio → Bool
is_promotable law prop =
    any (on_edge proof_edge) prop.edges
    && any (on_edge faithfulness_edge) prop.edges
    && any (on_edge novelty_edge) prop.edges
    && admissible (validate_path (keep required prop.edges))
    && all (binds law prop) prop.edges
    && all (λ e. is_pass e.verdict) (keep required prop.edges)

-- Returns the candidate in its terminal state, and the reason.
unfoldable pub finalize : Law → Propositio → Propositio × FinishReason
finalize law prop =
    if is_promotable law prop
    then (
      record prop { promulgated = true; finish_reason = some FinishReason.promulgated },
      FinishReason.promulgated,
    )
    else elim prop.finish_reason [
      | some reason ↦ (prop, reason)
      | none ↦ (quarantine unproven prop, unproven)
    ]
