-- ===== src/Gates/Faithfulness/Retry.antt =====
-- `_retry_with_derived_domain`: a backend that deferred is asked again, with the claim's own
-- domain as the established one, and the change is kept only on a PASS that the gate accepts.
use leibniz_daemon.Common.{
  truthy, String, Bool, true, false, not, ◌&&◌, Option, none, some, List, [], ◌∷◌, if◌then◌else◌,
  str_eq, contains, Outcome, raised, returned,
}
use leibniz_daemon.Types.{EdgeEvidence, flag}
use leibniz_daemon.Propositio.{Propositio, Expressio}
use leibniz_daemon.Verifiers.{SmtBackend}
use leibniz_daemon.Gates.Sound.{SoundBackend}
use leibniz_daemon.Gates.Faithfulness.Certificates.{FaithfulnessGate, accept_certificate}

abbrev pub rerendering_backends : List String
rerendering_backends =
    "lean-decided" ∷ "minmax-decided" ∷ "boolean-decided" ∷ "mixed-modulus-decided"
    ∷ "power-mod-decided" ∷ "factgcd-decided" ∷ []

-- `expr.established_domain = cd`, on the candidate that holds `expr`.
abbrev pub with_domain : Propositio → Expressio → Option String → Propositio
with_domain prop expr domain = record prop {
  expressio = some (record expr { established_domain = domain });
}

-- `decide([cd]) is not False` refuses: only a conclusive "satisfiable" goes on.
abbrev conclusively_sat : Outcome (Option Bool) → Bool
conclusively_sat raised = false
conclusively_sat (returned none) = false
conclusively_sat (returned (some unsat)) = not unsat

unfoldable pub domain_is_inhabited : SmtBackend → Option String → Bool
domain_is_inhabited smt none = false
domain_is_inhabited smt (some cd) = elim smt.decide_unsat [
  | none ↦ false
  | some decide ↦ conclusively_sat (decide (cd ∷ []))
]

abbrev differs : Option String → Option String → Bool
differs (some a) (some b) = not (str_eq a b)
differs _ _ = true

-- The early returns.
unfoldable pub retry_applies : FaithfulnessGate → Propositio → Expressio → SoundBackend → Bool
retry_applies g prop expr backend =
    contains rerendering_backends backend.name
    && truthy prop.enuntiatio.claim_domain
    && truthy prop.enuntiatio.claim_property
    && truthy expr.established_domain
    && differs expr.established_domain prop.enuntiatio.claim_domain
    && domain_is_inhabited g.smt prop.enuntiatio.claim_domain

-- The backend's answer about the provisional candidate, as the gate accepts it.
unfoldable pub attempt : FaithfulnessGate → Propositio → SoundBackend → Option EdgeEvidence
attempt g provisional backend = elim (backend.check provisional) [
  | raised ↦ none
  | returned v ↦ accept_certificate g provisional backend v
]

abbrev pub derived : EdgeEvidence → EdgeEvidence
derived ev = record ev { details = ("established_domain_derived", flag true) ∷ ev.details }

unfoldable pub retry_with_derived_domain :
    FaithfulnessGate → Propositio → Expressio → SoundBackend → Propositio × Option EdgeEvidence
retry_with_derived_domain g prop expr backend =
    if retry_applies g prop expr backend
    then (let provisional = with_domain prop expr prop.enuntiatio.claim_domain in
        elim (attempt g provisional backend) [
          | none ↦ (with_domain provisional expr expr.established_domain, none)
          | some accepted ↦ (provisional, some (derived accepted))
        ])
    else (prop, none)
