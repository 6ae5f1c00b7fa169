-- ===== src/Providers.antt =====
-- leibniz/providers/failover_provider.py and leibniz/providers/router.py: an ordered chain of reasoners
-- with one fallback rule for all its methods, and the dispatch by role. A reasoner is its label and
-- its calls, by the method's name; a method that it lacks is `none`. A method's arguments are texts.
pub mod Failover
use leibniz_daemon.Common.{
  String, Bool, true, false, Option, none, some, List, [], ◌∷◌, if◌then◌else◌, str_eq, strip, any,
  catch, Outcome, raised, returned,
}
use leibniz_daemon.Types.{Role, proof_draft}

pub record Reasoner : Type 0 where
  pub name : String
  -- `available`, where the reasoner has it
  pub available : Option (Outcome Bool)
  pub call : String → Option (List String → Outcome String)

pub record FailoverProvider : Type 0 where
  pub providers : List Reasoner
  pub last_used : Option String

-- `_is_available`
unfoldable pub is_available : Reasoner → Bool
is_available p = elim p.available [ none ↦ true | some check ↦ catch check false ]

-- `available`
unfoldable pub chain_available : FailoverProvider → Bool
chain_available fp = any is_available fp.providers

abbrev pub nonempty : Outcome String → Option String
nonempty raised = none
nonempty (returned out) = if str_eq (strip out) "" then none else some out

-- What one reasoner answers; `none` where the loop goes on to the next.
unfoldable pub answer : Reasoner → String → List String → Option String
answer p method args = elim (p.call method) [
  | none ↦ none
  | some fn ↦ if is_available p then nonempty (fn args) else none
]

unfoldable pub first_answer : List Reasoner → String → List String → Option (Reasoner × String)
first_answer [] method args = none
first_answer (p ∷ ps) method args = elim (answer p method args) [
  | some out ↦ some (p, out)
  | none ↦ first_answer ps method args
]

-- `_try`: the provider after the call, and the output or `ProviderUnavailable`.
unfoldable pub try_call :
    FailoverProvider → String → List String → FailoverProvider × Outcome String
try_call fp method args = elim (first_answer fp.providers method args) [
  | none ↦ (fp, raised)
  | some (p, out) ↦ (record fp { last_used = some p.name }, returned out)
]

-- `RoleRouter.propose`, over the two backends' own.
unfoldable pub route : {A : Type 0} → A → A → Role → A
route autoformalizer prover proof_draft = prover
route autoformalizer prover role = autoformalizer
