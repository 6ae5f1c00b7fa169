-- ===== src/Pipeline/Steering.antt =====
-- `Formalize._steer_contract` of leibniz/pipeline.py: the bounded repair of the structured contract
-- toward what the solver can encode, and the guards of its commit. `encodable` returns; the solver's
-- `decide_unsat` and the provider's repair may raise.
pub mod Guards
use leibniz_daemon.Common.{
  ℕ, zero, suc, String, Bool, true, false, not, ◌&&◌, ◌||◌, ◌≡◌, refl, ◌≢◌, Option, none, some,
  List, [], ◌∷◌, ◌++◌, if◌then◌else◌, str_eq, eq_iff, truthy, all, leb, Outcome, raised, returned,
  ◌>>=◌, arith, Option-cases, Bool-cases, inl, inr, ◌⊎◌, subst, >>=-eq-returned, returned-injective,
}
use leibniz_daemon.Propositio.{Propositio, Enuntiatio, Expressio}
use leibniz_daemon.Verifiers.{SmtBackend}
use leibniz_daemon.Pipeline.Drafts.{Platform, given}
use leibniz_daemon.Pipeline.Repair.{Provider}
use Prim.Native.String.{◌++◌ as str_append}

-- `claim_domain`, `claim_property` and `established_domain`.
pub record Contract : Type 0 where
  pub cd : String
  pub cp : String
  pub ed : String

abbrev pub contract_of : Option String → Option String → Option String → Option Contract
contract_of (some cd) (some cp) (some ed) =
    if truthy (some cd) && truthy (some cp) && truthy (some ed)
    then some (record { cd = cd; cp = cp; ed = ed })
    else none
contract_of _ _ _ = none

abbrev named : (String → Bool) → String → String → List String
named encodable name predicate = if encodable predicate then [] else name ∷ []

-- The fields that the solver cannot encode, by name.
unfoldable pub problems : (String → Bool) → Contract → List String
problems encodable c =
    named encodable "claim_domain" c.cd
    ++ (named encodable "claim_property" c.cp ++ named encodable "established_domain" c.ed)

-- The contract of a repair; `none` where the repair failed or is malformed.
unfoldable pub repaired_contract : Platform → Outcome String → Option Contract
repaired_contract os raised = none
repaired_contract os (returned fixed) = elim (os.loads fixed) [
  | none ↦ none
  | some d ↦
      contract_of (given os d "claim_domain") (given os d "claim_property")
        (given os d "established_domain")
]

-- The loop of at most `fuel` repairs; `none` where the source returns.
unfoldable pub steer_loop :
    Platform
    → (String → Bool)
    → (Contract → List String → Outcome String)
    → ℕ
    → Contract
    → Option Contract
unfolding problems
steer_loop os encodable repair zero c = some c
steer_loop os encodable repair (suc n) c = elim (problems encodable c) [
  | [] ↦ some c
  | p ∷ ps ↦ elim (repaired_contract os (repair c (p ∷ ps))) [
    | none ↦ none
    | some d ↦ steer_loop os encodable repair n d
  ]
]

-- `decide(formulas) is True`
abbrev pub refuted : Option Bool → Bool
refuted none = false
refuted (some unsat) = unsat

parens : String → String
parens s = str_append "(" (str_append s ")")

-- What is asked of the solver to see that the repaired property implies the original one.
unfoldable pub weaker_query : String → Contract → List String
unfolding parens
weaker_query original c = parens c.cp ∷ str_append "not " (parens original) ∷ []

abbrev no_weaker : (List String → Outcome (Option Bool)) → String → Contract → Outcome Bool
no_weaker decide original c =
    if str_eq c.cp original
    then returned true
    else (do answer ← decide (weaker_query original c); returned (refuted answer))

-- Whether the guards admit the repaired contract.
unfoldable pub admits :
    (String → Bool)
    → Option (List String → Outcome (Option Bool))
    → String
    → Contract
    → Outcome Bool
admits encodable decide_unsat original c =
    if not (encodable c.cd && encodable c.cp && encodable c.ed)
    then returned false
    else elim decide_unsat [
      | none ↦ returned false
      | some decide ↦ do
        empty ← decide (c.cd ∷ [])
        (if refuted empty then returned false else no_weaker decide original c)
    ]

abbrev pub commit : Propositio → Expressio → Contract → Propositio
commit prop expr c = record prop {
  enuntiatio = record prop.enuntiatio { claim_domain = some c.cd; claim_property = some c.cp };
  expressio = some (record expr { established_domain = some c.ed });
}

-- What is committed, if anything, of a contract `c`.
unfoldable pub steered :
    Platform
    → (String → Bool)
    → (Contract → List String → Outcome String)
    → Option (List String → Outcome (Option Bool))
    → ℕ
    → Contract
    → Outcome (Option Contract)
steered os encodable repair decide_unsat n c = elim (steer_loop os encodable repair n c) [
  | none ↦ returned none
  | some d ↦ do ok ← admits encodable decide_unsat c.cp d; returned (if ok then some d else none)
]

abbrev pub committed : Propositio → Expressio → Option Contract → Propositio
committed prop expr none = prop
committed prop expr (some c) = commit prop expr c

unfoldable pub steer_with :
    Platform → Provider → SmtBackend → ℕ → Propositio → Expressio → Contract → Outcome Propositio
steer_with os provider smt max_repairs prop expr c = elim smt.encodable [
  | none ↦ returned prop
  | some encodable ↦ elim provider.repair_contract [
    | none ↦ returned prop
    | some repair ↦ if leb max_repairs 0 then returned prop else (do
      r ←
          steered os encodable (λ d ps. repair prop.enuntiatio.statement d.cd d.cp d.ed ps)
            smt.decide_unsat max_repairs c
      returned (committed prop expr r))
  ]
]

unfoldable pub steer_contract :
    Platform → Provider → SmtBackend → ℕ → Propositio → Outcome Propositio
steer_contract os provider smt max_repairs prop = elim prop.expressio [
  | none ↦ returned prop
  | some expr ↦
      elim (contract_of prop.enuntiatio.claim_domain prop.enuntiatio.claim_property
        expr.established_domain) [
          | none ↦ returned prop
          | some c ↦ steer_with os provider smt max_repairs prop expr c
        ]
]
