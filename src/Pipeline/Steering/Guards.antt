-- ===== src/Pipeline/Steering/Guards.antt =====
-- What the guards of `_steer_contract` let through.
use Prim.Native.String.{◌++◌ as str_append}
use leibniz_daemon.Common.{
  ℕ, String, Bool, true, ◌≡◌, refl, ◌≢◌, Option, none, some, List, [], ◌∷◌, eq_iff, leb, Outcome,
  returned, ◌>>=◌, arith, Option-cases, Bool-cases, inl, inr, ◌⊎◌, subst, >>=-eq-returned,
}
use leibniz_daemon.Propositio.{Propositio, Expressio}
use leibniz_daemon.Verifiers.{SmtBackend}
use leibniz_daemon.Pipeline.Drafts.{Platform}
use leibniz_daemon.Pipeline.Repair.{Provider}
use leibniz_daemon.Pipeline.Steering.{
  Contract, contract_of, steer_loop, refuted, weaker_query, admits, commit, steered, committed,
  steer_with, steer_contract,
}

-- The solver is asked whether the new property and the negation of the original one can hold at
-- once, and answers that they cannot.
abbrev pub IsShownStronger : (List String → Outcome (Option Bool)) → String → String → Type 0
IsShownStronger decide property original =
    decide (
      str_append "(" (str_append property ")")
      ∷ str_append "not " (str_append "(" (str_append original ")"))
      ∷ [])
    ≡ returned (some true)

-- What the guards demand of a contract that replaces one with the property `original`.
pub record IsFaithfulRepair (smt : SmtBackend) (original : String) (c : Contract) : Type 0 where
  pub encodable : String → Bool
  pub decide : List String → Outcome (Option Bool)
  pub has_encodable : smt.encodable ≡ some encodable
  pub has_decide : smt.decide_unsat ≡ some decide
  pub encoded : (encodable c.cd ≡ true) × (encodable c.cp ≡ true) × (encodable c.ed ≡ true)
  pub inhabited : decide (c.cd ∷ []) ≢ returned (some true)
  pub implies_original : (c.cp ≡ original) ⊎ IsShownStronger decide c.cp original

refuted_iff : (o : Option Bool) → refuted o ≡ true → o ≡ some true
refuted_iff o h = ground arith

admits-guards :
    (encodable : String → Bool) (decide_unsat : Option (List String → Outcome (Option Bool)))
    (original : String) (c : Contract)
    → admits encodable decide_unsat original c ≡ returned true
    → (encodable c.cd ≡ true)
      × (encodable c.cp ≡ true)
      × (encodable c.ed ≡ true)
      × ((decide : List String → Outcome (Option Bool)) × (decide_unsat ≡ some decide)
          × (decide (c.cd ∷ []) ≢ returned (some true))
          × ((c.cp ≡ original) ⊎ IsShownStronger decide c.cp original))
unfolding admits weaker_query
admits-guards encodable none original c h = absurd (ground arith)
admits-guards encodable (some decide) original c h = (
  ground arith,
  ground arith,
  ground arith,
  (decide, refl, ground arith, ground (arith, eq_iff c.cp original)),
)

steered-guards :
    (os : Platform) (smt : SmtBackend) (encodable : String → Bool)
    (repair : Contract → List String → Outcome String) (n : ℕ) (c d : Contract)
    → smt.encodable ≡ some encodable
    → steered os encodable repair smt.decide_unsat n c ≡ returned (some d)
    → IsFaithfulRepair smt c.cp d
unfolding steered
steered-guards os smt encodable repair n c d has h =
    elim (Option-cases (steer_loop os encodable repair n c)) [
      | inl stopped ↦ absurd (ground arith)
      | inr (e, looped) ↦
          let same : e ≡ d = ground arith in
          let ok : admits encodable smt.decide_unsat c.cp e ≡ returned true = ground arith in
          let (cd, cp, ed, (decide, has_decide, inhabited, implies)) =
            admits-guards encodable smt.decide_unsat c.cp e ok in
          subst (IsFaithfulRepair smt c.cp) same (record {
            encodable = encodable;
            decide = decide;
            has_encodable = has;
            has_decide = has_decide;
            encoded = (cd, cp, ed);
            inhabited = inhabited;
            implies_original = implies;
          })
    ]

steer_with-faithful :
    (os : Platform) (provider : Provider) (smt : SmtBackend) (n : ℕ) (prop : Propositio)
    (expr : Expressio) (c : Contract) (after : Propositio)
    → steer_with os provider smt n prop expr c ≡ returned after
    → (after ≡ prop) ⊎ ((d : Contract) × IsFaithfulRepair smt c.cp d × (after ≡ commit prop expr d))
unfolding steer_with
steer_with-faithful os provider smt n prop expr c after h = elim (Option-cases smt.encodable) [
  | inl lacks ↦ inl (ground arith)
  | inr (encodable, has) ↦ elim (Option-cases provider.repair_contract) [
    | inl none' ↦ inl (ground arith)
    | inr (repair, hook) ↦ elim (Bool-cases (leb n 0)) [
      | inl off ↦ inl (ground arith)
      | inr on ↦
          let ask = λ (d : Contract) (ps : List String).
            repair prop.enuntiatio.statement d.cd d.cp d.ed ps in
          let run : (steered os encodable ask smt.decide_unsat n c >>= λ r.
          returned (committed prop expr r))
              ≡ returned after =
            ground arith in
          let (r, steered', same) =
            >>=-eq-returned (steered os encodable ask smt.decide_unsat n c) _ run in
          elim (Option-cases r) [
            | inl nothing ↦ inl (ground arith)
            | inr (d, some') ↦ inr (
              d,
              steered-guards os smt encodable ask n c d has (cc (steered', some')),
              ground arith,
            )
          ]
    ]
  ]
]

contract_of-property :
    (cd cp ed : Option String) (c : Contract) → contract_of cd cp ed ≡ some c → cp ≡ some c.cp
contract_of-property cd none ed c h = absurd (ground arith)
contract_of-property none (some cp) ed c h = absurd (ground arith)
contract_of-property (some cd) (some cp) none c h = absurd (ground arith)
contract_of-property (some cd) (some cp) (some ed) c h = ground arith

pub steer_contract-faithful :
    (os : Platform) (provider : Provider) (smt : SmtBackend) (n : ℕ) (prop after : Propositio)
    → steer_contract os provider smt n prop ≡ returned after
    → (after ≡ prop)
      ⊎ ((expr : Expressio) × (c : Contract) × (original : String) × (prop.expressio ≡ some expr)
          × (prop.enuntiatio.claim_property ≡ some original)
          × IsFaithfulRepair smt original c
          × (after ≡ commit prop expr c))
unfolding steer_contract
steer_contract-faithful os provider smt n prop after h = elim (Option-cases prop.expressio) [
  | inl lacks ↦ inl (ground arith)
  | inr (expr, has) ↦
      elim (Option-cases (
        contract_of prop.enuntiatio.claim_domain prop.enuntiatio.claim_property
          expr.established_domain)) [
            | inl open' ↦ inl (ground arith)
            | inr (c, full) ↦
                elim (steer_with-faithful os provider smt n prop expr c after (ground arith)) [
                  | inl same ↦ inl same
                  | inr (d, faithful, e) ↦
                      inr (expr, d, c.cp, has, contract_of-property _ _ _ c full, faithful, e)
                ]
          ]
]
