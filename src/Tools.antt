-- ===== src/Tools.antt =====
-- leibniz/tools/registry.py and leibniz/tools/protocol.py: the registry that runs untrusted tools
-- and accepts what its own re-checkers confirm. The context that a tool is run on is any type. What
-- the source does not catch (a tool, a re-checker or a template that raises) escapes as `raised`. A
-- template answers `none` where it returns no builtin text; its data is the certificate's payload.
pub mod Confirmed
pub mod Grounds
pub mod Dormant
use leibniz_daemon.Common.{
  ℕ, String, Bool, true, false, Option, none, some, List, [], ◌∷◌, ◌++◌, leb, if◌then◌else◌, str_eq,
  Dict, lookup, insert, Outcome, returned, ◌>>=◌, ◌⊎◌, inl, inr,
}
use leibniz_daemon.Types.{
  TrustTier, Verdict, pass, fail, defer, is_pass, is_fail, mechanical, Item, text,
}
use leibniz_daemon.Gates.Sound.{Certificate}

pub data Provenance : Type 0 where
  human ingested_derived self_built : Provenance

pub record ToolDescriptor : Type 0 where
  pub name : String
  pub provenance : Provenance
  pub cost_rank : ℕ
  pub result_kind : String
  pub requires_sandbox : Bool
  pub arg_schema : Dict Item

pub record ToolResult : Type 0 where
  pub verdict : Verdict
  pub producer : String
  pub certificate : Option Certificate
  pub details : Dict Item

-- The certificate of a PASS that says that it was re-checked (`is_pass_with_certificate`).
unfoldable pub offered : ToolResult → Option Certificate
offered r =
    if is_pass r.verdict
    then elim r.certificate [ none ↦ none | some c ↦ if c.rechecked then some c else none ]
    else none

pub record ToolEvidence : Type 0 where
  pub tool : String
  pub verdict : Verdict
  pub tier : TrustTier
  pub producer : String
  pub provenance : Option Provenance
  pub certificate_kind : Option String
  pub rechecked_by_registry : Bool
  pub details : Dict Item

abbrev pub Rechecker : Type 0
Rechecker = Certificate → Outcome Bool

abbrev pub StatementTemplate : Type 0
StatementTemplate = String → Outcome (Option String)

pub record Tool (Ctx : Type 0) : Type 0 where
  pub descriptor : ToolDescriptor
  pub applies : Ctx → Outcome Bool
  pub run : Ctx → Outcome ToolResult

pub record ToolRegistry (Ctx : Type 0) : Type 0 where
  pub tools : List (Tool Ctx)
  pub recheckers : Dict Rechecker
  pub templates : Dict StatementTemplate

-- `ToolRegistry()`
abbrev pub new_registry : {Ctx : Type 0} → ToolRegistry Ctx
new_registry = record { tools = []; recheckers = []; templates = [] }

-- `type(claimed) is str`, of `(cert.detail or {}).get("statement")`
unfoldable pub claimed_statement : Certificate → Option String
claimed_statement c = elim (lookup "statement" c.details) [
  | some item ↦ elim item [ text s ↦ some s | _ ↦ none ]
  | none ↦ none
]

-- `last_defer or ToolEvidence(...)`
abbrev pub or_undecided : Option ToolEvidence → ToolEvidence
or_undecided (some last) = last
or_undecided none = record {
  tool = "(none)";
  verdict = defer;
  tier = mechanical;
  producer = "ToolRegistry";
  provenance = none;
  certificate_kind = none;
  rechecked_by_registry = false;
  details = ("reason", text "no tool decided") ∷ [];
}

module _ {Ctx : Type 0} where
  unfoldable pub register_tool : Tool Ctx → ToolRegistry Ctx → ToolRegistry Ctx
  register_tool tool reg = record reg { tools = reg.tools ++ tool ∷ [] }

  unfoldable pub register_decider :
      String → Rechecker → StatementTemplate → ToolRegistry Ctx → ToolRegistry Ctx
  register_decider kind rechecker template reg = record reg {
    recheckers = insert kind rechecker reg.recheckers;
    templates = insert kind template reg.templates;
  }

  -- `_defer(reason)`
  abbrev pub deferral : Tool Ctx → ToolResult → Certificate → String → ToolEvidence
  deferral tool r c reason = record {
    tool = tool.descriptor.name;
    verdict = defer;
    tier = mechanical;
    producer = r.producer;
    provenance = some tool.descriptor.provenance;
    certificate_kind = some c.kind;
    rechecked_by_registry = false;
    details = ("defer_reason", text reason) ∷ [];
  }

  abbrev pub acceptance : Tool Ctx → ToolResult → Certificate → ToolEvidence
  acceptance tool r c = record {
    tool = tool.descriptor.name;
    verdict = pass;
    tier = mechanical;
    producer = r.producer;
    provenance = some tool.descriptor.provenance;
    certificate_kind = some c.kind;
    rechecked_by_registry = true;
    details = r.details;
  }

  -- The claimed statement against the rendered one.
  unfoldable pub compare_statement :
      Tool Ctx → ToolResult → Certificate → String → Option String → ToolEvidence
  compare_statement tool r c claimed none =
      deferral tool r c "operator template did not return a builtin str"
  compare_statement tool r c claimed (some rendered) =
      if str_eq rendered claimed
      then acceptance tool r c
      else deferral tool r c "certificate statement not produced by the operator-owned template"

  unfoldable pub bind_statement :
      Tool Ctx → ToolResult → Certificate → StatementTemplate → Outcome ToolEvidence
  bind_statement tool r c template = elim (claimed_statement c) [
    | none ↦ returned (deferral tool r c "certificate statement is missing or not a builtin str")
    | some claimed ↦ do
      rendered ← template c.payload
      returned (compare_statement tool r c claimed rendered)
  ]

  unfoldable pub recheck_and_bind :
      Tool Ctx → ToolResult → Certificate → Rechecker → StatementTemplate → Outcome ToolEvidence
  recheck_and_bind tool r c rechecker template = do
    rechecked ← rechecker c
    (if rechecked
        then bind_statement tool r c template
        else returned (deferral tool r c "independent re-check returned False"))

  -- `_accept_or_defer`
  unfoldable pub accept_or_defer :
      ToolRegistry Ctx → Tool Ctx → ToolResult → Certificate → Outcome ToolEvidence
  accept_or_defer reg tool r c = elim (lookup c.kind reg.recheckers) [
    | none ↦ returned (
        deferral tool r c "no operator-registered re-checker/template for this kind (State 1 only)")
    | some rechecker ↦ elim (lookup c.kind reg.templates) [
      | none ↦ returned (
          deferral tool r c
            "no operator-registered re-checker/template for this kind (State 1 only)")
      | some template ↦ recheck_and_bind tool r c rechecker template
    ]
  ]

  abbrev pub refutation : Tool Ctx → ToolResult → ToolEvidence
  refutation tool r = record {
    tool = tool.descriptor.name;
    verdict = fail;
    tier = mechanical;
    producer = r.producer;
    provenance = some tool.descriptor.provenance;
    certificate_kind = none;
    rechecked_by_registry = false;
    details = r.details;
  }

  -- `sorted(self.tools, key=...)`, which is stable.
  unfoldable pub insert_by_cost : Tool Ctx → List (Tool Ctx) → List (Tool Ctx)
  insert_by_cost t [] = t ∷ []
  insert_by_cost t (u ∷ us) =
      if leb t.descriptor.cost_rank u.descriptor.cost_rank
      then t ∷ u ∷ us
      else u ∷ insert_by_cost t us

  unfoldable pub by_cost : List (Tool Ctx) → List (Tool Ctx)
  by_cost [] = []
  by_cost (t ∷ ts) = insert_by_cost t (by_cost ts)

  -- What one applicable tool's result decides: evidence to return, or the last refusal to carry on.
  unfoldable pub settle_result :
      ToolRegistry Ctx
      → Tool Ctx
      → ToolResult
      → Option ToolEvidence
      → Outcome (ToolEvidence ⊎ Option ToolEvidence)
  settle_result reg tool r last =
      if is_fail r.verdict then returned (inl (refutation tool r)) else elim (offered r) [
        | none ↦ returned (inr last)
        | some c ↦ do
          ev ← accept_or_defer reg tool r c
          returned (if is_pass ev.verdict then inl ev else inr (some ev))
      ]

  unfoldable pub try_tool :
      ToolRegistry Ctx
      → Ctx
      → Tool Ctx
      → Option ToolEvidence
      → Outcome (ToolEvidence ⊎ Option ToolEvidence)
  try_tool reg ctx tool last = do
    applies ← tool.applies ctx
    (if applies then (tool.run ctx >>= λ r. settle_result reg tool r last) else returned (inr last))

  -- The loop over the tools.
  unfoldable pub run_tools :
      ToolRegistry Ctx → Ctx → List (Tool Ctx) → Option ToolEvidence → Outcome ToolEvidence
  run_tools reg ctx [] last = returned (or_undecided last)
  run_tools reg ctx (t ∷ ts) last = try_tool reg ctx t last >>= λ r. elim r [
    | inl ev ↦ returned ev
    | inr kept ↦ run_tools reg ctx ts kept
  ]

  -- `ToolRegistry.run`
  unfoldable pub run : ToolRegistry Ctx → Ctx → Outcome ToolEvidence
  run reg ctx = run_tools reg ctx (by_cost reg.tools) none
