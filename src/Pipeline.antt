-- ===== src/Pipeline.antt =====
-- leibniz/pipeline.py: the six stages. A stage takes the candidate and returns it with what it has
-- written. A provider's call, an assertion and a sound backend may raise; the candidate of a stage
-- that raised is dropped, as the daemon drops it.
pub mod Drafts
mod Repair
pub mod Steering
pub mod Survivors
pub mod Reasons
pub use Drafts.{Platform, new_expressio, item_truthy}
unfoldable pub use Drafts.{
  given, contract_field, claim_type_or_default, parse_enuntiatio, parse_expressio, seed_descriptor,
  normalized_hash_of, signature_of,
}
pub use Repair.{Provider, compile_with_repair-honest}
unfoldable pub use Repair.{repair_imports, repaired, repair_loop, repair_with, compile_with_repair}
pub use Steering.{Contract, commit}
unfoldable pub use Steering.{
  problems, repaired_contract, steer_loop, weaker_query, admits, steered, steer_with,
  steer_contract,
}
use leibniz_daemon.Common.{
  ℕ, String, Bool, true, false, not, Option, none, some, List, [], ◌∷◌, ◌++◌, if◌then◌else◌,
  Outcome, raised, returned, ◌>>=◌,
}
use leibniz_daemon.Types.{
  EdgeEvidence, ClaimSignature, Role, Verdict, pass, fail, is_fail, is_pass, FinishReason,
  malformed, refuted, unproven,
}
use leibniz_daemon.Propositio.{
  Propositio, Enuntiatio, Expressio, Demonstratio, new_demonstratio, record_edge, quarantine,
}
use leibniz_daemon.Verifiers.{LeanBackend, SmtBackend, cheap_refute, discharge}
use leibniz_daemon.Gates.Novelty.{NoveltyGate, check as novelty_check}
use leibniz_daemon.Gates.Faithfulness.{FaithfulnessGate, check as faithfulness_check}

-- The Leonardo seam.
pub record Leonardo : Type 0 where
  pub survey_frontier : String → Outcome (List String)
  pub cross_domain_analogies : String → Outcome (List String)

-- `Survey.run`
unfoldable pub with_analogies : Leonardo → List String → Outcome (List String)
with_analogies leonardo [] = returned []
with_analogies leonardo (e ∷ es) = do
  analogies ← leonardo.cross_domain_analogies e
  rest ← with_analogies leonardo es
  returned (e ∷ (analogies ++ rest))

unfoldable pub survey : Leonardo → String → Outcome (List String)
unfolding with_analogies
survey leonardo domain = do edges ← leonardo.survey_frontier domain; with_analogies leonardo edges

-- `Propositio(enuntiatio=..., behavior_descriptor=...)`, with the identity and the time of birth
-- that the class draws.
abbrev pub new_propositio : String → ℕ → Enuntiatio → List (ℕ × ℕ) → Propositio
new_propositio pid born en descriptor = record {
  enuntiatio = en;
  expressio = none;
  demonstratio = none;
  pid = pid;
  born = born;
  parents = [];
  signature = none;
  edges = [];
  promulgated = false;
  finish_reason = none;
  behavior_descriptor = descriptor;
  seed_origin = none;
}

-- `Conjecture.run`
unfoldable pub conjecture : Platform → Provider → String → ℕ → String → Outcome Propositio
conjecture os provider pid born seed = do
  draft ← provider.propose Role.conjecture seed
  returned (new_propositio pid born (parse_enuntiatio os draft seed) (seed_descriptor os seed))

pub record Formalize : Type 0 where
  pub os : Platform
  pub provider : Provider
  pub lean : LeanBackend
  pub smt : SmtBackend
  pub novelty : NoveltyGate
  pub faithfulness : FaithfulnessGate
  pub max_repairs : ℕ
  pub max_contract_repairs : ℕ

-- The faithfulness gate on the candidate whose contract has been steered.
unfoldable pub judge_faithfulness : Formalize → Propositio → Outcome (Propositio × Bool)
judge_faithfulness f prop = do
  q ← steer_contract f.os f.provider f.smt f.max_contract_repairs prop
  r ← faithfulness_check f.faithfulness q
  returned (record_edge r.1 r.0, is_pass r.1.verdict)

-- The novelty gate, and what follows where it does not fail.
unfoldable pub judge_novelty : Formalize → Propositio → Outcome (Propositio × Bool)
judge_novelty f prop = do
  r ← novelty_check f.novelty prop
  let q = record_edge r.1 r.0
  (if is_fail r.1.verdict then returned (q, false) else judge_faithfulness f q)

-- The cheap refutation, and what follows where it does not refute.
unfoldable pub judge : Formalize → Propositio → Outcome (Propositio × Bool)
judge f prop =
    let cr = cheap_refute f.smt prop.enuntiatio.falsifiable_claim 64 in
    let q = record_edge cr prop in
    if is_fail cr.verdict then returned (quarantine refuted q, false) else judge_novelty f q

-- The candidate with its compiled statement and its signature.
unfoldable pub formalized : Formalize → Propositio → Expressio → Outcome Propositio
formalized f prop expr = do
  let expr' = record expr {
    compiles = some true;
    normalized_hash = normalized_hash_of f.os f.lean expr;
  }
  sig ← signature_of f.os prop expr'
  returned (record prop { expressio = some expr'; signature = some sig })

-- `Formalize.run`: the candidate, and whether it survives.
unfoldable pub formalize : Formalize → Propositio → Outcome (Propositio × Bool)
formalize f prop = do
  draft ← f.provider.propose Role.formalize prop.enuntiatio.statement
  let compiled =
      compile_with_repair f.os f.provider f.lean prop.enuntiatio.statement
        (parse_expressio f.os draft) f.max_repairs
  (if not compiled.1
      then returned (quarantine malformed prop, false)
      else formalized f prop compiled.0 >>= judge f)

relation_of : Option ClaimSignature → String
relation_of none = "claim"
relation_of (some sig) = sig.relation

-- `Derive.run`; its assertion raises.
unfoldable pub derive : Provider → Propositio → Outcome Propositio
unfolding relation_of
derive provider prop = elim prop.expressio [
  | none ↦ raised
  | some expr ↦ do
    script ← provider.propose Role.proof_draft expr.theorem_src
    returned (record prop {
      demonstratio = some (new_demonstratio (relation_of prop.signature) (some script));
    })
]

abbrev with_proof : Propositio → Demonstratio × EdgeEvidence → Propositio
with_proof prop (demo, ev) = record_edge ev (record prop { demonstratio = some demo })

-- `Demonstrate.run`; its assertion raises.
unfoldable pub demonstrate : LeanBackend → Propositio → Outcome Propositio
demonstrate lean prop = elim prop.expressio [
  | none ↦ raised
  | some expr ↦ elim prop.demonstratio [
    | none ↦ raised
    | some demo ↦ returned (with_proof prop (discharge lean expr demo))
  ]
]

-- `Promulgate.run`
unfoldable pub promulgate : Propositio → Bool → Propositio
promulgate prop true = record prop {
  promulgated = true;
  finish_reason = some FinishReason.promulgated;
}
promulgate prop false = elim prop.finish_reason [
  | some reason ↦ prop
  | none ↦ quarantine unproven prop
]
