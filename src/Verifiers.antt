-- ===== src/Verifiers.antt =====
-- leibniz/verifiers.py: the two judges over their backends. A backend is a record of the calls
-- that the verifiers, the gates and the pipeline make of it; a hook that a backend may lack
-- (`getattr(backend, name, None)`) is an `Option`. SHA-256 is an argument.
mod Normalize
pub mod Discharge
unfoldable pub use Normalize.{collapse, normalize_statement}
use leibniz_daemon.Common.{
  ℕ, String, Bool, true, false, ◌&&◌, Option, none, some, List, [], ◌∷◌, if◌then◌else◌, str_eq,
  Outcome, is_some, truthy,
}
use leibniz_daemon.Types.{EdgeEvidence, Item, text, null, mechanical, pass, fail}
use leibniz_daemon.Trust.{proof_edge, kernel_producer}
use leibniz_daemon.Propositio.{Expressio, Demonstratio, seal}

pub record LeanBackend : Type 0 where
  pub compile_statement : Expressio → Bool
  pub check_proof : Expressio → String → Bool
  pub closed_by_decision_procedure : Expressio → Bool
  pub enforces_axiom_closure : Bool
  pub mint_requires_independent_check : Bool
  -- the report's `ok`, or `none` where there is no report
  pub independent_axiom_footprint : Option (Expressio → String → Option Bool)
  pub compile_with_error : Option (Expressio → Bool × String)
  pub normalize_hash : Option (Expressio → Option String)

pub record SmtBackend : Type 0 where
  pub find_counterexample : String → ℕ → Option String
  pub find_gaming_witness : String → String → ℕ → Option String
  pub encodable : Option (String → Bool)
  pub decide_unsat : Option (List String → Outcome (Option Bool))

-- Returns the expression with its two fields set, and the answer.
unfoldable pub validate_statement : (String → String) → LeanBackend → Expressio → Expressio × Bool
validate_statement digest backend expr =
    let compiles = backend.compile_statement expr in
    let hash =
      if str_eq expr.normalized_hash ""
      then normalize_statement digest expr.theorem_src
      else expr.normalized_hash in
    (record expr { compiles = some compiles; normalized_hash = hash }, compiles)

-- `bool(report and report.get("ok"))`, where the reporter may be missing.
abbrev footprint_ok : Option (Expressio → String → Option Bool) → Expressio → String → Bool
footprint_ok none expr proof = false
footprint_ok (some probe) expr proof = elim (probe expr proof) [ none ↦ false | some ok ↦ ok ]

abbrev checked : LeanBackend → Expressio → Option String → Bool
checked backend expr none = false
checked backend expr (some proof) =
    truthy (some proof) && backend.enforces_axiom_closure && backend.check_proof expr proof

abbrev confirmed : LeanBackend → Expressio → Option String → Bool
confirmed backend expr none = false
confirmed backend expr (some proof) =
    if backend.mint_requires_independent_check
    then footprint_ok backend.independent_axiom_footprint expr proof
    else true

-- Whether the kernel's verdict is stamped.
unfoldable pub stamps : LeanBackend → Expressio → Demonstratio → Bool
stamps backend expr demo =
    checked backend expr demo.proof_src && confirmed backend expr demo.proof_src

-- `LeanVerifier.discharge`: the demonstration is written, and the proof edge returned.
unfoldable pub discharge : LeanBackend → Expressio → Demonstratio → Demonstratio × EdgeEvidence
unfolding seal
discharge backend expr demo =
    let ok = stamps backend expr demo in
    let sealed = seal (record demo { kernel_verified = ok }) in
    (
      sealed,
      record {
        edge = proof_edge;
        tier = mechanical;
        verdict = if ok then pass else fail;
        details = ("obligation", text sealed.proof_obligation) ∷ ("qed", text sealed.qed) ∷ [];
        cost_units = 10;
        producer = some kernel_producer;
      },
    )

unfoldable pub is_trivial : LeanBackend → Expressio → Bool
is_trivial backend expr = backend.closed_by_decision_procedure expr

unfoldable pub cheap_refute : SmtBackend → String → ℕ → EdgeEvidence
cheap_refute backend falsifiable_claim bound =
    let cx = backend.find_counterexample falsifiable_claim bound in
    record {
      edge = "cheap_refutation";
      tier = mechanical;
      verdict = if is_some cx then fail else pass;
      details = ("counterexample", (elim cx [ none ↦ null | some model ↦ text model ])) ∷ [];
      cost_units = 1;
      producer = none;
    }
