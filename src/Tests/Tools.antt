-- ===== src/Tests/Tools.antt =====
-- A registry of two tools, a free searcher that finds nothing and a prover with a certificate.
use leibniz_daemon.Common.{
  ℕ, String, true, ◌≡◌, refl, none, some, [], ◌∷◌, returned, contains, lookup, insert,
}
use leibniz_daemon.Types.{pass, defer, text}
use leibniz_daemon.Gates.Sound.{Certificate}
use leibniz_daemon.Tools.{
  Tool, ToolRegistry, ToolResult, ToolDescriptor, self_built, register_tool, register_decider, run,
  run_tools, try_tool, settle_result, accept_or_defer, recheck_and_bind, bind_statement,
  compare_statement, by_cost, insert_by_cost, offered, claimed_statement, acceptance, deferral,
}
use leibniz_daemon.Tools.Confirmed.{IsOffer}
use leibniz_daemon.Tools.Grounds.{IsGrounded, run-IsGrounded}
use leibniz_daemon.Tools.Dormant.{Grown, start, add_tool, admit_kind, Grown-passes_admitted}

abbrev described : String → ℕ → ToolDescriptor
described name rank = record {
  name = name;
  provenance = self_built;
  cost_rank = rank;
  result_kind = "code";
  requires_sandbox = true;
  arg_schema = [];
}

abbrev certificate : Certificate
certificate = record {
  kind = "code";
  rechecked = true;
  payload = "11";
  details = ("statement", text "A(11) >= 2") ∷ [];
}

abbrev found : ToolResult
found = record { verdict = pass; producer = "oracle"; certificate = some certificate; details = [] }

abbrev nothing : ToolResult
nothing = record { verdict = defer; producer = "search"; certificate = none; details = [] }

abbrev oracle : Tool String
oracle = record {
  descriptor = described "oracle" 5;
  applies = λ ctx. returned true;
  run = λ ctx. returned found;
}

abbrev searcher : Tool String
searcher = record {
  descriptor = described "searcher" 1;
  applies = λ ctx. returned true;
  run = λ ctx. returned nothing;
}

abbrev dormant : ToolRegistry String
dormant = record { tools = oracle ∷ searcher ∷ []; recheckers = []; templates = [] }

abbrev deciding : ToolRegistry String
deciding = record {
  tools = oracle ∷ searcher ∷ [];
  recheckers = ("code", λ c. returned true) ∷ [];
  templates = ("code", λ payload. returned (some "A(11) >= 2")) ∷ [];
}

passes : run deciding "problem" ≡ returned (acceptance oracle found certificate)
unfolding run run_tools try_tool settle_result accept_or_defer recheck_and_bind bind_statement
    compare_statement by_cost insert_by_cost offered claimed_statement lookup
passes = refl

defers :
    run dormant "problem"
    ≡ returned (
        deferral oracle found certificate
          "no operator-registered re-checker/template for this kind (State 1 only)")
unfolding run run_tools try_tool settle_result accept_or_defer by_cost insert_by_cost offered lookup
defers = refl

run-IsGrounded_example : IsGrounded deciding "problem" (acceptance oracle found certificate)
run-IsGrounded_example =
    run-IsGrounded deciding "problem" (acceptance oracle found certificate) passes

deciding-Grown : Grown ("code" ∷ []) deciding
unfolding register_tool register_decider insert
deciding-Grown =
    admit_kind "code" (λ c. returned true) (λ payload. returned (some "A(11) >= 2"))
      (add_tool searcher (add_tool oracle start))

Grown-passes_admitted_example :
    (t : Tool String) × (r : ToolResult) × (c : Certificate) × IsOffer deciding "problem" t r c
    × (contains ("code" ∷ []) c.kind ≡ true)
Grown-passes_admitted_example =
    Grown-passes_admitted "problem" (acceptance oracle found certificate) deciding-Grown passes refl

dormant-Grown : Grown [] dormant
unfolding register_tool
dormant-Grown = add_tool searcher (add_tool oracle start)
