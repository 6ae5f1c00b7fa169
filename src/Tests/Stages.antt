-- ===== src/Tests/Stages.antt =====
-- The stages of the pipeline and the daemon's loop on the small run.
use leibniz_daemon.Common.{
  Dict, ℕ, strip, inr, All, Option, some, none, Outcome, returned, raised, not, str_eq, List, Bool,
  false, ◌+◌, String, true, ◌≡◌, refl, [], ◌∷◌, first_word,
}
use leibniz_daemon.Propositio.{Propositio, Expressio, quarantine}
use leibniz_daemon.Verifiers.{cheap_refute, is_trivial, normalize_statement, collapse}
use leibniz_daemon.Gates.Novelty.{
  check_with as novelty_with, check as novelty_check, structural_match,
}
use leibniz_daemon.Gates.Faithfulness.{
  gaming_witness, by_rank, consult_all, probe_stage, after_spine, check_with as faithfulness_with,
  check as faithfulness_check,
}
use leibniz_daemon.Pipeline.{
  conjecture, parse_enuntiatio, seed_descriptor, Platform, Provider, commit, parse_expressio,
  repair_imports, repair_with, compile_with_repair, compile_with_repair-honest, steer_with,
  steer_contract, normalized_hash_of, signature_of, judge_faithfulness, judge_novelty, judge,
  formalized, formalize,
}
use leibniz_daemon.Pipeline.Survivors.{IsSurvivor, formalize-IsSurvivor}
use leibniz_daemon.Daemon.{
  Leibniz, State, settle, run_seeds, run_seed, attempt_seed, draw, consider_task, remember_task,
}
use leibniz_daemon.Runtime.{to_row, remember, open_db, foreign}
use leibniz_daemon.Daemon.Rows.{IsQedRow}
use leibniz_daemon.Daemon.Run.{run_seeds-IsQedRow}
use leibniz_daemon.Daemon.Settling.{IsCounted, IsTallied, settle-IsTallied}
use leibniz_daemon.Daemon.Accounting.{total, run_seed-counts_twice}
use leibniz_daemon.Selection.{descriptor, subject_of}
use leibniz_daemon.Types.{text, finish_reason_value, FinishReason, malformed}
use leibniz_daemon.Verifiers.{SmtBackend}
use leibniz_daemon.Tests.Data.{
  claim, os, provider, lean, smt, formalizer, candidate, statement, fresh, daemon, state,
}

abbrev lean_compile : Expressio → Bool × String
lean_compile expr = (true, "")

compile_with_repair-honest_example :
    (compile_with_repair os provider lean "s" statement 3).1
    ≡ (lean_compile (compile_with_repair os provider lean "s" statement 3).0).0
compile_with_repair-honest_example =
    compile_with_repair-honest os provider lean lean_compile "s" statement 3 refl

settle-IsTallied_example :
    IsTallied FinishReason.unproven state.report (settle daemon fresh state).0.report
settle-IsTallied_example =
    settle-IsTallied daemon fresh state FinishReason.unproven (inr (refl, refl))

-- A compiler that rejects everything, and a ledger that another instance has written to.
abbrev rejecting : Leibniz
rejecting = record daemon {
  formalizer = record formalizer {
    lean = record lean { compile_with_error = some (λ expr. (false, "no")) };
  };
}

abbrev crowded : State
crowded = record state { ledger = to_row "prod" 9 candidate ∷ [] }

abbrev drawn : State × Outcome Propositio
drawn = draw rejecting "a" crowded

abbrev malformed_candidate : Propositio
malformed_candidate = elim drawn.1 [ raised ↦ fresh | returned prop ↦ quarantine malformed prop ]

run_seed-counts_twice_example :
    (between : Dict ℕ) × IsCounted (finish_reason_value malformed) crowded.report.by_reason between
    × IsCounted "errored" between (run_seed rejecting "a" crowded).report.by_reason
    × (total (run_seed rejecting "a" crowded).report.by_reason ≡ 0 + 2)
unfolding attempt_seed draw conjecture parse_enuntiatio seed_descriptor formalize parse_expressio
    compile_with_repair repair_imports repair_with settle consider_task remember_task remember
    open_db foreign to_row descriptor subject_of strip first_word
run_seed-counts_twice_example =
    run_seed-counts_twice rejecting "a" crowded drawn.0 malformed_candidate malformed refl refl refl
      refl

-- A claim whose property the solver cannot encode, and a provider that rewrites it.
abbrev vague : Propositio
vague = record candidate { enuntiatio = record claim { claim_property = some "sqrt(n) >= 0" } }

abbrev rewriting : Provider
rewriting = record provider { repair_contract = some (λ stmt cd cp ed problems'. returned "fixed") }

abbrev reading : Platform
reading = record os {
  loads = λ draft. some (
      ("claim_domain", text "n >= 0")
      ∷ ("claim_property", text "n >= 0 and n < 9")
      ∷ ("established_domain", text "n >= 0")
      ∷ []);
}

abbrev decides : List String → Outcome (Option Bool)
decides [] = returned none
decides (f ∷ []) = returned (some false)
decides (f ∷ g ∷ fs) = returned (some true)

abbrev partial_smt : SmtBackend
partial_smt = record smt {
  encodable = some (λ p. not (str_eq p "sqrt(n) >= 0"));
  decide_unsat = some decides;
}

abbrev rewritten : Propositio
rewritten =
    commit vague statement (record { cd = "n >= 0"; cp = "n >= 0 and n < 9"; ed = "n >= 0" })

-- What the formalization of the fresh candidate returns.
abbrev survivor : Propositio
survivor = elim (formalize formalizer fresh) [ raised ↦ fresh | returned r ↦ r.0 ]

formalize-IsSurvivor_example : IsSurvivor formalizer fresh survivor
unfolding formalize compile_with_repair repair_imports repair_with parse_expressio formalized
    signature_of normalized_hash_of normalize_statement collapse first_word judge cheap_refute
    judge_novelty novelty_check novelty_with structural_match is_trivial judge_faithfulness
    steer_contract steer_with faithfulness_check faithfulness_with gaming_witness after_spine
    consult_all by_rank probe_stage
formalize-IsSurvivor_example = formalize-IsSurvivor formalizer fresh survivor refl

run_seeds-IsQedRow_example : All IsQedRow (run_seeds daemon ("a" ∷ "b" ∷ []) state).ledger
run_seeds-IsQedRow_example = run_seeds-IsQedRow daemon ("a" ∷ "b" ∷ []) state tt
