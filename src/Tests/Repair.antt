-- ===== src/Tests/Repair.antt =====
-- One prover's vote falls short; a decomposition and a repairer of another model make it up.
use leibniz_daemon.Common.{
  true, ◌≡◌, refl, ◌↔◌, none, some, [], ◌∷◌, returned, catch, strip, lstrip, rstrip, is_space,
  lookup, insert, str_eq, is_some,
}
use leibniz_daemon.Types.{text}
use leibniz_daemon.Propositio.{Propositio, seal}
use leibniz_daemon.Verifiers.{stamps, discharge}
use leibniz_daemon.Consensus.{
  ProofConsensus, direct, prove as prove_by_consensus, tally, verified, attempt, draft, distinct,
  prover_identity, prover_context,
}
use leibniz_daemon.Consensus.Normalize.{
  normalize_proof, unfence, drop_header, split_once, after_prefix,
}
use leibniz_daemon.Pipeline.Drafts.{given}
use leibniz_daemon.Decomposition.{
  DecompositionStats, LemmaDecomposer, usable, safe_lemma, safe_name, usable_proof, prove_lemmas,
  join_lines, compose, with_plan, plan_of, decompose_and_prove, prove_or_decompose,
  demonstrate_decomposing,
}
use leibniz_daemon.Decomposition.Statement.{IsDemonstrated, demonstrate_decomposing-IsDemonstrated}
use leibniz_daemon.Repair.{
  ProofRepairer, RepairingDemonstrate, judge_candidate, rounds, prove_with, prove, add_closer,
  ask_member, ask_panel, repair_edge, prior_result, conclude, ask_all, repair_from, run,
}
use leibniz_daemon.Repair.Canonical.{canonical_model, drop_role, after_slash}
use leibniz_daemon.Repair.Closes.{IsSpent, prove-IsSpent}
use leibniz_daemon.Repair.Complete.{Converses, prove_iff}
use leibniz_daemon.Tests.Data.{candidate, statement, consensus, lean, os}

abbrev short : ProofConsensus
short = record consensus {
  provers = direct (some "a") "1" (λ role context. returned "by simp") ∷ [];
}

abbrev decomposer : LemmaDecomposer
decomposer = record {
  decompose = some (λ src. returned "plan");
  read_plan = λ s.
      returned (some (some (("name", text "h") ∷ ("statement", text ": True") ∷ []) ∷ none ∷ []));
  os = os;
  consensus = consensus;
  max_lemmas = 4;
}

abbrev no_stats : DecompositionStats
no_stats = record {
  attempted = 0;
  planned = 0;
  lemmas_proposed = 0;
  lemmas_proven = 0;
  composed_attempts = 0;
  closed = 0;
}

abbrev one_lemma : DecompositionStats
one_lemma = record {
  attempted = 1;
  planned = 1;
  lemmas_proposed = 1;
  lemmas_proven = 1;
  composed_attempts = 1;
  closed = 1;
}

counts : (demonstrate_decomposing short decomposer no_stats candidate).0 ≡ one_lemma
unfolding demonstrate_decomposing prove_or_decompose decompose_and_prove plan_of with_plan compose
    prove_lemmas usable given lookup safe_lemma safe_name split_once after_prefix usable_proof
    join_lines prove_by_consensus tally verified attempt draft distinct prover_identity discharge
    stamps seal prover_context normalize_proof unfence drop_header strip lstrip rstrip is_space
counts = refl

abbrev decomposed : Propositio
decomposed = catch (demonstrate_decomposing short decomposer no_stats candidate).1 candidate

demonstrate_decomposing-IsDemonstrated_example :
    IsDemonstrated short (some decomposer) statement candidate decomposed
unfolding demonstrate_decomposing
demonstrate_decomposing-IsDemonstrated_example =
    demonstrate_decomposing-IsDemonstrated short decomposer no_stats statement candidate decomposed
      refl refl

-- A reasoner whose draft the check rejects and whose repair it accepts.
abbrev repairer : ProofRepairer
repairer = record {
  provider = record {
    propose = λ role src. returned (record { said = "by decide"; last_used = none });
    repair_proof =
        λ src proof error. returned (record { said = "by omega"; last_used = some "x/c" });
    model = some "c";
  };
  lean = lean;
  check_proof_with_error = some (λ expr proof. (str_eq proof "by omega", "error"));
  lower = λ s. s;
  obligation = "claim";
  max_rounds = 2;
  identity = "repair:frontier";
  stats = record { attempted = 0; closed = 0; repairs = 0; promulgated = 0; rounds_to_close = [] };
  last_model = none;
}

closed_in_one : (prove repairer statement).0.stats.rounds_to_close ≡ 1 ∷ []
unfolding prove prove_with rounds judge_candidate discharge stamps seal normalize_proof unfence
    drop_header split_once after_prefix strip lstrip rstrip is_space
closed_in_one = refl

prove-IsSpent_example : IsSpent repairer statement 2 (prove repairer statement)
prove-IsSpent_example = prove-IsSpent repairer statement

prove_iff_example : (is_some (prove repairer statement).1 ≡ true) ↔ Converses repairer statement
prove_iff_example = prove_iff repairer statement

abbrev repairing : RepairingDemonstrate
repairing = record {
  consensus = short;
  decomposer = none;
  decomposition = no_stats;
  repairer = repairer;
  panel = [];
}

abbrev repaired : Propositio
repaired = catch (run repairing candidate).1 candidate

promulgates : (run repairing candidate).0.repairer.stats.promulgated ≡ 1
unfolding run prior_result repair_from ask_all ask_member ask_panel add_closer conclude repair_edge
    prove prove_with rounds judge_candidate canonical_model drop_role after_slash lookup insert
    prove_by_consensus tally verified attempt draft distinct prover_identity discharge stamps seal
    prover_context normalize_proof unfence drop_header split_once after_prefix strip lstrip rstrip
    is_space
promulgates = refl
