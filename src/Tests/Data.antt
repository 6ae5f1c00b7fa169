-- ===== src/Tests/Data.antt =====
-- A small run of the program: an ensemble, a kernel and a solver that accept all, and one claim.
use leibniz_daemon.Common.{String, true, false, Option, none, some, [], ◌∷◌, returned, raised}
use leibniz_daemon.Types.{
  correctness_over_domain, EdgeEvidence, mechanical, pass, ClaimSignature, judged,
}
use leibniz_daemon.Trust.{faithfulness_edge, novelty_edge, default_policy}
use leibniz_daemon.Propositio.{Enuntiatio, Expressio, Propositio}
use leibniz_daemon.Budget.{TrustBudget}
use leibniz_daemon.Verifiers.{LeanBackend, SmtBackend}
use leibniz_daemon.Gates.Novelty.{NoveltyGate}
use leibniz_daemon.Gates.Faithfulness.{FaithfulnessGate}
use leibniz_daemon.Gates.Verification.{Law}
use leibniz_daemon.Consensus.{ProofConsensus, direct, wrapped}
use leibniz_daemon.Pipeline.{Platform, Provider, Formalize, new_expressio, new_propositio}
use leibniz_daemon.Selection.{Archive}
use leibniz_daemon.Notebook.{Notebook}
use leibniz_daemon.Runtime.{Runtime}
use leibniz_daemon.Daemon.{Leibniz, State, ensemble}

abbrev pub claim : Enuntiatio
claim = record {
  statement = "Products are even";
  claim_type = correctness_over_domain;
  falsifiable_claim = "exists n with n * (n + 1) odd";
  domain = "analysis_of_algorithms";
  claim_domain = some "n >= 0";
  claim_property = some "n * (n + 1) % 2 == 0";
}

abbrev pub statement : Expressio
statement = new_expressio "theorem t : True" ("Mathlib" ∷ []) (some "n >= 0")

abbrev pub signature : ClaimSignature
signature = record {
  claim_type = correctness_over_domain;
  subject = "products";
  relation = "correctness";
  formal_hash = "h";
  properties = [];
  alt_hashes = [];
}

abbrev pub edge_of : String → Option String → EdgeEvidence
edge_of name producer = record {
  edge = name;
  tier = mechanical;
  verdict = pass;
  details = [];
  cost_units = 1;
  producer = producer;
}

abbrev pub judged_edge : EdgeEvidence
judged_edge = record {
  edge = faithfulness_edge;
  tier = judged;
  verdict = pass;
  details = [];
  cost_units = 3;
  producer = some "FaithfulnessJudge";
}

-- A candidate with its novelty and faithfulness edges, before its proof.
abbrev pub candidate : Propositio
candidate = record (new_propositio "p1" 7 claim []) {
  expressio = some statement;
  signature = some signature;
  edges =
      edge_of novelty_edge (some "NoveltyGate")
      ∷ edge_of faithfulness_edge (some "ClaimProbe")
      ∷ [];
}

abbrev pub fresh : Propositio
fresh = new_propositio "p0" 7 claim []

abbrev pub lean : LeanBackend
lean = record {
  compile_statement = λ expr. true;
  check_proof = λ expr proof. true;
  closed_by_decision_procedure = λ expr. false;
  enforces_axiom_closure = true;
  mint_requires_independent_check = false;
  independent_axiom_footprint = none;
  compile_with_error = some (λ expr. (true, ""));
  normalize_hash = none;
}

abbrev pub smt : SmtBackend
smt = record {
  find_counterexample = λ falsifiable bound. none;
  find_gaming_witness = λ statement' negated bound. none;
  encodable = some (λ predicate. true);
  decide_unsat = some (λ formulas. returned (some false));
}

abbrev pub novelty : NoveltyGate
novelty = record {
  corpus = record {
    contains_equivalent = λ sig. false;
    nearest = λ sig. "[]";
    structural_known = none;
  };
  lean = lean;
  is_coefficient_degenerate = λ cp. false;
}

abbrev pub faithfulness : FaithfulnessGate
faithfulness = record {
  smt = smt;
  probes = λ c. some (λ prop. some true);
  judge = λ prop. 0;
  judge_threshold = 800000;
  gaming_bound = 64;
  sound_backends = [];
  recheckers = [];
  templates = [];
}

abbrev pub os : Platform
os = record {
  loads = λ draft. none;
  show = λ item. "";
  lower = λ s. s;
  hash = λ s. 5;
  digest = λ s. s;
  resolve_imports = λ imports. imports;
}

abbrev pub provider : Provider
provider = record {
  propose = λ role context. returned "theorem t : True";
  repair_formalization = none;
  repair_contract = none;
}

abbrev pub formalizer : Formalize
formalizer = record {
  os = os;
  provider = provider;
  lean = lean;
  smt = smt;
  novelty = novelty;
  faithfulness = faithfulness;
  max_repairs = 0;
  max_contract_repairs = 0;
}

-- Two strategies of one model and a second model; the third prover fails.
abbrev pub consensus : ProofConsensus
consensus = record {
  provers =
      direct (some "a") "1" (λ role context. returned "by simp")
      ∷ wrapped (direct (some "a") "1" (λ role context. returned "by simp"))
          (λ role context. returned "by omega")
      ∷ direct (some "b") "2" (λ role context. returned "by rfl")
      ∷ direct none "3" (λ role context. raised)
      ∷ [];
  lean = lean;
  obligation = "claim";
  min_consensus = 2;
  lower = λ s. s;
}

abbrev pub law : Law
law module_name function cd cp = none

abbrev pub daemon : Leibniz
daemon = record {
  os = os;
  hash8 = λ s. 0;
  fresh = λ n. "p";
  provider = provider;
  formalizer = formalizer;
  prover = ensemble consensus;
  law = law;
  steer = λ s seed. seed;
  quality = λ prop. 500;
}

abbrev pub archive : Archive
archive = record { cells = []; resolution = 8; dims = 3 }

abbrev pub budget : TrustBudget
budget = record { policy = default_policy; total = 0; judged = 0 }

abbrev pub closed : Runtime
closed = record { instance_name = "dev"; connected = false }

abbrev pub state : State
state = record {
  report = record {
    seeds = 1;
    conjectured = 0;
    reached_proof = 0;
    promulgated = 0;
    by_reason = [];
  };
  budget = some budget;
  archive = archive;
  runtime = closed;
  ledger = [];
  notebook = none;
  frontier = none;
  clock = 0;
}

abbrev pub notebook : Notebook
notebook = record {
  capacity = 6;
  proven = [];
  too_hard = [];
  avoid = [];
  genre_kill = [];
  genre_capacity = 6;
  genre_threshold = 3;
  family_counts = [];
  dry_kill = [];
  dry_threshold = 4;
  dry_counts = [];
  family = λ cp. none;
}
