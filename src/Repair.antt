-- ===== src/Repair.antt =====
-- leibniz/proof_repair.py: a draft, the kernel's complaint, a repair, for a bounded number of rounds.
-- A reasoner's call may raise; with its text comes what the reasoner then names as `last_used`. The
-- backend's `check_proof_with_error` may be missing. `str.lower` is a field, as in the ensemble. The
-- repairers of a panel are distinct objects, so each has its own state.
pub mod Canonical
pub mod Conversation
pub mod Closes
pub mod Complete
pub mod Panel
pub mod Base
pub mod Recorded
use leibniz_daemon.Common.{
  ℕ, zero, suc, ◌+◌, ◌*◌, max, String, Bool, true, false, not, Option, none, some, List, [], ◌∷◌,
  ◌++◌, map, leb, if◌then◌else◌, str_eq, contains, length, truthy, Dict, lookup, insert, is_some,
  Outcome, raised, returned,
}
use leibniz_daemon.Types.{EdgeEvidence, Role, proof_draft, pass, Item, num, text, texts}
use leibniz_daemon.Propositio.{Propositio, Expressio, Demonstratio, new_demonstratio, record_edge}
use leibniz_daemon.Verifiers.{LeanBackend, discharge}
use leibniz_daemon.Consensus.{
  ProofConsensus, ConsensusResult, distinct, or_unproved, if_verified, prove as prove_by_consensus,
}
use leibniz_daemon.Decomposition.{LemmaDecomposer, DecompositionStats, prove_or_decompose}
use Prim.Native.Nat.{Ordering}
use Prim.Native.String.{compare}
use leibniz_daemon.Consensus.Normalize.{normalize_proof}
use leibniz_daemon.Repair.Canonical.{canonical_model}

pub record RepairStats : Type 0 where
  pub attempted : ℕ
  pub closed : ℕ
  pub repairs : ℕ
  pub promulgated : ℕ
  pub rounds_to_close : List ℕ

pub record Reply : Type 0 where
  pub said : String
  pub last_used : Option String

pub record Reasoner : Type 0 where
  pub propose : Role → String → Outcome Reply
  pub repair_proof : String → String → String → Outcome Reply
  pub model : Option String

pub record ProofRepairer : Type 0 where
  pub provider : Reasoner
  pub lean : LeanBackend
  pub check_proof_with_error : Option (Expressio → String → Bool × String)
  pub lower : String → String
  pub obligation : String
  pub max_rounds : ℕ
  pub identity : String
  pub stats : RepairStats
  pub last_model : Option String

abbrev pub Check : Type 0
Check = Expressio → String → Bool × String

-- The candidate proof that a reply holds, with the model that wrote it.
abbrev pub candidate_of : ProofRepairer → Reply → Reply
candidate_of p reply = record reply { said = normalize_proof p.lower reply.said }

abbrev pub demo_of : ProofRepairer → String → Demonstratio
demo_of p proof = new_demonstratio p.obligation (some proof)

-- The check of a candidate, with the kernel's stamp where the check passes: a proof, or the error.
unfoldable pub judge_candidate :
    ProofRepairer → Check → Expressio → String → Option (Demonstratio × EdgeEvidence) × String
judge_candidate p check expr proof =
    let (ok, error) = check expr proof in
    if ok
    then (
      if_verified (discharge p.lean expr (demo_of p proof)),
      "kernel rejected a proof the pre-check accepted",
    )
    else (none, error)

-- `getattr(provider, "last_used", None) or getattr(provider, "model", None)`
abbrev pub model_of : ProofRepairer → Reply → Option String
model_of p reply = if truthy reply.last_used then reply.last_used else p.provider.model

-- What is written when a goal is closed in round `r`.
abbrev pub close : ProofRepairer → Reply → ℕ → ProofRepairer
close p reply r = record p {
  last_model = model_of p reply;
  stats = record p.stats {
    closed = p.stats.closed + 1;
    rounds_to_close = p.stats.rounds_to_close ++ r ∷ [];
  };
}

abbrev pub count_repair : ProofRepairer → ProofRepairer
count_repair p = record p { stats = record p.stats { repairs = p.stats.repairs + 1 } }

abbrev pub ask_repair : ProofRepairer → Expressio → Reply → String → Outcome Reply
ask_repair p expr candidate error = p.provider.repair_proof expr.theorem_src candidate.said error

-- The rounds: how many repairs are left, and the number of this round.
unfoldable pub rounds :
    ℕ
    → ℕ
    → Check
    → Expressio
    → ProofRepairer
    → Reply
    → ProofRepairer × Option (Demonstratio × EdgeEvidence)
rounds zero r check expr p candidate =
    if str_eq candidate.said ""
    then (p, none)
    else elim (judge_candidate p check expr candidate.said).0 [
      | some won ↦ (close p candidate r, some won)
      | none ↦ (p, none)
    ]
rounds (suc left) r check expr p candidate =
    if str_eq candidate.said ""
    then (p, none)
    else elim (judge_candidate p check expr candidate.said).0 [
      | some won ↦ (close p candidate r, some won)
      | none ↦ elim (ask_repair p expr candidate (judge_candidate p check expr candidate.said).1) [
        | raised ↦ (count_repair p, none)
        | returned reply ↦ rounds left (r + 1) check expr (count_repair p) (candidate_of p reply)
      ]
    ]

abbrev pub count_attempt : ProofRepairer → ProofRepairer
count_attempt p = record p { stats = record p.stats { attempted = p.stats.attempted + 1 } }

-- The draft and the rounds, where the backend shows its errors.
unfoldable pub prove_with :
    Option Check → ProofRepairer → Expressio → ProofRepairer × Option (Demonstratio × EdgeEvidence)
prove_with none p expr = (p, none)
prove_with (some check) p expr = elim (p.provider.propose proof_draft expr.theorem_src) [
  | raised ↦ (count_attempt p, none)
  | returned reply ↦ rounds p.max_rounds 0 check expr (count_attempt p) (candidate_of p reply)
]

-- `ProofRepairer.prove`
unfoldable pub prove :
    ProofRepairer → Expressio → ProofRepairer × Option (Demonstratio × EdgeEvidence)
prove p expr = prove_with p.check_proof_with_error p expr

abbrev pub Closers : Type 0
Closers = Dict (Demonstratio × EdgeEvidence)

-- `getattr(r, "last_model", None) or r.identity`, canonicalized
abbrev pub voter : ProofRepairer → String
voter p =
    canonical_model p.lower
      (elim p.last_model [ none ↦ p.identity | some m ↦ if str_eq m "" then p.identity else m ])

-- A closed goal is a new vote unless its model has one.
unfoldable pub add_closer :
    List String → ProofRepairer → Option (Demonstratio × EdgeEvidence) → Closers → Closers
add_closer base p none closers = closers
add_closer base p (some won) closers =
    if contains base (voter p)
    then closers
    else if is_some (lookup (voter p) closers)
    then closers
    else insert (voter p) won closers

abbrev pub enough : ℕ → List String → Closers → Bool
enough min_c base closers = leb min_c (length base + length closers)

-- One member of the panel, where more votes are needed.
unfoldable pub ask_member :
    ℕ → List String → Expressio → ProofRepairer → Closers → ProofRepairer × Closers
ask_member min_c base expr p closers =
    if enough min_c base closers
    then (p, closers)
    else (let (after, out) = prove p expr in (after, add_closer base after out closers))

-- The other members, until there are enough votes.
unfoldable pub ask_panel :
    ℕ → List String → Expressio → List ProofRepairer → Closers → List ProofRepairer × Closers
ask_panel min_c base expr [] closers = ([], closers)
ask_panel min_c base expr (p ∷ ps) closers =
    let (after, more) = ask_member min_c base expr p closers in
    let (others, all) = ask_panel min_c base expr ps more in
    if enough min_c base closers then (p ∷ ps, closers) else (after ∷ others, all)

-- `sorted(closers)`
insert_text : String → List String → List String
insert_text s [] = s ∷ []
insert_text s (t ∷ ts) = elim (compare s t) [ Ordering.gt ↦ t ∷ insert_text s ts | _ ↦ s ∷ t ∷ ts ]

sorted_names : Closers → List String
sorted_names [] = []
sorted_names ((k, won) ∷ closers) = insert_text k (sorted_names closers)

-- The kernel's edge of a repaired proof, annotated with the votes.
unfoldable pub repair_edge : EdgeEvidence → ℕ → ℕ → Closers → EdgeEvidence
unfolding sorted_names insert_text
repair_edge ev votes min_c closers = record ev {
  verdict = pass;
  details =
      ("consensus", num votes)
      ∷ ("required", num min_c)
      ∷ ("via", text "repair")
      ∷ ("repair_models", texts (sorted_names closers))
      ∷ ev.details;
  cost_units = ev.cost_units * max 1 votes;
}

pub record RepairingDemonstrate : Type 0 where
  pub consensus : ProofConsensus
  pub decomposer : Option (LemmaDecomposer)
  pub decomposition : DecompositionStats
  pub repairer : ProofRepairer
  pub panel : List ProofRepairer

-- The result that the repair starts from: the ensemble's, or the decomposition's where it reached.
unfoldable pub prior_result :
    RepairingDemonstrate → Expressio → DecompositionStats × ConsensusResult
prior_result s expr = elim s.decomposer [
  | none ↦ (s.decomposition, prove_by_consensus s.consensus expr)
  | some d ↦ prove_or_decompose s.consensus d s.decomposition expr
]

abbrev pub canonical_base : RepairingDemonstrate → ConsensusResult → List String
canonical_base s result = distinct (map (canonical_model s.consensus.lower) result.identities)

abbrev pub count_promulgated : ProofRepairer → ProofRepairer
count_promulgated p = record p { stats = record p.stats { promulgated = p.stats.promulgated + 1 } }

-- What is recorded once the panel has been asked.
unfoldable pub conclude :
    RepairingDemonstrate
    → ConsensusResult
    → List String
    → Closers
    → Propositio
    → RepairingDemonstrate × Propositio
conclude s result base [] prop = (
  s,
  record_edge result.edge
      (record prop { demonstratio = some (or_unproved s.consensus.obligation result.proof) }),
)
conclude s result base ((k, (demo, ev)) ∷ closers) prop =
    let all = (k, (demo, ev)) ∷ closers in
    let votes = length base + length all in
    if enough s.consensus.min_consensus base all
    then (
      record s { repairer = count_promulgated s.repairer },
      record_edge (repair_edge ev votes s.consensus.min_consensus all)
          (record prop { demonstratio = some demo }),
    )
    else (
      s,
      record_edge result.edge
          (record prop { demonstratio = some (or_unproved s.consensus.obligation result.proof) }),
    )

-- The panel, asked in order.
unfoldable pub ask_all :
    RepairingDemonstrate → Expressio → List String → RepairingDemonstrate × Closers
ask_all s expr base =
    let min_c = s.consensus.min_consensus in
    let (first, some_closers) = ask_member min_c base expr s.repairer [] in
    let (others, closers) = ask_panel min_c base expr s.panel some_closers in
    (record s { repairer = first; panel = others }, closers)

-- What follows the prior result.
unfoldable pub repair_from :
    RepairingDemonstrate
    → Expressio
    → ConsensusResult
    → Propositio
    → RepairingDemonstrate × Propositio
repair_from s expr result prop =
    if leb result.required result.count
    then (s, record_edge result.edge (record prop { demonstratio = result.proof }))
    else (let base = canonical_base s result in
        let (asked, closers) = ask_all s expr base in conclude asked result base closers prop)

-- `RepairingDemonstrate.run`; its assertion raises.
unfoldable pub run : RepairingDemonstrate → Propositio → RepairingDemonstrate × Outcome Propositio
run s prop = elim prop.expressio [
  | none ↦ (s, raised)
  | some expr ↦
      let (stats, result) = prior_result s expr in
      let (after, done) = repair_from (record s { decomposition = stats }) expr result prop in
      (after, returned done)
]
