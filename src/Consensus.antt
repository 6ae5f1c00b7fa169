-- ===== src/Consensus.antt =====
-- leibniz/consensus.py: N+1 consensus over an ensemble of provers. A prover's `propose` may raise.
-- The thread pool maps in input order and the attempts share nothing, so the ensemble is a list.
-- `str.lower` is a field; `id(prover)` is a text.
pub mod Votes
pub mod Result
pub mod Normalize
pub mod Pieces
use Normalize.{normalize_proof}
use leibniz_daemon.Common.{
  ℕ, ◌*◌, max, String, Bool, true, false, not, ◌&&◌, Option, none, some, List, [], ◌∷◌, ◌++◌, map,
  leb, if◌then◌else◌, str_eq, contains, length, truthy, strip, Outcome, raised, returned, is_some,
}
use leibniz_daemon.Types.{EdgeEvidence, Role, proof_draft, mechanical, pass, fail, Item, text, num}
use leibniz_daemon.Trust.{proof_edge}
use leibniz_daemon.Propositio.{Propositio, Expressio, Demonstratio, new_demonstratio, record_edge}
use leibniz_daemon.Verifiers.{LeanBackend, discharge}
use Prim.Native.String.{◌++◌ as str_append}

abbrev pub Draft : Type 0
Draft = Role → String → Outcome String

-- A prover with its model, if it names one, and its object identity; or a strategy wrapped round
-- another prover (`base`).
pub data Prover : Type 0 where
  direct : Option String → String → Draft → Prover
  wrapped : Prover → Draft → Prover

unfoldable pub draft : Prover → Draft
draft (direct model object_id propose) = propose
draft (wrapped base propose) = propose

abbrev text_of : Option String → String
text_of none = ""
text_of (some s) = s

-- `_prover_identity`
unfoldable pub prover_identity : Prover → String
prover_identity (direct model object_id propose) =
    if truthy model then str_append "model:" (text_of model) else str_append "obj:" object_id
prover_identity (wrapped base propose) = prover_identity base

-- `_prover_context`
unfoldable pub prover_context : Expressio → String
prover_context expr =
    let hints = strip expr.proof_hints in
    if str_eq hints ""
    then expr.theorem_src
    else str_append
        "You may reuse any of these ALREADY-PROVEN facts by pasting them as `have` steps at the start of your proof:\n"
        (str_append hints (str_append "\n\nProve:\n" expr.theorem_src))

pub record ProofConsensus : Type 0 where
  pub provers : List Prover
  pub lean : LeanBackend
  pub obligation : String
  pub min_consensus : ℕ
  pub lower : String → String

pub record ConsensusResult : Type 0 where
  pub count : ℕ
  pub required : ℕ
  pub attempts : ℕ
  pub edge : EdgeEvidence
  pub proof : Option Demonstratio
  pub identities : List String
  pub verified_proof : Option Demonstratio

abbrev pub if_verified : Demonstratio × EdgeEvidence → Option (Demonstratio × EdgeEvidence)
if_verified r = if r.0.kernel_verified then some r else none

-- `_attempt`
unfoldable pub attempt : ProofConsensus → Expressio → Prover → Option (Demonstratio × EdgeEvidence)
attempt c expr prover = elim (draft prover proof_draft (prover_context expr)) [
  | raised ↦ none
  | returned raw ↦
      if_verified
        (discharge c.lean expr (new_demonstratio c.obligation (some (normalize_proof c.lower raw))))
]

abbrev pub found :
    Prover
    → Option (Demonstratio × EdgeEvidence)
    → List (Prover × Demonstratio × EdgeEvidence)
    → List (Prover × Demonstratio × EdgeEvidence)
found p none rest = rest
found p (some (demo, ev)) rest = (p, demo, ev) ∷ rest

-- The provers that produced a kernel-verified proof, with it, in input order.
unfoldable pub verified :
    ProofConsensus → Expressio → List Prover → List (Prover × Demonstratio × EdgeEvidence)
verified c expr [] = []
verified c expr (p ∷ ps) = found p (attempt c expr p) (verified c expr ps)

-- `frozenset(...)`
unfoldable pub distinct : List String → List String
distinct [] = []
distinct (x ∷ xs) = let rest = distinct xs in if contains rest x then rest else x ∷ rest

abbrev pub identity_of : Prover × Demonstratio × EdgeEvidence → String
identity_of (p, demo, ev) = prover_identity p

abbrev pub first_of_list :
    List (Prover × Demonstratio × EdgeEvidence) → Option (Demonstratio × EdgeEvidence)
first_of_list [] = none
first_of_list ((p, demo, ev) ∷ rest) = some (demo, ev)

-- A real kernel edge, annotated with the consensus.
abbrev pub consensus_edge : EdgeEvidence → ℕ → ℕ → EdgeEvidence
consensus_edge first count required = record first {
  verdict = pass;
  details = ("consensus", num count) ∷ ("required", num required) ∷ first.details;
  cost_units = first.cost_units * max 1 count;
}

abbrev pub short_edge : ℕ → ℕ → ℕ → EdgeEvidence
short_edge count required attempts = record {
  edge = proof_edge;
  tier = mechanical;
  verdict = fail;
  details =
      ("consensus", num count)
      ∷ ("required", num required)
      ∷ ("reason", text "insufficient independent kernel-verified proofs")
      ∷ [];
  cost_units = 10 * max 1 attempts;
  producer = none;
}

abbrev pub edge_for : Bool → Option (Demonstratio × EdgeEvidence) → ℕ → ℕ → ℕ → EdgeEvidence
edge_for true (some (demo, ev)) count required attempts = consensus_edge ev count required
edge_for true none count required attempts = short_edge count required attempts
edge_for false first count required attempts = short_edge count required attempts

abbrev pub proof_of : Option (Demonstratio × EdgeEvidence) → Option Demonstratio
proof_of none = none
proof_of (some (demo, ev)) = some demo

-- What `prove` returns for the list of verified proofs.
unfoldable pub tally :
    ProofConsensus → List (Prover × Demonstratio × EdgeEvidence) → ConsensusResult
tally c proofs =
    let identities = distinct (map identity_of proofs) in
    let count = length identities in
    let first = first_of_list proofs in
    let reached = leb c.min_consensus count in
    record {
      count = count;
      required = c.min_consensus;
      attempts = length c.provers;
      edge = edge_for reached first count c.min_consensus (length c.provers);
      proof = if reached then proof_of first else none;
      identities = identities;
      verified_proof = proof_of first;
    }

unfoldable pub prove : ProofConsensus → Expressio → ConsensusResult
prove c expr = tally c (verified c expr c.provers)

-- `result.proof or Demonstratio(...)`
abbrev pub or_unproved : String → Option Demonstratio → Demonstratio
or_unproved obligation (some proof) = proof
or_unproved obligation none = new_demonstratio obligation none

-- `ConsensusDemonstrate.run`; its assertion raises.
unfoldable pub demonstrate : ProofConsensus → Propositio → Outcome Propositio
demonstrate c prop = elim prop.expressio [
  | none ↦ raised
  | some expr ↦
      let result = prove c expr in
      returned (
        record_edge result.edge
          (record prop { demonstratio = some (or_unproved c.obligation result.proof) }))
]
