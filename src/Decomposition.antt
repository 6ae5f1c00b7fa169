-- ===== src/Decomposition.antt =====
-- leibniz/lemma_decomposition.py: helper lemmas proved one by one, then the statement again with them
-- as hints. The provider's `decompose` may be missing or raise. `read_plan` is `json.loads` with the
-- two type tests after it: it raises, or gives the list under "lemmas" of an object, an entry that
-- is no object as `none`.
pub mod Statement
pub mod Bounds
use leibniz_daemon.Common.{
  ℕ, ◌+◌, String, Bool, true, false, not, ◌&&◌, ◌||◌, Option, none, some, List, [], ◌∷◌, ◌++◌, leb,
  ◌==◌, if◌then◌else◌, str_eq, Dict, take, strip, truthy, is_some, Outcome, raised, returned,
}
use leibniz_daemon.Types.{Item}
use leibniz_daemon.Propositio.{Propositio, Expressio, Demonstratio, record_edge}
use leibniz_daemon.Consensus.{
  ProofConsensus, ConsensusResult, prove as prove_by_consensus, or_unproved,
}
use leibniz_daemon.Consensus.Normalize.{split_once}
use leibniz_daemon.Pipeline.{Platform, new_expressio}
use leibniz_daemon.Pipeline.Drafts.{given}
use Prim.Native.Char.{code}
use Prim.Native.String.{[] as nil, ◌∷◌ as ◌::◌, ◌++◌ as str_append}

pub record DecompositionStats : Type 0 where
  pub attempted : ℕ
  pub planned : ℕ
  pub lemmas_proposed : ℕ
  pub lemmas_proven : ℕ
  pub composed_attempts : ℕ
  pub closed : ℕ

abbrev letter_or_underscore : ℕ → Bool
letter_or_underscore c = (leb 65 c && leb c 90) || (leb 97 c && leb c 122) || (c == 95)

abbrev name_char : ℕ → Bool
name_char c = letter_or_underscore c || (leb 48 c && leb c 57) || (c == 39)

all_name_chars : String → Bool
all_name_chars nil = true
all_name_chars (c :: s) = name_char (code c) && all_name_chars s

-- `_SAFE_NAME.match(name)`
unfoldable pub safe_name : String → Bool
unfolding all_name_chars
safe_name nil = false
safe_name (c :: s) = letter_or_underscore (code c) && all_name_chars s

-- `_safe_lemma`
unfoldable pub safe_lemma : String → String → Bool
safe_lemma name stmt =
    safe_name name && not (is_some (split_once "\n" stmt)) && not (is_some (split_once ":=" stmt))

pub record LemmaDecomposer : Type 0 where
  pub decompose : Option (String → Outcome String)
  pub read_plan : String → Outcome (Option (List (Option (Dict Item))))
  pub os : Platform
  pub consensus : ProofConsensus
  pub max_lemmas : ℕ

-- The name and the statement of an entry of the plan, where it is usable.
unfoldable pub usable : LemmaDecomposer → Option (Dict Item) → Option (String × String)
usable d none = none
usable d (some lem) = elim (given d.os lem "name") [
  | none ↦ none
  | some name ↦ elim (given d.os lem "statement") [
    | none ↦ none
    | some stmt ↦
        if safe_lemma (strip name) (strip stmt) then some (strip name, strip stmt) else none
  ]
]

abbrev pub lemma_source : String → String → String
lemma_source name stmt = str_append "lemma " (str_append name (str_append " " stmt))

-- The sub-lemma as the ensemble is asked for it.
abbrev pub sub_lemma : Expressio → String → String → Expressio
sub_lemma expr name stmt = new_expressio (lemma_source name stmt) expr.imports none

abbrev have_block : String → String → String → String
have_block name stmt proof =
    str_append "have "
      (str_append name (str_append " " (str_append stmt (str_append " := " (strip proof)))))

-- `res.reached and res.proof and res.proof.proof_src`: the proof's text.
unfoldable pub usable_proof : ConsensusResult → Option String
usable_proof res =
    if leb res.required res.count
    then elim res.proof [
      | none ↦ none
      | some demo ↦ if truthy demo.proof_src then demo.proof_src else none
    ]
    else none

-- The loop over the plan: the `have` blocks, and the statistics.
unfoldable pub prove_lemmas :
    LemmaDecomposer
    → Expressio
    → List (Option (Dict Item))
    → DecompositionStats
    → DecompositionStats × List String
prove_lemmas d expr [] stats = (stats, [])
prove_lemmas d expr (lem ∷ lems) stats = elim (usable d lem) [
  | none ↦ prove_lemmas d expr lems stats
  | some r ↦
      let asked = record stats { lemmas_proposed = stats.lemmas_proposed + 1 } in
      elim (usable_proof (prove_by_consensus d.consensus (sub_lemma expr r.0 r.1))) [
        | none ↦ prove_lemmas d expr lems asked
        | some proof ↦
            let rest =
              prove_lemmas d expr lems (record asked { lemmas_proven = asked.lemmas_proven + 1 }) in
            (rest.0, have_block r.0 r.1 proof ∷ rest.1)
      ]
]

-- `"\n".join(haves)`
unfoldable pub join_lines : List String → String
join_lines [] = ""
join_lines (x ∷ []) = x
join_lines (x ∷ y ∷ ys) = str_append x (str_append "\n" (join_lines (y ∷ ys)))

-- The statement again, with hints.
abbrev pub composed : Expressio → List String → Expressio
composed expr haves = record (new_expressio expr.theorem_src expr.imports expr.established_domain) {
  normalized_hash = expr.normalized_hash;
  compiles = expr.compiles;
  proof_hints = join_lines haves;
}

-- The second attempt at the statement itself.
unfoldable pub compose :
    LemmaDecomposer
    → Expressio
    → DecompositionStats × List String
    → DecompositionStats × Option ConsensusResult
compose d expr (stats, []) = (stats, none)
compose d expr (stats, have ∷ haves) =
    let result = prove_by_consensus d.consensus (composed expr (have ∷ haves)) in
    (
      record stats {
        composed_attempts = stats.composed_attempts + 1;
        closed = if leb result.required result.count then stats.closed + 1 else stats.closed;
      },
      some result,
    )

-- What is done with the plan, if there is one.
unfoldable pub with_plan :
    LemmaDecomposer
    → Expressio
    → Outcome (Option (List (Option (Dict Item))))
    → DecompositionStats
    → DecompositionStats × Option ConsensusResult
with_plan d expr raised stats = (stats, none)
with_plan d expr (returned none) stats = (stats, none)
with_plan d expr (returned (some lems)) stats =
    compose d expr
      (prove_lemmas d expr (take d.max_lemmas lems) (record stats { planned = stats.planned + 1 }))

unfoldable pub plan_of :
    LemmaDecomposer → Expressio → Option (Outcome (Option (List (Option (Dict Item)))))
plan_of d expr = elim d.decompose [
  | none ↦ none
  | some ask ↦ some (elim (ask expr.theorem_src) [ raised ↦ raised | returned s ↦ d.read_plan s ])
]

-- `LemmaDecomposer.prove`
unfoldable pub decompose_and_prove :
    LemmaDecomposer → DecompositionStats → Expressio → DecompositionStats × Option ConsensusResult
decompose_and_prove d stats expr =
    let counted = record stats { attempted = stats.attempted + 1 } in
    elim (plan_of d expr) [ none ↦ (counted, none) | some plan ↦ with_plan d expr plan counted ]

-- The result of the decomposition where it reached the consensus, and else the first one.
abbrev pub better : ConsensusResult → Option ConsensusResult → ConsensusResult
better result none = result
better result (some decomposed) =
    if leb decomposed.required decomposed.count then decomposed else result

-- The ensemble's result, or the decomposition's where that is the one that reached.
unfoldable pub prove_or_decompose :
    ProofConsensus
    → LemmaDecomposer
    → DecompositionStats
    → Expressio
    → DecompositionStats × ConsensusResult
prove_or_decompose c d stats expr =
    let result = prove_by_consensus c expr in
    if leb result.required result.count
    then (stats, result)
    else (let r = decompose_and_prove d stats expr in (r.0, better result r.1))

-- `DecomposingDemonstrate.run`; its assertion raises.
unfoldable pub demonstrate_decomposing :
    ProofConsensus
    → LemmaDecomposer
    → DecompositionStats
    → Propositio
    → DecompositionStats × Outcome Propositio
demonstrate_decomposing c d stats prop = elim prop.expressio [
  | none ↦ (stats, raised)
  | some expr ↦
      let r = prove_or_decompose c d stats expr in
      (
        r.0,
        returned (
            record_edge r.1.edge
              (record prop { demonstratio = some (or_unproved c.obligation r.1.proof) })),
      )
]
