-- ===== src/Gates/Novelty.antt =====
-- leibniz/gates/novelty.py: novelty and non-triviality. `is_coefficient_degenerate`
-- (leibniz/structural.py) and the corpus are fields of the gate; `structural_known` is a hook that
-- a corpus may lack, and its match is the text that it is printed as.
pub mod Decides
use leibniz_daemon.Common.{
  truthy, String, Bool, false, Option, none, some, List, [], ◌∷◌, if◌then◌else◌, Outcome, raised,
  returned,
}
use leibniz_daemon.Types.{
  ClaimSignature, EdgeEvidence, FinishReason, trivial, known, Verdict, pass, fail, mechanical, Item,
  text,
}
use leibniz_daemon.Trust.{novelty_edge}
use leibniz_daemon.Propositio.{Propositio, Expressio, quarantine}
use leibniz_daemon.Verifiers.{LeanBackend, is_trivial}

pub record Corpus : Type 0 where
  pub contains_equivalent : ClaimSignature → Bool
  pub nearest : ClaimSignature → String
  pub structural_known : Option (Option String → Option String)

pub record NoveltyGate : Type 0 where
  pub corpus : Corpus
  pub lean : LeanBackend
  pub is_coefficient_degenerate : Option String → Bool

abbrev novelty_evidence : Verdict → List (String × Item) → String → EdgeEvidence
novelty_evidence v details producer = record {
  edge = novelty_edge;
  tier = mechanical;
  verdict = v;
  details = details;
  cost_units = 1;
  producer = some producer;
}

-- What `structural_known(claim_property)` matches, where the corpus has it and the match is truthy.
unfoldable pub structural_match : Corpus → Option String → Option String
structural_match corpus claim_property = elim corpus.structural_known [
  | none ↦ none
  | some f ↦ let m = f claim_property in if truthy m then m else none
]

-- The body of `check`, once the assertions have passed.
unfoldable pub check_with :
    NoveltyGate → Propositio → Expressio → ClaimSignature → Propositio × EdgeEvidence
check_with g prop expr sig =
    if g.is_coefficient_degenerate prop.enuntiatio.claim_property
    then (
      quarantine trivial prop,
      novelty_evidence fail
          (("reason", text "coefficient-degenerate modular claim (truth is variable-independent)")
            ∷ [])
          "structural.coefficient_degenerate",
    )
    else if is_trivial g.lean expr
    then (
      quarantine trivial prop,
      novelty_evidence fail (("reason", text "closed by decision procedure") ∷ [])
          "LeanVerifier.is_trivial",
    )
    else if g.corpus.contains_equivalent sig
    then (
      quarantine known prop,
      novelty_evidence fail
          (("reason", text "structural match in known corpus")
            ∷ ("neighbors", text (g.corpus.nearest sig))
            ∷ [])
          "CorpusBackend",
    )
    else elim (structural_match g.corpus prop.enuntiatio.claim_property) [
      | some m ↦ (
        quarantine known prop,
        novelty_evidence fail
            (("reason", text "structural congruence match") ∷ ("match", text m) ∷ [])
            "CorpusBackend.structural_known",
      )
      | none ↦ (
        prop,
        novelty_evidence pass (("neighbors", text (g.corpus.nearest sig)) ∷ []) "NoveltyGate",
      )
    ]

-- `NoveltyGate.check`: the candidate after the call and the evidence. Its assertion raises.
unfoldable pub check : NoveltyGate → Propositio → Outcome (Propositio × EdgeEvidence)
check g prop = elim prop.expressio [
  | none ↦ raised
  | some expr ↦ elim prop.signature [
    | none ↦ raised
    | some sig ↦ returned (check_with g prop expr sig)
  ]
]

-- `prop.signature is not None and self.corpus.contains_equivalent(prop.signature)`
unfoldable pub known_signature : Corpus → Option ClaimSignature → Bool
known_signature corpus none = false
known_signature corpus (some sig) = corpus.contains_equivalent sig

abbrev late_failure : FinishReason → Propositio → String → String → Propositio × Option EdgeEvidence
late_failure reason prop why producer = (
  quarantine reason prop,
  some (novelty_evidence fail (("reason", text why) ∷ ("stage", text "post-derive") ∷ []) producer),
)

-- `NoveltyGate.revalidate`, on the statement that a fast path has installed.
unfoldable pub revalidate : NoveltyGate → Propositio → Propositio × Option EdgeEvidence
revalidate g prop = elim prop.expressio [
  | none ↦ (prop, none)
  | some expr ↦
      if g.is_coefficient_degenerate prop.enuntiatio.claim_property
      then late_failure trivial prop "canonical law: coefficient-degenerate modular claim"
          "structural.coefficient_degenerate"
      else if is_trivial g.lean expr
      then late_failure trivial prop "canonical law closed by decision procedure"
          "LeanVerifier.is_trivial"
      else if known_signature g.corpus prop.signature
      then late_failure known prop "canonical law: structural match in known corpus" "CorpusBackend"
      else elim (structural_match g.corpus prop.enuntiatio.claim_property) [
        | some m ↦
            late_failure known prop "canonical law: structural congruence match"
              "CorpusBackend.structural_known"
        | none ↦ (prop, none)
      ]
]
