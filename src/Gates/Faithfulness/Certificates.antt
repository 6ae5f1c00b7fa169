-- ===== src/Gates/Faithfulness/Certificates.antt =====
-- The gate of leibniz/gates/faithfulness.py, and the one place where a certificate becomes a PASS.
use leibniz_daemon.Common.{
  ℕ, String, Bool, true, false, ◌&&◌, Option, none, some, List, [], ◌∷◌, ◌++◌, if◌then◌else◌,
  str_eq, Dict, lookup, is_some,
}
use leibniz_daemon.Types.{ClaimType, EdgeEvidence, pass, mechanical, Item, text, flag}
use leibniz_daemon.Trust.{faithfulness_edge}
use leibniz_daemon.Propositio.{Propositio}
use leibniz_daemon.Verifiers.{SmtBackend}
use leibniz_daemon.Gates.Sound.{
  Certificate, SoundBackend, FaithfulnessVerdict, is_pass_with_certificate,
}

-- A probe's answer; `none` where it is not decisive.
abbrev pub ClaimProbe : Type 0
ClaimProbe = Propositio → Option Bool

pub record FaithfulnessGate : Type 0 where
  pub smt : SmtBackend
  pub probes : ClaimType → Option ClaimProbe
  pub judge : Propositio → ℕ
  pub judge_threshold : ℕ
  pub gaming_bound : ℕ
  pub sound_backends : List SoundBackend
  pub recheckers : Dict (Certificate → Bool)
  pub templates : Dict (Propositio → Option String)

abbrev claims : Option Item → String → Bool
claims (some (text claimed)) expected = str_eq expected claimed
claims _ expected = false

-- The certificate's claimed statement is the one that the template of its kind renders; a kind
-- with no template is not bound.
unfoldable pub statement_bound : FaithfulnessGate → Propositio → Certificate → Bool
statement_bound g prop c = elim (lookup c.kind g.templates) [
  | none ↦ true
  | some template ↦ elim (template prop) [
    | none ↦ false
    | some expected ↦ claims (lookup "statement" c.details) expected
  ]
]

unfoldable pub rechecks : FaithfulnessGate → Certificate → Bool
rechecks g c = elim (lookup c.kind g.recheckers) [ none ↦ false | some recheck ↦ recheck c ]

abbrev pub mechanical_pass :
    FaithfulnessGate → SoundBackend → FaithfulnessVerdict → Certificate → EdgeEvidence
mechanical_pass g backend v c = record {
  edge = faithfulness_edge;
  tier = mechanical;
  verdict = pass;
  details =
      v.details
      ++ (("backend", text backend.name)
          ∷ ("certificate_kind", text c.kind)
          ∷ ("rechecked_by_gate", flag true)
          ∷ ("statement_bound", flag (is_some (lookup c.kind g.templates)))
          ∷ []);
  cost_units = 2;
  producer = some v.producer;
}

-- `_accept_certificate`. Where the verdict's own details repeat a key they come first, and so win.
unfoldable pub accept_certificate :
    FaithfulnessGate → Propositio → SoundBackend → FaithfulnessVerdict → Option EdgeEvidence
accept_certificate g prop backend v =
    if is_pass_with_certificate v
    then elim v.certificate [
      | none ↦ none
      | some c ↦
          if statement_bound g prop c && rechecks g c
          then some (mechanical_pass g backend v c)
          else none
    ]
    else none
