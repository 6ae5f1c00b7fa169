-- ===== src/Propositio.antt =====
-- leibniz/propositio.py: the unit of work and of record. A birth time is a number of clock ticks,
-- a coordinate of the behaviour descriptor is a fraction (numerator, denominator), and the
-- contract fields are absent or texts.
use leibniz_daemon.Common.{ℕ, String, Bool, Option, some, List, [], ◌∷◌, ◌++◌, Dict, if◌then◌else◌}
use leibniz_daemon.Types.{ClaimSignature, ClaimType, EdgeEvidence, FinishReason, Item}

pub record Enuntiatio : Type 0 where
  pub statement : String
  pub claim_type : ClaimType
  pub falsifiable_claim : String
  pub domain : String
  pub claim_domain : Option String
  pub claim_property : Option String

pub record Expressio : Type 0 where
  pub theorem_src : String
  pub imports : List String
  pub preamble : String
  pub normalized_hash : String
  pub compiles : Option Bool
  pub established_domain : Option String
  pub proof_hints : String
  pub walnut_predicate : Option String
  pub walnut_numeration : Option String
  pub property_descriptor : Option (Dict Item)

pub record Demonstratio : Type 0 where
  pub proof_obligation : String
  pub proof_src : Option String
  pub kernel_verified : Bool
  pub qed : String

-- `Demonstratio(proof_obligation=..., proof_src=...)` with the defaults of the class.
abbrev pub new_demonstratio : String → Option String → Demonstratio
new_demonstratio obligation proof = record {
  proof_obligation = obligation;
  proof_src = proof;
  kernel_verified = Bool.false;
  qed = "Q.E.I.";
}

unfoldable pub seal : Demonstratio → Demonstratio
seal demo = record demo { qed = if demo.kernel_verified then "Q.E.D." else "Q.E.I." }

pub record Propositio : Type 0 where
  pub enuntiatio : Enuntiatio
  pub expressio : Option Expressio
  pub demonstratio : Option Demonstratio
  pub pid : String
  pub born : ℕ
  pub parents : List String
  pub signature : Option ClaimSignature
  pub edges : List EdgeEvidence
  pub promulgated : Bool
  pub finish_reason : Option FinishReason
  pub behavior_descriptor : List (ℕ × ℕ)
  pub seed_origin : Option String

-- `Propositio.record`
abbrev pub record_edge : EdgeEvidence → Propositio → Propositio
record_edge ev prop = record prop { edges = prop.edges ++ ev ∷ [] }

abbrev pub quarantine : FinishReason → Propositio → Propositio
quarantine reason prop = record prop { finish_reason = some reason }
