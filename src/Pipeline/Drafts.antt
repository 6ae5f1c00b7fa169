-- ===== src/Pipeline/Drafts.antt =====
-- The parsers of leibniz/pipeline.py. `json.loads`, `str` of a JSON value, `str.lower`, the import
-- resolver and the two hashes are a `Platform`. A JSON object is a dictionary of `Item`s; a contract
-- field that is neither a text nor null is the text that it prints as.
use leibniz_daemon.Common.{
  ℕ, ◌/◌, ◌%◌, ◌==◌, String, Bool, true, false, not, ◌&&◌, Option, none, some, List, [], ◌∷◌, Dict,
  lookup, if◌then◌else◌, str_eq, strip, first_word, Outcome, raised, returned, ◌>>=◌,
}
use leibniz_daemon.Types.{
  ClaimType, complexity_bound, claim_type_value, ClaimSignature, Item, text, num, flag, texts, null,
}
use leibniz_daemon.Types.Values.{claim_type_of}
use leibniz_daemon.Propositio.{Enuntiatio, Expressio, Propositio}
use leibniz_daemon.Verifiers.{LeanBackend, normalize_statement}
use Prim.Native.String.{◌++◌ as str_append}

pub record Platform : Type 0 where
  -- the object, where the text is JSON and its value an object
  pub loads : String → Option (Dict Item)
  pub show : Item → String
  pub lower : String → String
  pub hash : String → ℕ
  pub digest : String → String
  pub resolve_imports : List String → List String

-- `bool(value)`
abbrev pub item_truthy : Item → Bool
item_truthy (text s) = not (str_eq s "")
item_truthy (num n) = not (n == 0)
item_truthy (flag b) = b
item_truthy (texts []) = false
item_truthy (texts (x ∷ xs)) = true
item_truthy null = false

abbrev shown : Platform → Item → String
shown os (text s) = s
shown os item = os.show item

-- `str(d[key])`, where `d.get(key)` is truthy.
unfoldable pub given : Platform → Dict Item → String → Option String
given os d key = elim (lookup key d) [
  | none ↦ none
  | some item ↦ if item_truthy item then some (shown os item) else none
]

-- `d.get(key)`, for a contract field.
unfoldable pub contract_field : Platform → Dict Item → String → Option String
contract_field os d key = elim (lookup key d) [
  | none ↦ none
  | some null ↦ none
  | some (text s) ↦ some s
  | some (num n) ↦ some (os.show (num n))
  | some (flag b) ↦ some (os.show (flag b))
  | some (texts xs) ↦ some (os.show (texts xs))
]

-- `_claim_type`
unfoldable pub claim_type_or_default : Option String → ClaimType
claim_type_or_default none = complexity_bound
claim_type_or_default (some name) = elim (claim_type_of name) [
  | none ↦ complexity_bound
  | some c ↦ c
]

abbrev or_default : Option String → String → String
or_default none fallback = fallback
or_default (some s) fallback = s

abbrev or_text : String → String → String
or_text s fallback = if str_eq s "" then fallback else s

abbrev prose : String → String → Enuntiatio
prose draft seed = record {
  statement = or_text (strip draft) seed;
  claim_type = complexity_bound;
  falsifiable_claim = str_append "exists input violating: " (or_text (strip draft) seed);
  domain = "analysis_of_algorithms";
  claim_domain = none;
  claim_property = none;
}

abbrev structured : Platform → Dict Item → String → Enuntiatio
structured os d stmt = record {
  statement = stmt;
  claim_type = claim_type_or_default (given os d "claim_type");
  falsifiable_claim =
      or_default (given os d "falsifiable_claim") (str_append "exists input violating: " stmt);
  domain = "analysis_of_algorithms";
  claim_domain = contract_field os d "claim_domain";
  claim_property = contract_field os d "claim_property";
}

-- `_parse_enuntiatio`
unfoldable pub parse_enuntiatio : Platform → String → String → Enuntiatio
parse_enuntiatio os draft seed = elim (os.loads draft) [
  | none ↦ prose draft seed
  | some d ↦ elim (given os d "statement") [
    | none ↦ prose draft seed
    | some stmt ↦ structured os d stmt
  ]
]

-- `Expressio(theorem_src=..., imports=..., established_domain=...)`
abbrev pub new_expressio : String → List String → Option String → Expressio
new_expressio src imports established = record {
  theorem_src = src;
  imports = imports;
  preamble = "";
  normalized_hash = "";
  compiles = none;
  established_domain = established;
  proof_hints = "";
  walnut_predicate = none;
  walnut_numeration = none;
  property_descriptor = none;
}

abbrev imports_of : Option Item → List String
imports_of (some (texts xs)) = xs
imports_of _ = "Mathlib" ∷ []

-- `_parse_expressio`
unfoldable pub parse_expressio : Platform → String → Expressio
parse_expressio os draft = elim (os.loads draft) [
  | none ↦ new_expressio draft ("Mathlib" ∷ []) none
  | some d ↦ elim (given os d "theorem_src") [
    | none ↦ new_expressio draft ("Mathlib" ∷ []) none
    | some src ↦
        new_expressio src (imports_of (lookup "imports" d))
          (contract_field os d "established_domain")
  ]
]

-- `_descriptor`
unfoldable pub seed_descriptor : Platform → String → List (ℕ × ℕ)
seed_descriptor os seed = let h = os.hash seed in (h % 97, 97) ∷ ((h / 97) % 89, 89) ∷ []

-- `_normalized_hash`
unfoldable pub normalized_hash_of : Platform → LeanBackend → Expressio → String
normalized_hash_of os lean expr = elim lean.normalize_hash [
  | none ↦ normalize_statement os.digest expr.theorem_src
  | some norm ↦ elim (norm expr) [
    | none ↦ normalize_statement os.digest expr.theorem_src
    | some h ↦ or_text h (normalize_statement os.digest expr.theorem_src)
  ]
]

abbrev subject_of : Platform → String → Outcome String
subject_of os stmt = elim (first_word stmt) [ none ↦ raised | some w ↦ returned (os.lower w) ]

abbrev alternatives : String → String → List String
alternatives h own = if not (str_eq h "") && not (str_eq h own) then h ∷ [] else []

-- `_signature`, once the assertion has passed; a statement of white space alone raises.
unfoldable pub signature_of : Platform → Propositio → Expressio → Outcome ClaimSignature
signature_of os prop expr = do
  subject ←
      (if str_eq prop.enuntiatio.statement ""
        then returned "unknown"
        else subject_of os prop.enuntiatio.statement)
  returned (record {
    claim_type = prop.enuntiatio.claim_type;
    subject = subject;
    relation = claim_type_value prop.enuntiatio.claim_type;
    formal_hash = expr.normalized_hash;
    properties = [];
    alt_hashes = alternatives (normalize_statement os.digest expr.theorem_src) expr.normalized_hash;
  })
