-- ===== src/Selection/Descriptor.antt =====
-- `descriptor` of leibniz/selection.py: the three coordinates of a candidate, as fractions. The first
-- eight hexadecimal digits of the hash of a text are an argument.
use leibniz_daemon.Common.{
  ℕ, suc, ◌*◌, ◌%◌, ◌==◌, leb, String, Bool, true, false, ◌&&◌, ◌||◌, Option, none, some, List, [],
  ◌∷◌, if◌then◌else◌, first_word, str_eq, Outcome, raised, returned, ◌>>=◌,
}
use leibniz_daemon.Types.{claim_type_value}
use leibniz_daemon.Propositio.{Propositio, Demonstratio}
use Prim.Native.String.{◌++◌ as str_append}
use Prim.Native.Char.{code}

abbrev pub Fraction : Type 0
Fraction = ℕ × ℕ

abbrev tactics : List String
tactics =
    "induction" ∷ "ring" ∷ "omega" ∷ "linarith" ∷ "nlinarith" ∷ "aesop" ∷ "simp" ∷ "decide" ∷ []

unfoldable pub starts_with : String → String → Bool
starts_with String.[] s = true
starts_with (String.◌∷◌ c cs) String.[] = false
starts_with (String.◌∷◌ c cs) (String.◌∷◌ d ds) = code c == code d && starts_with cs ds

-- `needle in s`
unfoldable pub occurs_in : String → String → Bool
unfolding starts_with
occurs_in needle String.[] = str_eq needle ""
occurs_in needle (String.◌∷◌ d ds) = starts_with needle (String.◌∷◌ d ds) || occurs_in needle ds

text_length : String → ℕ
text_length String.[] = 0
text_length (String.◌∷◌ c cs) = suc (text_length cs)

-- `_unit_hash`
unfoldable pub unit_hash : (String → ℕ) → String → Fraction
unit_hash hash8 s = (hash8 s % 10000, 10000)

-- The place, counted from 1, of the first tactic of the list that occurs in the proof.
unfoldable pub first_hit : String → List String → ℕ → Option ℕ
unfolding occurs_in
first_hit proof [] n = none
first_hit proof (t ∷ ts) n =
    let rest = first_hit proof ts (suc n) in if occurs_in t proof then some (suc n) else rest

unfoldable pub technique_of : (String → ℕ) → Option String → Fraction
technique_of hash8 none = (1, 2)
technique_of hash8 (some proof) =
    if str_eq proof ""
    then (1, 2)
    else elim (first_hit proof tactics 0) [ none ↦ unit_hash hash8 proof | some n ↦ (n, 9) ]

abbrev drafted : Option Demonstratio → Option String
drafted none = none
drafted (some demo) = demo.proof_src

abbrev or_raise : Option String → Outcome String
or_raise none = raised
or_raise (some s) = returned s

unfoldable pub subject_of : Propositio → Outcome String
subject_of prop = elim prop.signature [
  | some sig ↦ returned sig.subject
  | none ↦
      if str_eq prop.enuntiatio.statement ""
      then returned "?"
      else or_raise (first_word prop.enuntiatio.statement)
]

-- `min(0.999, len(src) / 240.0)`
unfoldable pub complexity_of : String → Fraction
unfolding text_length
complexity_of src =
    let n = text_length src in if leb (n * 1000) (999 * 240) then (n, 240) else (999, 1000)

abbrev source_of : Propositio → String
source_of prop = elim prop.expressio [
  | none ↦ prop.enuntiatio.statement
  | some expr ↦ expr.theorem_src
]

unfoldable pub descriptor : (String → ℕ) → Propositio → Outcome (List Fraction)
descriptor hash8 prop = do
  subject ← subject_of prop
  returned (
      unit_hash hash8
        (str_append (claim_type_value prop.enuntiatio.claim_type) (str_append ":" subject))
      ∷ technique_of hash8 (drafted prop.demonstratio)
      ∷ complexity_of (source_of prop)
      ∷ [])
