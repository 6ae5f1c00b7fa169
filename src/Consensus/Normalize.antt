-- ===== src/Consensus/Normalize.antt =====
-- `normalize_proof` of leibniz/consensus.py: the fences and the restated theorem are cut off a draft.
-- `str.lower` is an argument.
use Prim.Native.String.{[], ◌∷◌}
use leibniz_daemon.Common.{
  String, Bool, true, ◌≡◌, refl, Option, none, some, if◌then◌else◌, str_eq, strip, lstrip, rstrip,
  is_space, is_some,
}

-- What follows a prefix, where the text starts with it.
unfoldable pub after_prefix : String → String → Option String
after_prefix [] s = some s
after_prefix (p ∷ prefix) [] = none
after_prefix (p ∷ prefix) (c ∷ s) =
    let rest = after_prefix prefix s in if str_eq (p ∷ "") (c ∷ "") then rest else none

-- The text before the first occurrence of a separator, and the text after it.
unfoldable pub split_once : String → String → Option (String × String)
unfolding after_prefix
split_once sep [] = none
split_once sep (c ∷ s) = elim (after_prefix sep (c ∷ s)) [
  | some after ↦ some ("", after)
  | none ↦ elim (split_once sep s) [ some r ↦ some (c ∷ r.0, r.1) | none ↦ none ]
]

-- `head.strip().lower() in ("", "lean", "lean4")`
abbrev is_language : String → Bool
is_language s = if str_eq s "" then true else if str_eq s "lean" then true else str_eq s "lean4"

-- A leading line that only names the language is dropped.
unfoldable pub drop_language : (String → String) → String → String
unfolding split_once
drop_language lower body = elim (split_once "\n" body) [
  | some r ↦ if is_language (lower (strip r.0)) then r.1 else body
  | none ↦ body
]

-- `s.split("```", 1)[0]`
unfoldable pub before_fence : String → String
unfolding split_once
before_fence s = elim (split_once "```" s) [ some r ↦ r.0 | none ↦ s ]

unfoldable pub unfence : (String → String) → String → String
unfolding split_once drop_language before_fence
unfence lower s = elim (split_once "```" s) [
  | some r ↦ strip (drop_language lower (before_fence r.1))
  | none ↦ s
]

abbrev starts_with : String → String → Bool
starts_with prefix s = is_some (after_prefix prefix s)

-- `s[:cut].lstrip().startswith(("theorem", "lemma", "example"))`
unfoldable pub restates : String → Bool
unfolding after_prefix lstrip
restates head =
    let s = lstrip head in
    if starts_with "theorem" s
    then true
    else if starts_with "lemma" s
    then true
    else starts_with "example" s

unfoldable pub drop_header : String → String
unfolding split_once restates
drop_header s = elim (split_once ":=" s) [
  | some r ↦ if restates r.0 then strip r.1 else s
  | none ↦ s
]

unfoldable pub normalize_proof : (String → String) → String → String
unfolding unfence drop_header
normalize_proof lower text = drop_header (unfence lower (strip text))

abbrev plain : String
plain = "by omega"

fenced_draft : normalize_proof (λ s. s) "Sure:\n```lean4\ntheorem t : True := by omega\n```" ≡ plain
unfolding normalize_proof unfence drop_header split_once after_prefix before_fence drop_language
    restates strip lstrip rstrip is_space
fenced_draft = refl
