-- ===== src/Repair/Canonical.antt =====
-- `_canonical_model` of leibniz/proof_repair.py: the bare name of a model, whatever path it came by.
use Prim.Native.String.{[], ◌∷◌}
use leibniz_daemon.Common.{
  String, ◌≡◌, refl, Option, none, some, if◌then◌else◌, str_eq, strip, is_some,
}
use leibniz_daemon.Consensus.Normalize.{after_prefix}

-- What follows the last `/`.
unfoldable pub after_slash : String → Option String
after_slash [] = none
after_slash (c ∷ s) = elim (after_slash s) [
  | some rest ↦ some rest
  | none ↦ if str_eq (c ∷ "") "/" then some s else none
]

abbrev or_whole : Option String → String → String
or_whole none s = s
or_whole (some rest) s = rest

-- The first of the two prefixes that the text has is cut off.
unfoldable pub drop_role : String → String
drop_role s = elim (after_prefix "model:" s) [
  | some rest ↦ rest
  | none ↦ or_whole (after_prefix "repair:" s) s
]

unfoldable pub canonical_model : (String → String) → String → String
canonical_model lower name =
    let s = drop_role (strip name) in
    if is_some (after_prefix "obj:" s) then s else lower (or_whole (after_slash s) s)

-- A base prover, a repair by the same model, and the model by another path are one voter.
one_voter : canonical_model (λ s. s) "model:anthropic/opus" ≡ canonical_model (λ s. s) "repair:opus"
unfolding canonical_model drop_role after_prefix after_slash strip
one_voter = refl
