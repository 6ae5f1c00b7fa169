-- ===== src/Verifiers/Normalize.antt =====
-- `normalize_statement` of leibniz/verifiers.py: `" ".join(src.split())`, then a digest.
use Prim.Native.Char.{code}
use Prim.Native.String.{[], ◌∷◌, ◌++◌}
use mathlib.Core.Path.{◌≡◌, refl}
use leibniz_daemon.Common.{String, Bool, false, is_space, if◌then◌else◌}

-- The text after a word: a run of white space becomes one space before the next word.
after_word : Bool → String → String
after_word gap [] = []
after_word gap (c ∷ rest) =
    let space = is_space (code c) in
    let tail = after_word space rest in
    if space then tail else if gap then " " ++ (c ∷ tail) else c ∷ tail

-- `" ".join(src.split())`: white space before the first word is dropped.
unfoldable pub collapse : String → String
unfolding is_space after_word
collapse [] = []
collapse (c ∷ rest) =
    let first = collapse rest in if is_space (code c) then first else c ∷ after_word false rest

unfoldable pub normalize_statement : (String → String) → String → String
normalize_statement digest theorem_src = digest (collapse theorem_src)

-- Leading, trailing and repeated white space, line breaks included, is no difference.
collapse_layout : collapse " theorem  t :\n True " ≡ "theorem t : True"
unfolding collapse
collapse_layout = refl
