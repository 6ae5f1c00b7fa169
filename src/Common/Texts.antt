-- ===== src/Common/Texts.antt =====
-- Python's `str` methods that the source calls: white space, `strip`, `split()[0]`.
use Prim.Native.Nat.{ℕ}
use Prim.Native.Char.{code}
use Prim.Native.String.{String, [], ◌∷◌}
use mathlib.Core.Bool.{Bool, true, false, ◌||◌, ◌&&◌}
use mathlib.Core.Option.{Option, none, some}
use text.Mathlib.Text.{◌==◌ as str_eq}
use leibniz_daemon.Common.Tests.{◌==◌, leb, if◌then◌else◌}

-- `str.isspace` of a code point.
unfoldable pub is_space : ℕ → Bool
is_space c =
    (leb 9 c && leb c 13)
    || (leb 28 c && leb c 32)
    || c == 0x85
    || c == 0xa0
    || c == 0x1680
    || (leb 0x2000 c && leb c 0x200a)
    || c == 0x2028
    || c == 0x2029
    || c == 0x202f
    || c == 0x205f
    || c == 0x3000

unfoldable pub lstrip : String → String
lstrip [] = []
lstrip (c ∷ rest) = let r = lstrip rest in if is_space (code c) then r else c ∷ rest

unfoldable pub rstrip : String → String
rstrip [] = []
rstrip (c ∷ rest) = let r = rstrip rest in if is_space (code c) && str_eq r "" then [] else c ∷ r

-- `s.strip()`
unfoldable pub strip : String → String
unfolding is_space lstrip rstrip
strip s = rstrip (lstrip s)

word : String → String
word [] = []
word (c ∷ rest) = let w = word rest in if is_space (code c) then [] else c ∷ w

-- `s.split()[0]`; `none` where the index is out of range.
unfoldable pub first_word : String → Option String
unfolding is_space lstrip word
first_word s = let w = word (lstrip s) in if str_eq w "" then none else some w

-- `bool(x)` of an optional text.
abbrev pub truthy : Option String → Bool
truthy none = false
truthy (some s) = if str_eq s "" then false else true
