-- ===== src/Notebook.antt =====
-- leibniz/discovery.py, the notebook: a bounded memory of recent outcomes and the families that are
-- retired. The family of a claim (`_family`, a key and a descriptor) is a field, since it is read
-- off the abstract syntax of a Python expression. Capacities and thresholds are not negative.
-- A call returns the notebook as it leaves it, and whether it raised.
pub mod Bounds
pub mod Eviction
use leibniz_daemon.Common.{
  ℕ, zero, suc, ◌+◌, ◌-◌, ◌==◌, leb, ltb, String, Bool, true, false, not, ◌&&◌, ◌||◌, Option, none,
  some, List, [], ◌∷◌, ◌++◌, if◌then◌else◌, str_eq, contains, length, drop, strip, Dict, lookup,
  insert, Outcome, raised, returned, ◌>>=◌,
}
use leibniz_daemon.Types.{
  FinishReason, promulgated, refuted, trivial, known, unfaithful, unproven, malformed, gamed,
  over_budget, walnut_decided,
}
use leibniz_daemon.Propositio.{Propositio, Enuntiatio, Demonstratio}

pub record Notebook : Type 0 where
  pub capacity : ℕ
  pub proven : List String
  pub too_hard : List String
  pub avoid : List String
  pub genre_kill : List String
  pub genre_capacity : ℕ
  pub genre_threshold : ℕ
  pub family_counts : Dict ℕ
  pub dry_kill : List String
  pub dry_threshold : ℕ
  pub dry_counts : Dict ℕ
  pub family : Option String → Option (String × String)

abbrev pub family_cap : ℕ
family_cap = 64

-- `del bucket[:-cap]`, for a `cap` of 1 or more; `bucket.clear()` for 0.
abbrev pub last_of : ℕ → List String → List String
last_of cap bucket = drop (length bucket - cap) bucket

-- `_push`
unfoldable pub push : List String → String → ℕ → List String
push bucket item cap =
    if str_eq (strip item) "" || contains bucket (strip item)
    then bucket
    else last_of cap (bucket ++ strip item ∷ [])

-- `min(counts, key=counts.get)`: the first key with the least count.
unfoldable pub least : String → ℕ → Dict ℕ → String
least key n [] = key
least key n ((k, m) ∷ rest) =
    let keep = least key n rest in let go = least k m rest in if ltb m n then go else keep

-- `d.pop(key, None)`
unfoldable pub pop : {V : Type 0} → String → Dict V → Dict V
pop key [] = []
pop key ((k, v) ∷ rest) = let r = pop key rest in if str_eq k key then rest else (k, v) ∷ r

unfoldable pub pop_least : Dict ℕ → Dict ℕ
unfolding pop least
pop_least [] = []
pop_least ((k, n) ∷ rest) = pop (least k n rest) ((k, n) ∷ rest)

abbrev pub count_of : Option ℕ → ℕ
count_of none = 0
count_of (some n) = n

-- The histogram with one more for `key`, and the least family evicted where it is over the cap.
unfoldable pub counted : String → Dict ℕ → Dict ℕ
counted key counts =
    let more = insert key (count_of (lookup key counts) + 1) counts in
    if ltb family_cap (length more) then pop_least more else more

abbrev pub remove : String → List String → List String
remove s [] = []
remove s (x ∷ xs) = let rest = remove s xs in if str_eq x s then xs else x ∷ rest

abbrev retires : ℕ → ℕ → String → List String → ℕ → Bool
retires n threshold descriptor killed capacity =
    leb threshold n && not (contains killed descriptor) && ltb (length killed) capacity

abbrev pub Recorded : Type 0
Recorded = Notebook × Outcome (Unit {0})

-- The last step of `_note_family`: `self._family_counts[key]` raises where the family has been evicted.
unfoldable pub retire_genre : String → Option ℕ → Notebook → Recorded
retire_genre descriptor none nb = (nb, raised)
retire_genre descriptor (some n) nb = (
  record nb {
    genre_kill =
        if retires n nb.genre_threshold descriptor nb.genre_kill nb.genre_capacity
        then nb.genre_kill ++ descriptor ∷ []
        else nb.genre_kill;
  },
  returned tt,
)

-- `_note_family`
unfoldable pub note_family : Notebook → String → String → Recorded
note_family nb key descriptor =
    retire_genre descriptor (lookup key (counted key nb.family_counts)) (record nb {
      family_counts = counted key nb.family_counts;
      dry_kill = remove descriptor nb.dry_kill;
      dry_counts = pop key nb.dry_counts;
    })

unfoldable pub retire_dry : String → String → Option ℕ → Notebook → Recorded
retire_dry key descriptor none nb = (nb, raised)
retire_dry key descriptor (some n) nb = (
  record nb {
    dry_kill =
        if (count_of (lookup key nb.family_counts) == 0)
          && retires n nb.dry_threshold descriptor nb.dry_kill nb.genre_capacity
        then nb.dry_kill ++ descriptor ∷ []
        else nb.dry_kill;
  },
  returned tt,
)

-- `_note_dry_family`
unfoldable pub note_dry_family : Notebook → String → String → Recorded
note_dry_family nb key descriptor =
    retire_dry key descriptor (lookup key (counted key nb.dry_counts))
      (record nb { dry_counts = counted key nb.dry_counts })

abbrev pub noted : (Notebook → String → String → Recorded) → Propositio → Notebook → Recorded
noted note prop nb = elim (nb.family prop.enuntiatio.claim_property) [
  | none ↦ (nb, returned tt)
  | some (key, descriptor) ↦ note nb key descriptor
]

abbrev pub kernel_proved : Propositio → Bool
kernel_proved prop = elim prop.demonstratio [ none ↦ false | some demo ↦ demo.kernel_verified ]

abbrev pub is_promulgated : Option FinishReason → Bool
is_promulgated (some promulgated) = true
is_promulgated _ = false

-- `r in _AVOID`, `r in _DRY`
abbrev pub avoided : Option FinishReason → Bool
avoided (some known) = true
avoided (some trivial) = true
avoided (some refuted) = true
avoided (some gamed) = true
avoided (some unfaithful) = true
avoided (some malformed) = true
avoided _ = false

abbrev pub dry : Option FinishReason → Bool
dry (some known) = true
dry (some trivial) = true
dry _ = false

abbrev pub is_unproven : Option FinishReason → Bool
is_unproven (some unproven) = true
is_unproven _ = false

abbrev pub resolved : Option FinishReason → Option FinishReason → Option FinishReason
resolved none own = own
resolved (some r) own = some r

-- `DiscoveryNotebook.record`
unfoldable pub record_outcome : Notebook → Propositio → Option FinishReason → Recorded
record_outcome nb prop reason =
    let stmt = prop.enuntiatio.statement in
    let r = resolved reason prop.finish_reason in
    if str_eq stmt ""
    then (nb, returned tt)
    else if kernel_proved prop || prop.promulgated || is_promulgated r
    then noted note_family prop (record nb { proven = push nb.proven stmt nb.capacity })
    else if is_unproven r
    then (record nb { too_hard = push nb.too_hard stmt nb.capacity }, returned tt)
    else if avoided r
    then (let nb' = record nb { avoid = push nb.avoid stmt nb.capacity } in
        if dry r then noted note_dry_family prop nb' else (nb', returned tt))
    else (nb, returned tt)
