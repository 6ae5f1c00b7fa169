-- ===== src/Notebook/Bounds.antt =====
-- Every list of the notebook stays within its capacity, whatever is recorded.
use leibniz_daemon.Common.{
  ℕ, ◌+◌, ◌-◌, ◌≤◌, String, ◌≡◌, Option, none, some, ◌++◌, ◌||◌, either_branch, if◌then◌else◌, List,
  [], ◌∷◌, length, length-append, length-drop, arith, inl, inr, refl, str_eq, returned, lookup,
  strip, Dict, length-insert, eq_iff, ◌⊎◌, insert, Option-cases,
}
use leibniz_daemon.Types.{FinishReason}
use leibniz_daemon.Propositio.{Propositio}
use leibniz_daemon.Notebook.{
  Notebook, Recorded, push, note_family, note_dry_family, record_outcome, counted, pop, pop_least,
  family_cap, least, noted, remove, count_of, retire_genre, retire_dry, kernel_proved,
  is_promulgated, is_unproven, avoided, dry, resolved,
}

pub record WithinCapacity (nb : Notebook) : Type 0 where
  pub proven : length nb.proven ≤ nb.capacity
  pub too_hard : length nb.too_hard ≤ nb.capacity
  pub avoid : length nb.avoid ≤ nb.capacity
  pub genre_kill : length nb.genre_kill ≤ nb.genre_capacity
  pub dry_kill : length nb.dry_kill ≤ nb.genre_capacity
  pub families : length nb.family_counts ≤ family_cap
  pub dry_families : length nb.dry_counts ≤ family_cap

length-push :
    (bucket : List String) (item : String) (cap : ℕ)
    → length bucket ≤ cap
    → length (push bucket item cap) ≤ cap
unfolding push
length-push bucket item cap h = ground (
  arith,
  length-append bucket (strip item ∷ []),
  length-drop (length (bucket ++ strip item ∷ []) - cap) (bucket ++ strip item ∷ []),
)

-- The key is one of the dictionary's.
abbrev Present : {V : Type 0} → String → Dict V → Type 0
Present key [] = ⊥
Present key ((k, v) ∷ d) = (k ≡ key) ⊎ Present key d

least-Present :
    (key : String) (n : ℕ) (d : Dict ℕ) → (least key n d ≡ key) ⊎ Present (least key n d) d
unfolding least
least-Present key n [] = inl refl
least-Present key n ((k, m) ∷ rest) =
    ground (arith, least-Present key n rest, least-Present k m rest)

length-pop : (key : String) (d : Dict ℕ) → length (pop key d) ≤ length d
unfolding pop
length-pop key [] = omega arith
length-pop key ((k, v) ∷ d) = ground (arith, length-pop key d)

length-pop-Present : (key : String) (d : Dict ℕ) → Present key d → length (pop key d) + 1 ≡ length d
unfolding pop
length-pop-Present key [] h = absurd h
length-pop-Present key ((k, v) ∷ d) h = ground (arith, eq_iff k key, length-pop-Present key d)

length-pop_least : (d : Dict ℕ) → length (pop_least d) ≤ length d - 1
unfolding pop_least
length-pop_least [] = omega arith
length-pop_least ((k, n) ∷ rest) =
    let at : Present (least k n rest) ((k, n) ∷ rest) = ground (arith, least-Present k n rest) in
    omega (arith, length-pop-Present (least k n rest) ((k, n) ∷ rest) at)

length-counted :
    (key : String) (counts : Dict ℕ)
    → length counts ≤ family_cap
    → length (counted key counts) ≤ family_cap
unfolding counted
length-counted key counts h =
    let more = insert key (count_of (lookup key counts) + 1) counts in
    ground
      (arith, length-insert key (count_of (lookup key counts) + 1) counts, length-pop_least more)

length-remove : (s : String) (xs : List String) → length (remove s xs) ≤ length xs
length-remove s [] = omega arith
length-remove s (x ∷ xs) = ground (arith, length-remove s xs)

retire_genre-WithinCapacity :
    (descriptor : String) (n : Option ℕ) (nb : Notebook)
    → WithinCapacity nb
    → WithinCapacity (retire_genre descriptor n nb).0
unfolding retire_genre
retire_genre-WithinCapacity descriptor none nb w = w
retire_genre-WithinCapacity descriptor (some n) nb w = record {
  proven = w.proven;
  too_hard = w.too_hard;
  avoid = w.avoid;
  genre_kill = ground (arith, w.genre_kill, length-append nb.genre_kill (descriptor ∷ []));
  dry_kill = w.dry_kill;
  families = w.families;
  dry_families = w.dry_families;
}

note_family-WithinCapacity :
    (nb : Notebook) (key descriptor : String)
    → WithinCapacity nb
    → WithinCapacity (note_family nb key descriptor).0
unfolding note_family
note_family-WithinCapacity nb key descriptor w =
    retire_genre-WithinCapacity descriptor (lookup key (counted key nb.family_counts)) _ (record {
      proven = w.proven;
      too_hard = w.too_hard;
      avoid = w.avoid;
      genre_kill = w.genre_kill;
      dry_kill = omega (arith, w.dry_kill, length-remove descriptor nb.dry_kill);
      families = length-counted key nb.family_counts w.families;
      dry_families = omega (arith, w.dry_families, length-pop key nb.dry_counts);
    })

retire_dry-WithinCapacity :
    (key descriptor : String) (n : Option ℕ) (nb : Notebook)
    → WithinCapacity nb
    → WithinCapacity (retire_dry key descriptor n nb).0
unfolding retire_dry
retire_dry-WithinCapacity key descriptor none nb w = w
retire_dry-WithinCapacity key descriptor (some n) nb w = record {
  proven = w.proven;
  too_hard = w.too_hard;
  avoid = w.avoid;
  genre_kill = w.genre_kill;
  dry_kill = ground (arith, w.dry_kill, length-append nb.dry_kill (descriptor ∷ []));
  families = w.families;
  dry_families = w.dry_families;
}

note_dry_family-WithinCapacity :
    (nb : Notebook) (key descriptor : String)
    → WithinCapacity nb
    → WithinCapacity (note_dry_family nb key descriptor).0
unfolding note_dry_family
note_dry_family-WithinCapacity nb key descriptor w =
    retire_dry-WithinCapacity key descriptor (lookup key (counted key nb.dry_counts)) _ (record {
      proven = w.proven;
      too_hard = w.too_hard;
      avoid = w.avoid;
      genre_kill = w.genre_kill;
      dry_kill = w.dry_kill;
      families = w.families;
      dry_families = length-counted key nb.dry_counts w.dry_families;
    })

noted-WithinCapacity :
    (note : Notebook → String → String → Recorded)
    → ((nb : Notebook) (key descriptor : String)
        → WithinCapacity nb
        → WithinCapacity (note nb key descriptor).0)
    → (prop : Propositio) (nb : Notebook) → WithinCapacity nb
    → WithinCapacity (noted note prop nb).0
noted-WithinCapacity note keeps prop nb w =
    elim (Option-cases (nb.family prop.enuntiatio.claim_property)) [
      | inl none' ↦ rw (none', noted) w
      | inr ((key, descriptor), has) ↦ rw (has, noted) (keeps nb key descriptor w)
    ]

pushed :
    (nb : Notebook) (stmt : String)
    → WithinCapacity nb
    → WithinCapacity (record nb { proven = push nb.proven stmt nb.capacity })
      × WithinCapacity (record nb { too_hard = push nb.too_hard stmt nb.capacity })
      × WithinCapacity (record nb { avoid = push nb.avoid stmt nb.capacity })
pushed nb stmt w = (
  record {
    proven = length-push nb.proven stmt nb.capacity w.proven;
    too_hard = w.too_hard;
    avoid = w.avoid;
    genre_kill = w.genre_kill;
    dry_kill = w.dry_kill;
    families = w.families;
    dry_families = w.dry_families;
  },
  record {
    proven = w.proven;
    too_hard = length-push nb.too_hard stmt nb.capacity w.too_hard;
    avoid = w.avoid;
    genre_kill = w.genre_kill;
    dry_kill = w.dry_kill;
    families = w.families;
    dry_families = w.dry_families;
  },
  record {
    proven = w.proven;
    too_hard = w.too_hard;
    avoid = length-push nb.avoid stmt nb.capacity w.avoid;
    genre_kill = w.genre_kill;
    dry_kill = w.dry_kill;
    families = w.families;
    dry_families = w.dry_families;
  },
)

-- Recording an outcome, whether it returns or raises, keeps every list within its capacity and both
-- histograms within their cap.
pub record_outcome-WithinCapacity :
    (nb : Notebook) (prop : Propositio) (reason : Option FinishReason)
    → WithinCapacity nb
    → WithinCapacity (record_outcome nb prop reason).0
unfolding record_outcome
record_outcome-WithinCapacity nb prop reason w =
    let Kept = λ (r : Recorded). WithinCapacity r.0 in
    let stmt = prop.enuntiatio.statement in
    let r = resolved reason prop.finish_reason in
    let (proven, too_hard, avoid) = pushed nb stmt w in
    let nothing : Recorded = (nb, returned tt) in
    let proven_nb = record nb { proven = push nb.proven stmt nb.capacity } in
    let hard_nb : Recorded =
      (record nb { too_hard = push nb.too_hard stmt nb.capacity }, returned tt) in
    let avoid_nb = record nb { avoid = push nb.avoid stmt nb.capacity } in
    let dry_noted = noted note_dry_family prop avoid_nb in
    let on_avoided = if dry r then dry_noted else (avoid_nb, returned tt) in
    let on_open = if avoided r then on_avoided else nothing in
    let on_missed = if is_unproven r then hard_nb else on_open in
    let was_proved = kernel_proved prop || prop.promulgated || is_promulgated r in
    let on_said = if was_proved then noted note_family prop proven_nb else on_missed in
    either_branch Kept (str_eq stmt "") nothing on_said w (
      either_branch Kept was_proved (noted note_family prop proven_nb) on_missed
        (noted-WithinCapacity note_family note_family-WithinCapacity prop proven_nb proven)
        (either_branch Kept (is_unproven r) hard_nb on_open too_hard (
          either_branch Kept (avoided r) on_avoided nothing
            (either_branch Kept (dry r) dry_noted (avoid_nb, returned tt)
              (noted-WithinCapacity note_dry_family note_dry_family-WithinCapacity prop avoid_nb
                avoid)
              avoid)
            w)))
