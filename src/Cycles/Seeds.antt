-- ===== src/Cycles/Seeds.antt =====
-- The seeds of a cycle: recombined parents, weakened near-misses, fresh survey edges, and mined
-- patterns in the place of some of them. leibniz/daemon.py, and `weakening_seeds` of
-- leibniz/discovery.py. The pattern miner is a field, and may raise, as the survey may.
use leibniz_daemon.Common.{
  ℕ, zero, suc, ◌-◌, ◌%◌, ◌≤◌, ◌==◌, String, Bool, true, false, not, ◌≡◌, ap, sym, ◌∙◌, inl, inr,
  Option, none, some, List, [], ◌∷◌, ◌++◌, map, if◌then◌else◌, str_eq, length, take, drop, keep,
  arith, length-append, length-drop, Outcome, returned, ◌>>=◌, Option-cases, Bool-cases,
  returned-injective, >>=-eq-returned,
}
use leibniz_daemon.Pipeline.{Leonardo, survey}
use leibniz_daemon.Selection.{Archive, recombination_seeds, occurs_in}
use Prim.Native.String.{◌++◌ as str_append}

abbrev pub weaken_mark : String
weaken_mark = "STRICTLY WEAKER"

abbrev weakened : String → String
weakened s =
    str_append
      "Propose a STRICTLY WEAKER but still non-trivial and novel variant of this claim that is more likely provable — add a hypothesis, specialize a variable, or bound a quantifier: "
      s

-- The statements that do not carry the mark.
abbrev pub unmarked : List String → List String
unmarked statements = keep (λ s. not (occurs_in weaken_mark s)) statements

-- The last `k` of them, weakened.
unfoldable pub weakening_seeds : List String → ℕ → List String
weakening_seeds statements k =
    if k == 0
    then []
    else map weakened (drop (length (unmarked statements) - k) (unmarked statements))

pub record Seeding : Type 0 where
  pub leonardo : Leonardo
  pub domain : String
  pub domains : List String
  pub weaken_k : ℕ
  pub miner : Option (ℕ → Outcome (List String))
  pub mine_k : ℕ

-- `mined + base[len(mined):]`, with no more mined seeds than there are seeds.
abbrev pub replace_head : List String → List String → List String
replace_head mined base = let used = take (length base) mined in used ++ drop (length used) base

-- `_blend_mined`
unfoldable pub blend_mined : Seeding → List String → Outcome (List String)
blend_mined s [] = returned []
blend_mined s (b ∷ bs) = elim s.miner [
  | none ↦ returned (b ∷ bs)
  | some mine ↦
      if s.mine_k == 0
      then returned (b ∷ bs)
      else (mine s.mine_k >>= λ mined. returned (replace_head mined (b ∷ bs)))
]

-- `_active_domains`
abbrev pub active_domains : Seeding → List String
active_domains s = elim s.domains [ [] ↦ s.domain ∷ [] | ◌∷◌ d ds ↦ d ∷ ds ]

abbrev pub nth : String → ℕ → List String → String
nth fallback n [] = fallback
nth fallback zero (x ∷ xs) = x
nth fallback (suc n) (x ∷ xs) = nth fallback n xs

-- `active[i % len(active)]`
unfoldable pub domain_of_cycle : Seeding → ℕ → String
domain_of_cycle s i = nth s.domain (i % length (active_domains s)) (active_domains s)

abbrev pub or_domain : Seeding → String → String
or_domain s d = if str_eq d "" then s.domain else d

-- The notebook's near-misses, weakened, where there is a notebook.
abbrev pub weaken_from : Seeding → Option (List String) → List String
weaken_from s none = []
weaken_from s (some statements) = weakening_seeds statements s.weaken_k

-- `seeds or self.survey.run(domain)`
abbrev pub or_survey : Seeding → String → List String → Outcome (List String)
or_survey s domain [] = survey s.leonardo domain
or_survey s domain (x ∷ xs) = returned (x ∷ xs)

-- `_next_seeds`; `too_hard` is the notebook's bucket of that name.
unfoldable pub next_seeds :
    Seeding → Archive → Option (List String) → Bool → ℕ → ℕ → String → Outcome (List String)
next_seeds s archive too_hard true fresh recombine_k domain =
    survey s.leonardo (or_domain s domain) >>= blend_mined s
next_seeds s archive too_hard false fresh recombine_k domain = do
  surveyed ← survey s.leonardo (or_domain s domain)
  seeds ←
      or_survey s (or_domain s domain)
        (recombination_seeds archive recombine_k ++ (weaken_from s too_hard ++ take fresh surveyed))
  blend_mined s seeds

length-take_all : (xs : List String) (n : ℕ) → length (take n xs) ≤ n
length-take_all xs zero = omega arith
length-take_all [] (suc n) = omega arith
length-take_all (x ∷ xs) (suc n) = omega (arith, length-take_all xs n)

length-replace_head : (mined base : List String) → length (replace_head mined base) ≡ length base
length-replace_head mined base =
    let used = take (length base) mined in
    omega (
      arith,
      length-append used (drop (length used) base),
      length-drop (length used) base,
      length-take_all mined (length base),
    )

-- Blending in mined patterns keeps the number of the cycle's seeds, however many the miner gives.
pub length-blend_mined :
    (s : Seeding) (base seeds : List String)
    → blend_mined s base ≡ returned seeds
    → length seeds ≡ length base
unfolding blend_mined
length-blend_mined s [] seeds e = ground arith
length-blend_mined s (b ∷ bs) seeds e = elim (Option-cases s.miner) [
  | inl none1 ↦ ap length (sym (returned-injective (rw (none1, blend_mined) at e)))
  | inr (mine, has) ↦ elim (Bool-cases (s.mine_k == 0)) [
    | inl off ↦ ap length (sym (returned-injective (rw (has, off, blend_mined) at e)))
    | inr on ↦
        let (mined, got, made) =
          >>=-eq-returned (mine s.mine_k) (λ m. returned (replace_head m (b ∷ bs)))
            (rw (has, on, blend_mined) at e) in
        ap length (sym (returned-injective made)) ∙ length-replace_head mined (b ∷ bs)
  ]
]
