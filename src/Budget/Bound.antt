-- ===== src/Budget/Bound.antt =====
-- The judged fraction stays within the policy's bound.
use leibniz_daemon.Common.{
  ℕ, suc, ◌+◌, ◌*◌, ◌≤◌, ◌<◌, true, false, ◌≡◌, refl, ◌≢◌, ◌↔◌, ◌⊎◌, inl, inr, List, [], ◌∷◌, arith,
  ap, ◌∙◌, subst, Bool-cases,
}
use leibniz_daemon.Types.{EdgeEvidence, TrustTier, judged, is_judged}
use leibniz_daemon.Trust.{
  faithfulness_edge, on_edge, is_judged_faithfulness, admits_judged_faithfulness,
}
use leibniz_daemon.Trust.Path.{on_edge_iff}
use leibniz_daemon.Budget.{TrustBudget, try_admit}

-- judged / total ≤ num / den
abbrev pub WithinBudget : TrustBudget → Type 0
WithinBudget b = b.judged * b.policy.max_judged_den ≤ b.policy.max_judged_num * b.total

-- One more judged promulgation would pass the bound.
abbrev pub Exceeds : TrustBudget → Type 0
Exceeds b = b.policy.max_judged_num * (b.total + 1) < (b.judged + 1) * b.policy.max_judged_den

-- The first faithfulness edge of a path.
abbrev pub FirstFaithfulness : EdgeEvidence → List EdgeEvidence → Type 0
FirstFaithfulness e [] = ⊥
FirstFaithfulness e (x ∷ edges) =
    ((x.edge ≡ faithfulness_edge) × (x ≡ e))
    ⊎ ((x.edge ≢ faithfulness_edge) × FirstFaithfulness e edges)

-- The first faithfulness edge is a judge's.
abbrev pub IsJudged : List EdgeEvidence → Type 0
IsJudged edges = (e : EdgeEvidence) × FirstFaithfulness e edges × (e.tier ≡ judged)

is_judged_iff : (t : TrustTier) → (is_judged t ≡ true) ↔ (t ≡ judged)
is_judged_iff t = ground arith

first_test_true : (edges : List EdgeEvidence) → is_judged_faithfulness edges ≡ true → IsJudged edges
unfolding is_judged_faithfulness
first_test_true [] h = cc h
first_test_true (x ∷ edges) h = elim (Bool-cases (on_edge faithfulness_edge x)) [
  | inl here ↦ (
    x,
    inl ((on_edge_iff faithfulness_edge x).0 here, refl),
    (is_judged_iff x.tier).0 (rw (here, is_judged_faithfulness) at h),
  )
  | inr other ↦
      let (e, first, tier) = first_test_true edges (rw (other, is_judged_faithfulness) at h) in
      (e, inr ((λ at. cc ((on_edge_iff faithfulness_edge x).1 at, other)), first), tier)
]

test_true_of_first :
    (edges : List EdgeEvidence) (e : EdgeEvidence)
    → FirstFaithfulness e edges
    → e.tier ≡ judged
    → is_judged_faithfulness edges ≡ true
unfolding is_judged_faithfulness
test_true_of_first [] e first tier = absurd first
test_true_of_first (x ∷ edges) e (inl (at, same)) tier =
    rw ((on_edge_iff faithfulness_edge x).1 at, is_judged_faithfulness)
      ((is_judged_iff x.tier).1 (ap (λ (y : EdgeEvidence). y.tier) same ∙ tier))
test_true_of_first (x ∷ edges) e (inr (other, first)) tier =
    elim (Bool-cases (on_edge faithfulness_edge x)) [
      | inl here ↦ absurd (other ((on_edge_iff faithfulness_edge x).0 here))
      | inr not_here ↦ rw (not_here, is_judged_faithfulness) (test_true_of_first edges e first tier)
    ]

is_judged_faithfulness_iff :
    (edges : List EdgeEvidence) → (is_judged_faithfulness edges ≡ true) ↔ IsJudged edges
is_judged_faithfulness_iff edges =
    (first_test_true edges, λ h. test_true_of_first edges h.0 h.1 h.2)

pub try_admit-policy :
    (b : TrustBudget) (edges : List EdgeEvidence) → (try_admit b edges).0.policy ≡ b.policy
unfolding try_admit
try_admit-policy b edges = ground arith

-- A sequence of calls, with how many of the promulgations that were admitted are judged, and how
-- many there are.
pub data History : TrustBudget → List (List EdgeEvidence) → ℕ → ℕ → Type 0 where
  nothing : {b : TrustBudget} → History b [] 0 0
  refused :
      {b : TrustBudget} {edges : List EdgeEvidence} {rest : List (List EdgeEvidence)} {j t : ℕ}
      → (try_admit b edges).1 ≡ false
      → History (try_admit b edges).0 rest j t
      → History b (edges ∷ rest) j t
  admitted_judged :
      {b : TrustBudget} {edges : List EdgeEvidence} {rest : List (List EdgeEvidence)} {j t : ℕ}
      → (try_admit b edges).1 ≡ true
      → IsJudged edges
      → History (try_admit b edges).0 rest j t
      → History b (edges ∷ rest) (suc j) (suc t)
  admitted_other :
      {b : TrustBudget} {edges : List EdgeEvidence} {rest : List (List EdgeEvidence)} {j t : ℕ}
      → (try_admit b edges).1 ≡ true
      → ¬ IsJudged edges
      → History (try_admit b edges).0 rest j t
      → History b (edges ∷ rest) j (suc t)

-- The judged and the admitted promulgations, with those that the budget had counted before, keep
-- within the policy's bound.
abbrev pub Keeps : TrustBudget → ℕ → ℕ → Type 0
Keeps b j t = (b.judged + j) * b.policy.max_judged_den ≤ b.policy.max_judged_num * (b.total + t)

module _ (b : TrustBudget) (edges : List EdgeEvidence) where
  -- The counters follow what is admitted.
  pub try_admit_counts :
      ((try_admit b edges).1 ≡ false → (try_admit b edges).0 ≡ b)
      × ((try_admit b edges).1 ≡ true
          → is_judged_faithfulness edges ≡ true
          → (try_admit b edges).0 ≡ record b { judged = b.judged + 1; total = b.total + 1 })
      × ((try_admit b edges).1 ≡ true
          → is_judged_faithfulness edges ≡ false
          → (try_admit b edges).0 ≡ record b { total = b.total + 1 })
  unfolding try_admit
  try_admit_counts = ground arith

  try_admit-WithinBudget : WithinBudget b → WithinBudget (try_admit b edges).0
  unfolding try_admit admits_judged_faithfulness
  try_admit-WithinBudget h = grind arith

-- Every sequence of calls has a history, and within it the fraction of the judged promulgations
-- among the admitted ones, with those counted before, stays within the policy's bound.
pub admit_all-WithinBudget :
    (b : TrustBudget) (calls : List (List EdgeEvidence))
    → WithinBudget b
    → (j : ℕ) × (t : ℕ) × History b calls j t × Keeps b j t
admit_all-WithinBudget b [] h = (0, 0, nothing, omega (arith, h))
admit_all-WithinBudget b (edges ∷ rest) h =
    let after = (try_admit b edges).0 in
    let (j, t, history, bound) =
      admit_all-WithinBudget after rest (try_admit-WithinBudget b edges h) in
    let (same, both_grow, total_grows) = try_admit_counts b edges in
    elim (Bool-cases (try_admit b edges).1) [
      | inr out ↦
          (j, t, refused out history, subst (λ (x : TrustBudget). Keeps x j t) (same out) bound)
      | inl in' ↦ elim (Bool-cases (is_judged_faithfulness edges)) [
        | inl by_judge ↦
            let kept = subst (λ (x : TrustBudget). Keeps x j t) (both_grow in' by_judge) bound in
            (
              suc j,
              suc t,
              admitted_judged in' ((is_judged_faithfulness_iff edges).0 by_judge) history,
              omega (arith, kept),
            )
        | inr other ↦
            let kept = subst (λ (x : TrustBudget). Keeps x j t) (total_grows in' other) bound in
            (
              j,
              suc t,
              admitted_other in' (λ h. cc ((is_judged_faithfulness_iff edges).1 h, other)) history,
              omega (arith, kept),
            )
      ]
    ]

-- A promulgation is refused exactly where its first faithfulness edge is a judge's and admitting it
-- would pass the bound; a refusal leaves the budget as it was, and an admission counts one more
-- promulgation, and one more judged one exactly where that edge is a judge's.
pub try_admit_refuses :
    (b : TrustBudget) (edges : List EdgeEvidence)
    → (((try_admit b edges).1 ≡ false) ↔ (IsJudged edges × Exceeds b))
      × ((try_admit b edges).1 ≡ false → (try_admit b edges).0 ≡ b)
      × ((try_admit b edges).1 ≡ true
          → IsJudged edges
          → (try_admit b edges).0 ≡ record b { judged = b.judged + 1; total = b.total + 1 })
      × ((try_admit b edges).1 ≡ true
          → ¬ IsJudged edges
          → (try_admit b edges).0 ≡ record b { total = b.total + 1 })
unfolding try_admit admits_judged_faithfulness
try_admit_refuses b edges =
    let tested = is_judged_faithfulness_iff edges in
    let (same, both_grow, total_grows) = try_admit_counts b edges in
    (
      ground (arith, tested),
      same,
      (λ ok h. both_grow ok (tested.1 h)),
      λ ok other. elim (Bool-cases (is_judged_faithfulness edges)) [
        | inl by_judge ↦ absurd (other (tested.0 by_judge))
        | inr not_judged ↦ total_grows ok not_judged
      ],
    )
