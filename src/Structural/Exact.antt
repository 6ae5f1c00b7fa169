-- ===== src/Structural/Exact.antt =====
-- The residue set holds exactly the residues that the polynomial takes.
use leibniz_daemon.Common.{
  ℕ, zero, suc, ◌+◌, ◌<◌, ◌==◌, ltb, String, true, false, ◌||◌, ◌≡◌, refl, sym, ap, ◌∙◌, ◌↔◌, inl,
  inr, some, List, [], ◌∷◌, arith, Bool-cases, eq_iff, str_eq,
}
use leibniz_daemon.Structural.Integer.{pos, residue}
use leibniz_daemon.Structural.Residue.{residue-lt}
use leibniz_daemon.Structural.Poly.{Poly}
use leibniz_daemon.Structural.Value.{Env, poly_value}
use leibniz_daemon.Structural.Residues.{
  residue_bound, names_of, residue_at, has_residue, add_residue, residues_below, residues_over,
  residue_set,
}
use leibniz_daemon.Structural.Period.{at_all, residue_at_lem, residue_periodic}
use leibniz_daemon.Structural.Names.{poly_value_agree}

has_residue-add_residue :
    (r s : ℕ) (rs : List ℕ)
    → (has_residue (add_residue r rs) s ≡ true) ↔ ((r == s || has_residue rs s) ≡ true)
has_residue-add_residue r s rs = elim (Bool-cases (has_residue rs r)) [
  | inr new ↦ rw new ((λ h. h), λ h. h)
  | inl known ↦ rw known (
    (λ h. ground arith),
    (λ h. elim (Bool-cases (r == s)) [
      | inr differ ↦ ground arith
      | inl same ↦ let e : r ≡ s = ground arith in ap (has_residue rs) (sym e) ∙ known
    ]),
  )
]

module _ (p : Poly) (m : ℕ) where
  -- The residues at the integers below `k`
  residues_below-has :
      (k j : ℕ) → j < k → has_residue (residues_below p m k) (residue_at p m j) ≡ true
  unfolding residues_below
  residues_below-has zero j h = absurd (omega (arith, h))
  residues_below-has (suc k) j h =
      (has_residue-add_residue (residue_at p m k) (residue_at p m j) (residues_below p m k)).1
        (elim (Bool-cases (ltb j k)) [
          | inl below ↦ let rest = residues_below-has k j (ground arith) in ground arith
          | inr not_below ↦
              let last : k ≡ j = ground (arith, h) in
              let same = ap (residue_at p m) last in ground arith
        ])

  residues_below-taken :
      (k r : ℕ) → has_residue (residues_below p m k) r ≡ true → (j : ℕ) × (residue_at p m j ≡ r)
  unfolding residues_below
  residues_below-taken zero r h = cc h
  residues_below-taken (suc k) r h =
      let found = (has_residue-add_residue (residue_at p m k) r (residues_below p m k)).0 h in
      elim (Bool-cases (residue_at p m k == r)) [
        | inl same ↦ (k, ground arith)
        | inr differ ↦ residues_below-taken k r (ground arith)
      ]

-- Some integers for the variables give the residue.
abbrev pub IsTaken : Poly → ℕ → ℕ → Type 0
IsTaken p m r = (env : Env) × (residue m (poly_value env p) ≡ r)

module _ (p : Poly) (m : ℕ) (positive : 0 < m) where
  constant_exact :
      (rs : List ℕ) (r : ℕ)
      → names_of p ≡ []
      → some (add_residue (residue_at p m 0) []) ≡ some rs
      → (has_residue rs r ≡ true) ↔ IsTaken p m r
  constant_exact rs r none_named made =
      let same : (residue_at p m 0 ∷ []) ≡ rs = cc made in
      (
        (λ h.
            let here : has_residue (residue_at p m 0 ∷ []) r ≡ true =
              ap (λ xs. has_residue xs r) same ∙ h in
            let value : residue_at p m 0 ≡ r = ground arith in
            (at_all (pos 0), sym (residue_at_lem p m 0) ∙ value)),
        (λ taken.
            let (env, e) = taken in
            let agreed = poly_value_agree env (at_all (pos 0)) p (λ y h. cc (rw none_named at h)) in
            let value = residue_at_lem p m 0 ∙ ap (residue m) (sym agreed) ∙ e in
            let here : has_residue (residue_at p m 0 ∷ []) r ≡ true = ground arith in
            sym (ap (λ xs. has_residue xs r) same) ∙ here),
      )

  single_exact :
      (x : String) (rs : List ℕ) (r : ℕ)
      → names_of p ≡ x ∷ []
      → some (residues_below p m m) ≡ some rs
      → (has_residue rs r ≡ true) ↔ IsTaken p m r
  single_exact x rs r named made =
      let same : residues_below p m m ≡ rs = cc made in
      (
        (λ h.
            let (j, e) = residues_below-taken p m m r (ap (λ xs. has_residue xs r) same ∙ h) in
            (at_all (pos j), sym (residue_at_lem p m j) ∙ e)),
        (λ taken.
            let (env, e) = taken in
            let agreed = poly_value_agree env (at_all (env x)) p (λ y h.
              let listed : (str_eq x y || false) ≡ true = rw named at h in
              let found : str_eq x y ≡ true = ground arith in
              ap env (sym ((eq_iff x y).0 found))) in
            let value =
              sym (residue_periodic m (env x) p positive) ∙ ap (residue m) (sym agreed) ∙ e in
            let here =
              residues_below-has p m m (residue m (env x)) (residue-lt m (env x) positive) in
            ap (λ xs. has_residue xs r) (sym same)
            ∙ ap (has_residue (residues_below p m m)) (sym value)
            ∙ here),
      )

  residues_over_exact :
      (names : List String) (rs : List ℕ) (r : ℕ)
      → names_of p ≡ names
      → residues_over names p m ≡ some rs
      → (has_residue rs r ≡ true) ↔ IsTaken p m r
  unfolding residues_over
  residues_over_exact [] rs r named made = constant_exact rs r named made
  residues_over_exact (x ∷ []) rs r named made = single_exact x rs r named made
  residues_over_exact (x ∷ y ∷ names) rs r named made = cc made

-- Where the residue set is given, a number is in it exactly where some integers for the variables
-- make it the polynomial's residue; the modulus is positive.
pub residue_set-IsTaken_iff :
    (p : Poly) (m : ℕ) (rs : List ℕ) (r : ℕ)
    → 0 < m
    → residue_set p m ≡ some rs
    → (has_residue rs r ≡ true) ↔ IsTaken p m r
unfolding residue_set
residue_set-IsTaken_iff p m rs r positive made = elim (Bool-cases (ltb (residue_bound + 1) m)) [
  | inl large ↦ absurd (cc (rw (large, residue_set) at made))
  | inr small ↦
      residues_over_exact p m positive (names_of p) rs r refl (rw (small, residue_set) at made)
]
