-- ===== src/Structural/Normalized.antt =====
-- The multivariate normal form keeps the residue of the polynomial.
use leibniz_daemon.Common.{
  ℕ, ◌<◌, ◌==◌, false, ◌≡◌, refl, sym, ap, ◌∙◌, inl, inr, some, List, [], ◌∷◌, arith, Bool-cases,
}
use leibniz_daemon.Structural.Integer.{
  ℤ, pos, ◌+ℤ◌, ◌*ℤ◌, residue, +ℤ_comm, +ℤ_assoc, +ℤ_swap, +ℤ-zero, *ℤ_comm, *ℤ_assoc, *ℤ-+ℤ,
  *ℤ-zero,
}
use leibniz_daemon.Structural.Residue.{residue-+ℤ_multiple, residue-split}
use leibniz_daemon.Structural.Poly.{Mono, Poly}
use leibniz_daemon.Structural.Value.{Env, mono_value, poly_value}
use leibniz_daemon.Structural.Signature.{
  reduced, is_before, place_term, sorted_terms, Normal, vanishing, univariate, multivariate, render,
  normalize,
}

module _ (env : Env) where
  -- The value of a reduced polynomial
  abbrev terms_value : List (Mono × ℕ) → ℤ
  terms_value [] = pos 0
  terms_value ((mono, c) ∷ terms) = pos c *ℤ mono_value env mono +ℤ terms_value terms

  swap_front : (a b c : ℤ) → a +ℤ (b +ℤ c) ≡ b +ℤ (a +ℤ c)
  swap_front a b c = sym (+ℤ_assoc a b c) ∙ ap (λ x. x +ℤ c) (+ℤ_comm a b) ∙ +ℤ_assoc b a c

  terms_value-place_term :
      (mono : Mono) (c : ℕ) (terms : List (Mono × ℕ))
      → terms_value (place_term (mono, c) terms) ≡ pos c *ℤ mono_value env mono +ℤ terms_value terms
  unfolding place_term
  terms_value-place_term mono c [] = refl
  terms_value-place_term mono c ((b, d) ∷ terms) = elim (Bool-cases (is_before mono b)) [
    | inl before ↦ rw before refl
    | inr after ↦ rw after (
        ap (λ v. pos d *ℤ mono_value env b +ℤ v) (terms_value-place_term mono c terms)
        ∙ swap_front (pos d *ℤ mono_value env b) (pos c *ℤ mono_value env mono) (terms_value terms))
  ]

  terms_value-sorted_terms :
      (terms : List (Mono × ℕ)) → terms_value (sorted_terms terms) ≡ terms_value terms
  unfolding sorted_terms
  terms_value-sorted_terms [] = refl
  terms_value-sorted_terms ((mono, c) ∷ terms) =
      terms_value-place_term mono c (sorted_terms terms)
      ∙ ap (λ v. pos c *ℤ mono_value env mono +ℤ v) (terms_value-sorted_terms terms)

  module _ (m : ℕ) (positive : 0 < m) where
    -- A polynomial is its reduced form and a multiple of the modulus.
    reduced_lem :
        (p : Poly) → (w : ℤ) × (poly_value env p ≡ terms_value (reduced p m) +ℤ pos m *ℤ w)
    unfolding reduced
    reduced_lem [] = (pos 0, sym (ap (λ x. pos 0 +ℤ x) (*ℤ-zero (pos m)) ∙ +ℤ-zero (pos 0)))
    reduced_lem ((mono, c) ∷ p) =
        let v = mono_value env mono in
        let (w, e) = reduced_lem p in
        let (q, d) = residue-split m c positive in
        let split =
          ap (λ x. x *ℤ v +ℤ poly_value env p) d
          ∙ ap (λ x. x +ℤ poly_value env p)
              (*ℤ_comm (pos (residue m c) +ℤ pos m *ℤ q) v
                ∙ *ℤ-+ℤ v (pos (residue m c)) (pos m *ℤ q)
                ∙ ap (λ x. x +ℤ v *ℤ (pos m *ℤ q)) (*ℤ_comm v (pos (residue m c)))
                ∙ ap (λ x. pos (residue m c) *ℤ v +ℤ x)
                    (*ℤ_comm v (pos m *ℤ q) ∙ *ℤ_assoc (pos m) q v))
          ∙ ap (λ x. (pos (residue m c) *ℤ v +ℤ pos m *ℤ (q *ℤ v)) +ℤ x) e
          ∙ +ℤ_swap (pos (residue m c) *ℤ v) (pos m *ℤ (q *ℤ v)) (terms_value (reduced p m))
              (pos m *ℤ w)
          ∙ ap (λ x. (pos (residue m c) *ℤ v +ℤ terms_value (reduced p m)) +ℤ x)
              (sym (*ℤ-+ℤ (pos m) (q *ℤ v) w)) in
        elim (Bool-cases (residue m c == 0)) [
          | inr kept ↦ (q *ℤ v +ℤ w, rw kept split)
          | inl dropped ↦
              let zero_residue : residue m c ≡ 0 = ground arith in
              let nothing =
                ap (λ n. pos n *ℤ v +ℤ terms_value (reduced p m)) zero_residue
                ∙ ap (λ x. x +ℤ terms_value (reduced p m)) (*ℤ_comm (pos 0) v ∙ *ℤ-zero v)
                ∙ +ℤ_comm (pos 0) (terms_value (reduced p m))
                ∙ +ℤ-zero (terms_value (reduced p m)) in
              (q *ℤ v +ℤ w, rw dropped (split ∙ ap (λ x. x +ℤ pos m *ℤ (q *ℤ v +ℤ w)) nothing))
        ]

  -- The value of a normal form that is not univariate
  abbrev pub normal_value : Normal → ℤ
  normal_value vanishing = pos 0
  normal_value (univariate uni) = pos 0
  normal_value (multivariate terms) = terms_value terms

  render_lem :
      (terms : List (Mono × ℕ)) (m : ℕ) (n : Normal)
      → render terms m false ≡ some n
      → terms_value terms ≡ normal_value n
  unfolding render
  render_lem [] m n e = let same : vanishing ≡ n = cc e in ap normal_value same
  render_lem (t ∷ terms) m n e =
      let same : multivariate (sorted_terms (t ∷ terms)) ≡ n = cc e in
      sym (terms_value-sorted_terms (t ∷ terms)) ∙ ap normal_value same

  pub normalize_lem :
      (p : Poly) (m : ℕ) (n : Normal)
      → 0 < m
      → normalize p m false ≡ some n
      → residue m (poly_value env p) ≡ residue m (normal_value n)
  unfolding normalize
  normalize_lem p m n positive e =
      let (w, split) = reduced_lem m positive p in
      ap (residue m) split
      ∙ residue-+ℤ_multiple m (terms_value (reduced p m)) w positive
      ∙ ap (residue m) (render_lem (reduced p m) m n e)
