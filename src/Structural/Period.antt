-- ===== src/Structural/Period.antt =====
-- One period of a polynomial in one variable gives all its residues.
use leibniz_daemon.Common.{ℕ, zero, suc, ◌<◌, ◌≡◌, sym, ap, ◌∙◌, [], ◌∷◌}
use leibniz_daemon.Structural.Integer.{
  ℤ, pos, ◌+ℤ◌, ◌*ℤ◌, pow, residue, +ℤ_comm, +ℤ_assoc, +ℤ_swap, +ℤ-zero, *ℤ_comm, *ℤ_assoc, *ℤ-+ℤ,
  *ℤ-one, *ℤ-zero,
}
use leibniz_daemon.Structural.Residue.{residue-+ℤ_multiple, residue-split}
use leibniz_daemon.Structural.Poly.{Mono, Poly}
use leibniz_daemon.Structural.Value.{Env, mono_value, poly_value}
use leibniz_daemon.Structural.Residues.{term_at, total_at, residue_at}

-- Every variable is the same integer.
abbrev pub at_all : ℤ → Env
at_all n = λ x. n

term_at_lem : (n : ℤ) (mono : Mono) (c : ℤ) → term_at n mono c ≡ c *ℤ mono_value (at_all n) mono
unfolding term_at
term_at_lem n [] c = sym (*ℤ-one c)
term_at_lem n ((x, e) ∷ mono) c =
    term_at_lem n mono (c *ℤ pow n e) ∙ *ℤ_assoc c (pow n e) (mono_value (at_all n) mono)

total_at_lem :
    (n : ℤ) (p : Poly) (total : ℤ) → total_at n p total ≡ total +ℤ poly_value (at_all n) p
unfolding total_at
total_at_lem n [] total = sym (+ℤ-zero total)
total_at_lem n ((mono, c) ∷ p) total =
    total_at_lem n p (total +ℤ term_at n mono c)
    ∙ +ℤ_assoc total (term_at n mono c) (poly_value (at_all n) p)
    ∙ ap (λ t. total +ℤ (t +ℤ poly_value (at_all n) p)) (term_at_lem n mono c)

pub residue_at_lem :
    (p : Poly) (m n : ℕ) → residue_at p m n ≡ residue m (poly_value (at_all (pos n)) p)
unfolding residue_at
residue_at_lem p m n = ap (residue m) (
    total_at_lem (pos n) p (pos 0)
    ∙ +ℤ_comm (pos 0) (poly_value (at_all (pos n)) p)
    ∙ +ℤ-zero (poly_value (at_all (pos n)) p))

-- The difference of two integers is a multiple.
abbrev Congruent : ℕ → ℤ → ℤ → Type 0
Congruent m x y = (w : ℤ) × (x ≡ y +ℤ pos m *ℤ w)

module _ (m : ℕ) where
  refl-Congruent : (a : ℤ) → Congruent m a a
  refl-Congruent a = (pos 0, sym (ap (λ x. a +ℤ x) (*ℤ-zero (pos m)) ∙ +ℤ-zero a))

  +ℤ-Congruent : (a b c d : ℤ) → Congruent m a b → Congruent m c d → Congruent m (a +ℤ c) (b +ℤ d)
  +ℤ-Congruent a b c d (v, e) (w, f) = (
    v +ℤ w,
    ap (λ x. x +ℤ c) e
        ∙ ap (λ y. (b +ℤ pos m *ℤ v) +ℤ y) f
        ∙ +ℤ_swap b (pos m *ℤ v) d (pos m *ℤ w)
        ∙ ap (λ z. (b +ℤ d) +ℤ z) (sym (*ℤ-+ℤ (pos m) v w)),
  )

  trans-Congruent : (a b c : ℤ) → Congruent m a b → Congruent m b c → Congruent m a c
  trans-Congruent a b c (v, e) (w, f) = (
    w +ℤ v,
    e
        ∙ ap (λ x. x +ℤ pos m *ℤ v) f
        ∙ +ℤ_assoc c (pos m *ℤ w) (pos m *ℤ v)
        ∙ ap (λ x. c +ℤ x) (sym (*ℤ-+ℤ (pos m) w v)),
  )

  scale-Congruent : (a c d : ℤ) → Congruent m c d → Congruent m (a *ℤ c) (a *ℤ d)
  scale-Congruent a c d (w, f) = (
    a *ℤ w,
    ap (λ x. a *ℤ x) f
        ∙ *ℤ-+ℤ a d (pos m *ℤ w)
        ∙ ap (λ x. a *ℤ d +ℤ x)
            (sym (*ℤ_assoc a (pos m) w)
              ∙ ap (λ x. x *ℤ w) (*ℤ_comm a (pos m))
              ∙ *ℤ_assoc (pos m) a w),
  )

  *ℤ-Congruent : (a b c d : ℤ) → Congruent m a b → Congruent m c d → Congruent m (a *ℤ c) (b *ℤ d)
  *ℤ-Congruent a b c d left right =
      let (w, e) = scale-Congruent d a b left in
      trans-Congruent (a *ℤ c) (a *ℤ d) (b *ℤ d) (scale-Congruent a c d right)
        (w, *ℤ_comm a d ∙ e ∙ ap (λ x. x +ℤ pos m *ℤ w) (*ℤ_comm d b))

  pow-Congruent : (a b : ℤ) (e : ℕ) → Congruent m a b → Congruent m (pow a e) (pow b e)
  unfolding pow
  pow-Congruent a b zero h = refl-Congruent (pos 1)
  pow-Congruent a b (suc e) h = *ℤ-Congruent a b (pow a e) (pow b e) h (pow-Congruent a b e h)

  mono_value-Congruent :
      (a b : ℤ) (mono : Mono)
      → Congruent m a b
      → Congruent m (mono_value (at_all a) mono) (mono_value (at_all b) mono)
  mono_value-Congruent a b [] h = refl-Congruent (pos 1)
  mono_value-Congruent a b ((x, e) ∷ mono) h =
      *ℤ-Congruent (pow a e) (pow b e) (mono_value (at_all a) mono) (mono_value (at_all b) mono)
        (pow-Congruent a b e h) (mono_value-Congruent a b mono h)

  poly_value-Congruent :
      (a b : ℤ) (p : Poly)
      → Congruent m a b
      → Congruent m (poly_value (at_all a) p) (poly_value (at_all b) p)
  poly_value-Congruent a b [] h = refl-Congruent (pos 0)
  poly_value-Congruent a b ((mono, c) ∷ p) h =
      +ℤ-Congruent (c *ℤ mono_value (at_all a) mono) (c *ℤ mono_value (at_all b) mono)
        (poly_value (at_all a) p) (poly_value (at_all b) p)
        (scale-Congruent c (mono_value (at_all a) mono) (mono_value (at_all b) mono)
          (mono_value-Congruent a b mono h))
        (poly_value-Congruent a b p h)

  -- A polynomial at an integer has the residue that it has at the integer's residue.
  pub residue_periodic :
      (n : ℤ) (p : Poly)
      → 0 < m
      → residue m (poly_value (at_all n) p) ≡ residue_at p m (residue m n)
  residue_periodic n p positive =
      let r = pos (residue m n) in
      let (w, e) = poly_value-Congruent n r p (residue-split m n positive) in
      ap (residue m) e
      ∙ residue-+ℤ_multiple m (poly_value (at_all r) p) w positive
      ∙ sym (residue_at_lem p m (residue m n))
