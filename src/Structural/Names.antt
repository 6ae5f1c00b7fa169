-- ===== src/Structural/Names.antt =====
-- The value of a polynomial depends only on the variables that it names.
use leibniz_daemon.Common.{
  String, true, ◌≡◌, refl, ap, ◌∙◌, inl, inr, List, [], ◌∷◌, arith, contains, Bool-cases, eq_iff,
}
use leibniz_daemon.Structural.Integer.{◌+ℤ◌, ◌*ℤ◌, pow}
use leibniz_daemon.Structural.Poly.{Mono, Poly}
use leibniz_daemon.Structural.Value.{Env, mono_value, poly_value}
use leibniz_daemon.Structural.Residues.{add_name, add_names, names_of}

add_name_has : (x : String) (names : List String) → contains (add_name x names) x ≡ true
add_name_has x names = elim (Bool-cases (contains names x)) [
  | inl known ↦ rw (known, known) refl
  | inr new ↦ rw (new, (eq_iff x x).1 refl) refl
]

add_name_keeps :
    (x y : String) (names : List String)
    → contains names y ≡ true
    → contains (add_name x names) y ≡ true
add_name_keeps x y names h = elim (Bool-cases (contains names x)) [
  | inl known ↦ rw (known, h) refl
  | inr new ↦ rw (new, h) (ground arith)
]

add_names_keeps :
    (mono : Mono) (y : String) (names : List String)
    → contains names y ≡ true
    → contains (add_names mono names) y ≡ true
add_names_keeps [] y names h = h
add_names_keeps ((x, e) ∷ mono) y names h =
    add_name_keeps x y (add_names mono names) (add_names_keeps mono y names h)

module _ (left right : Env) where
  -- Both environments give the same integers to these names.
  abbrev SameOn : List String → Type 0
  SameOn names = (y : String) → contains names y ≡ true → left y ≡ right y

  mono_value_agree :
      (mono : Mono) (names : List String)
      → SameOn (add_names mono names)
      → mono_value left mono ≡ mono_value right mono
  mono_value_agree [] names same = refl
  mono_value_agree ((x, e) ∷ mono) names same =
      ap (λ n. pow n e *ℤ mono_value left mono) (same x (add_name_has x (add_names mono names)))
      ∙ ap (λ v. pow (right x) e *ℤ v)
          (mono_value_agree mono names
            (λ y h. same y (add_name_keeps x y (add_names mono names) h)))

  pub poly_value_agree :
      (p : Poly)
      → ((y : String) → contains (names_of p) y ≡ true → left y ≡ right y)
      → poly_value left p ≡ poly_value right p
  poly_value_agree [] same = refl
  poly_value_agree ((mono, c) ∷ p) same =
      ap (λ v. c *ℤ v +ℤ poly_value left p) (mono_value_agree mono (names_of p) same)
      ∙ ap (λ v. c *ℤ mono_value right mono +ℤ v)
          (poly_value_agree p (λ y h. same y (add_names_keeps mono y (names_of p) h)))
