-- ===== src/Selection/Elitism.antt =====
-- The archive keeps, in each cell, the best candidate that was offered to it.
use leibniz_daemon.Common.{
  ℕ, zero, suc, ◌+◌, ◌-◌, ◌≤◌, min, max, true, false, ◌≡◌, refl, ◌↔◌, none, some, List, [], ◌∷◌,
  if◌then◌else◌, map, take, length, arith, Bool-cases, inl, inr, ap, ◌∙◌,
}
use leibniz_daemon.Propositio.{Propositio}
use leibniz_daemon.Selection.{
  Archive, Elite, Cell, Fraction, same_cell, cell_of, coordinate, origin, elite_at, place, consider,
  ranked, insert_ranked, select_parents, pairwise, recombination_seeds,
}

same_cell_trans : (a b c : Cell) → same_cell a b ≡ true → same_cell a c ≡ same_cell b c
same_cell_trans [] [] c h = refl
same_cell_trans [] (y ∷ ys) c h = cc
same_cell_trans (x ∷ xs) [] c h = cc
same_cell_trans (x ∷ xs) (y ∷ ys) [] h = refl
same_cell_trans (x ∷ xs) (y ∷ ys) (z ∷ zs) h = ground (arith, same_cell_trans xs ys zs)

same_cell_sym : (a b : Cell) → same_cell a b ≡ same_cell b a
same_cell_sym [] [] = refl
same_cell_sym [] (y ∷ ys) = refl
same_cell_sym (x ∷ xs) [] = refl
same_cell_sym (x ∷ xs) (y ∷ ys) = ground (arith, same_cell_sym xs ys)

elite_at-same :
    (a b : Cell) (cells : List (Cell × Elite))
    → same_cell a b ≡ true
    → elite_at a cells ≡ elite_at b cells
unfolding elite_at
elite_at-same a b [] h = refl
elite_at-same a b ((k, e) ∷ rest) h =
    ground (
      arith,
      same_cell_trans a b k h,
      same_cell_sym k a,
      same_cell_sym k b,
      elite_at-same a b rest h,
    )

elite_at-place :
    (key other : Cell) (e : Elite) (cells : List (Cell × Elite))
    → elite_at other (place key e cells)
      ≡ (if same_cell key other then some e else elite_at other cells)
unfolding elite_at place
elite_at-place key other e [] = refl
elite_at-place key other e ((k, old) ∷ rest) = elim (Bool-cases (same_cell k key)) [
  | inl y ↦ rw y (rw (same_cell_trans k key other y) (ground arith))
  | inr n ↦ rw n (
      ground (
        arith,
        elite_at-place key other e rest,
        same_cell_trans key other k,
        same_cell_sym other k,
        same_cell_sym key k,
      ))
]

-- The quality at a cell: 0 where it is empty, and otherwise one more than its elite's.
abbrev pub held : Cell → Archive → ℕ
held key a = elim (elite_at key a.cells) [ none ↦ 0 | some e ↦ e.quality + 1 ]

-- A candidate is kept exactly when it is better than the elite of its own cell, whose quality is
-- then its own; every other cell keeps its elite, and where it is not kept nothing changes.
pub consider_keeps_best :
    (a : Archive) (prop : Propositio) (quality : ℕ) (key : Cell)
    → let own = cell_of a prop.behavior_descriptor in
      let (after, kept) = consider a prop quality in
      ((kept ≡ true) ↔ (held own a ≤ quality))
      × (same_cell own key ≡ true → held key after ≡ max (held key a) (quality + 1))
      × (same_cell own key ≡ false → elite_at key after.cells ≡ elite_at key a.cells)
      × (kept ≡ false → after ≡ a)
unfolding consider
consider_keeps_best a prop quality key =
    let own = cell_of a prop.behavior_descriptor in
    let e : Elite = record { prop = prop; quality = quality } in
    ground (
      arith,
      elite_at-place own own e a.cells,
      elite_at-place own key e a.cells,
      elite_at-same own key a.cells,
    )

-- What is best among offers, said without the archive's order of events.
abbrev pub best : Archive → Cell → ℕ → List (Propositio × ℕ) → ℕ
best a key sofar [] = sofar
best a key sofar ((prop, quality) ∷ rest) =
    best a key
      (if same_cell (cell_of a prop.behavior_descriptor) key
        then max sofar (quality + 1)
        else sofar)
      rest

abbrev pub consider_all : Archive → List (Propositio × ℕ) → Archive
consider_all a [] = a
consider_all a ((prop, quality) ∷ rest) = consider_all (consider a prop quality).0 rest

same_shape :
    (a : Archive) (prop : Propositio) (quality : ℕ)
    → ((consider a prop quality).0.resolution ≡ a.resolution)
      × ((consider a prop quality).0.dims ≡ a.dims)
unfolding consider
same_shape a prop quality = ground arith

cell_same :
    (a b : Archive) (bd : List Fraction)
    → b.resolution ≡ a.resolution
    → b.dims ≡ a.dims
    → cell_of b bd ≡ cell_of a bd
unfolding cell_of
cell_same a b [] r d =
    ap (λ m. map (coordinate m) (origin b.dims)) r
    ∙ ap (λ m. map (coordinate a.resolution) (origin m)) d
cell_same a b (x ∷ xs) r d = ap (λ m. map (coordinate m) (x ∷ xs)) r

best-same :
    (a b : Archive) (key : Cell) (n : ℕ) (offers : List (Propositio × ℕ))
    → b.resolution ≡ a.resolution
    → b.dims ≡ a.dims
    → best b key n offers ≡ best a key n offers
best-same a b key n [] r d = refl
best-same a b key n ((prop, quality) ∷ rest) r d =
    best-same a b key
      (if same_cell (cell_of b prop.behavior_descriptor) key then max n (quality + 1) else n) rest r
      d
    ∙ ap (λ c. best a key (if same_cell c key then max n (quality + 1) else n) rest)
        (cell_same a b prop.behavior_descriptor r d)

-- After any run of candidates, each cell holds the best quality that was offered to it.
pub consider_all-best :
    (a : Archive) (key : Cell) (offers : List (Propositio × ℕ))
    → held key (consider_all a offers) ≡ best a key (held key a) offers
consider_all-best a key [] = refl
consider_all-best a key ((prop, quality) ∷ rest) =
    let (_, own, other, _) = consider_keeps_best a prop quality key in
    let next = (consider a prop quality).0 in
    let step : held key next ≡ (
        if same_cell (cell_of a prop.behavior_descriptor) key
        then max (held key a) (quality + 1)
        else held key a) =
      ground (arith, own, other) in
    let (r, d) = same_shape a prop quality in
    consider_all-best next key rest
    ∙ best-same a next key (held key next) rest r d
    ∙ ap (λ m. best a key m rest) step

length-insert_ranked :
    (a : Archive) (x : Cell × Elite) (ys : List (Cell × Elite))
    → length (insert_ranked a x ys) ≡ length ys + 1
unfolding insert_ranked
length-insert_ranked a x [] = refl
length-insert_ranked a x (y ∷ ys) = ground (arith, length-insert_ranked a x ys)

length-ranked : (a : Archive) (xs : List (Cell × Elite)) → length (ranked a xs) ≡ length xs
unfolding ranked
length-ranked a [] = refl
length-ranked a (x ∷ xs) = omega (arith, length-insert_ranked a x (ranked a xs), length-ranked a xs)

length-take-map :
    (f : Cell × Elite → Propositio) (k : ℕ) (xs : List (Cell × Elite))
    → length (map f (take k xs)) ≡ min k (length xs)
length-take-map f zero xs = omega arith
length-take-map f (suc k) [] = omega arith
length-take-map f (suc k) (x ∷ xs) = omega (arith, length-take-map f k xs)

length-pairwise : (ps : List Propositio) → length (pairwise ps) ≡ length ps - 1
unfolding pairwise
length-pairwise [] = refl
length-pairwise (a ∷ []) = refl
length-pairwise (a ∷ b ∷ rest) = omega (arith, length-pairwise (b ∷ rest))

-- `k` parents give one seed fewer than there are parents, and none before two elites exist.
pub length-recombination_seeds :
    (a : Archive) (k : ℕ) → length (recombination_seeds a k) ≡ min k (length a.cells) - 1
unfolding recombination_seeds select_parents
length-recombination_seeds a k =
    length-pairwise (select_parents a k)
    ∙ ap (λ n. n - 1)
        (length-take-map _ k (ranked a a.cells) ∙ ap (min k) (length-ranked a a.cells))
