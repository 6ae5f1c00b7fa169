-- ===== src/Selection.antt =====
-- leibniz/selection.py: the archive of elites, by cell of the behaviour space, and the policy over it.
-- A coordinate is a fraction and a quality is in thousandths, to which the source rounds it.
mod Descriptor
pub mod Elitism
pub use Descriptor.{Fraction}
unfoldable pub use Descriptor.{
  starts_with, occurs_in, unit_hash, first_hit, technique_of, subject_of, complexity_of, descriptor,
}
use leibniz_daemon.Common.{
  ℕ, zero, suc, ◌+◌, ◌*◌, ◌/◌, ◌-◌, min, ◌==◌, leb, ltb, String, Bool, true, false, not, ◌&&◌, ◌||◌,
  Option, none, some, List, [], ◌∷◌, ◌++◌, if◌then◌else◌, map, take, is_some, length,
}
use leibniz_daemon.Types.{
  FinishReason, refuted, trivial, known, gamed, unfaithful, malformed, over_budget, promulgated,
  unproven, walnut_decided, claim_type_value,
}
use leibniz_daemon.Propositio.{Propositio, Enuntiatio}
use Prim.Native.String.{◌++◌ as str_append}

pub data Disposition : Type 0 where
  kill recombine commit : Disposition

pub record Elite : Type 0 where
  pub prop : Propositio
  pub quality : ℕ

abbrev pub Cell : Type 0
Cell = List ℕ

pub record Archive : Type 0 where
  pub cells : List (Cell × Elite)
  pub resolution : ℕ
  pub dims : ℕ

abbrev pub same_cell : Cell → Cell → Bool
same_cell [] [] = true
same_cell (x ∷ xs) (y ∷ ys) = x == y && same_cell xs ys
same_cell _ _ = false

abbrev pub origin : ℕ → List Fraction
origin zero = []
origin (suc n) = (0, 1) ∷ origin n

-- `min(resolution - 1, max(0, int(x * resolution)))`
unfoldable pub coordinate : ℕ → Fraction → ℕ
coordinate resolution (n, d) = min (resolution - 1) (n * resolution / d)

-- `Archive._cell`
unfoldable pub cell_of : Archive → List Fraction → Cell
unfolding coordinate
cell_of a [] = map (coordinate a.resolution) (origin a.dims)
cell_of a (x ∷ xs) = map (coordinate a.resolution) (x ∷ xs)

-- `cells.get(key)` and `cells[key] = elite`
unfoldable pub elite_at : Cell → List (Cell × Elite) → Option Elite
elite_at key [] = none
elite_at key ((k, e) ∷ rest) = if same_cell k key then some e else elite_at key rest

unfoldable pub place : Cell → Elite → List (Cell × Elite) → List (Cell × Elite)
place key e [] = (key, e) ∷ []
place key e ((k, old) ∷ rest) =
    if same_cell k key then (k, e) ∷ rest else (k, old) ∷ place key e rest

abbrev pub beats : ℕ → Option Elite → Bool
beats quality none = true
beats quality (some cur) = ltb cur.quality quality

-- `Archive.consider`: the archive after the call, and whether the candidate was kept.
unfoldable pub consider : Archive → Propositio → ℕ → Archive × Bool
consider a prop quality =
    let key = cell_of a prop.behavior_descriptor in
    if beats quality (elite_at key a.cells)
    then (record a { cells = place key (record { prop = prop; quality = quality }) a.cells }, true)
    else (a, false)

-- `range(max(0, c - 1), min(resolution, c + 2))`
from_to : ℕ → ℕ → List ℕ
from_to zero c = []
from_to (suc n) c = c ∷ from_to n (suc c)

abbrev around : ℕ → ℕ → List ℕ
around resolution c = from_to (min resolution (c + 2) - (c - 1)) (c - 1)

prefixed : List ℕ → List Cell → List Cell
prefixed [] keys = []
prefixed (c ∷ cs) keys = map (λ k. c ∷ k) keys ++ prefixed cs keys

-- `itertools.product(*ranges)`
unfoldable pub box : ℕ → Cell → List Cell
unfolding prefixed from_to
box resolution [] = [] ∷ []
box resolution (c ∷ cs) = prefixed (around resolution c) (box resolution cs)

count_if : (Cell → Bool) → List Cell → ℕ
count_if p [] = 0
count_if p (k ∷ ks) = let rest = count_if p ks in if p k then suc rest else rest

unfoldable pub neighbor_count : Archive → Cell → ℕ
unfolding count_if
neighbor_count a key =
    count_if (λ nb. not (same_cell nb key) && is_some (elite_at nb a.cells)) (box a.resolution key)

-- `KFM.disposition`
unfoldable pub disposition : Propositio → Disposition
disposition prop = elim prop.finish_reason [
  | some refuted ↦ kill
  | some trivial ↦ kill
  | some known ↦ kill
  | some gamed ↦ kill
  | some unfaithful ↦ kill
  | some malformed ↦ kill
  | some over_budget ↦ kill
  | _ ↦ if prop.promulgated then commit else recombine
]

-- `_curiosity(a) > _curiosity(b)`: fewer neighbours first, then the quality.
unfoldable pub more_curious : Archive → Cell × Elite → Cell × Elite → Bool
more_curious a (j, d) (k, e) =
    let m = neighbor_count a j in
    let n = neighbor_count a k in ltb m n || (m == n && ltb e.quality d.quality)

-- `sorted(..., reverse=True)`, which keeps the order of equals.
unfoldable pub insert_ranked : Archive → Cell × Elite → List (Cell × Elite) → List (Cell × Elite)
insert_ranked a x [] = x ∷ []
insert_ranked a x (y ∷ ys) =
    let rest = insert_ranked a x ys in if more_curious a y x then y ∷ rest else x ∷ y ∷ ys

unfoldable pub ranked : Archive → List (Cell × Elite) → List (Cell × Elite)
ranked a [] = []
ranked a (x ∷ xs) = insert_ranked a x (ranked a xs)

abbrev prop_of : Cell × Elite → Propositio
prop_of (key, e) = e.prop

unfoldable pub select_parents : Archive → ℕ → List Propositio
select_parents a k = map prop_of (take k (ranked a a.cells))

abbrev feature : String → Propositio → String
feature label p = str_append label (
    str_append p.enuntiatio.statement
      (str_append " [" (str_append (claim_type_value p.enuntiatio.claim_type) "]")))

unfoldable pub recombined : Propositio → Propositio → String
recombined a b =
    str_append "Synthesize a new conjecture combining features of two stepping stones. "
      (str_append (feature "(A) " a) (str_append "; " (str_append (feature "(B) " b) ".")))

unfoldable pub pairwise : List Propositio → List String
pairwise [] = []
pairwise (a ∷ []) = []
pairwise (a ∷ b ∷ rest) = recombined a b ∷ pairwise (b ∷ rest)

unfoldable pub recombination_seeds : Archive → ℕ → List String
recombination_seeds a k = pairwise (select_parents a k)
