-- ===== src/Notebook/Eviction.antt =====
-- A new family is evicted at once where the histogram is full of families counted twice or more.
use leibniz_daemon.Common.{
  ap, ℕ, ◌≤◌, String, ◌≡◌, refl, none, [], ◌∷◌, ◌++◌, All, length, length-append, lookup,
  insert-new, lookup-cons, ltb, true, ◌∙◌, Dict, eq_iff, arith, raised,
}
use leibniz_daemon.Notebook.{
  Notebook, note_family, retire_genre, counted, least, pop, pop_least, family_cap,
}

abbrev pub Twice : String × ℕ → Type 0
Twice (key, n) = 2 ≤ n

least-last :
    (key first : String) (n : ℕ) (rest : Dict ℕ)
    → 2 ≤ n
    → All Twice rest
    → least first n (rest ++ (key, 1) ∷ []) ≡ key
unfolding least
least-last key first n [] h t = ground arith
least-last key first n ((k, m) ∷ rest) h t =
    ground (arith, least-last key first n rest h t.1, least-last key k m rest t.0 t.1)

pop-last : (key : String) (d : Dict ℕ) → lookup key d ≡ none → pop key (d ++ (key, 1) ∷ []) ≡ d
unfolding pop
pop-last key [] h = ground (arith, eq_iff key key)
pop-last key ((k, v) ∷ d) h = ground (arith, lookup-cons key k v d, pop-last key d)

pop_least-pop :
    (key : String) (k : String) (m : ℕ) (rest : Dict ℕ)
    → least k m rest ≡ key
    → pop_least ((k, m) ∷ rest) ≡ pop key ((k, m) ∷ rest)
unfolding pop_least
pop_least-pop key k m rest e = ap (λ x. pop x ((k, m) ∷ rest)) e

counted-evicts :
    (key : String) (counts : Dict ℕ)
    → length counts ≡ family_cap
    → All Twice counts
    → lookup key counts ≡ none
    → counted key counts ≡ counts
unfolding counted
counted-evicts key [] n t new = cc
counted-evicts key ((k, m) ∷ rest) n t new =
    let over : ltb family_cap (length (((k, m) ∷ rest) ++ (key, 1) ∷ [])) ≡ true =
      ground (arith, n, length-append rest ((key, 1) ∷ [])) in
    rw (new, insert-new key 1 ((k, m) ∷ rest) new, over)
      (pop_least-pop key k m (rest ++ (key, 1) ∷ []) (least-last key k m rest t.0 t.1)
        ∙ pop-last key ((k, m) ∷ rest) new)

-- Where 64 families have been proved twice or more each, the proof of a claim of a new family is not
-- recorded: the family that is evicted is the new one, and its count is then read.
pub note_family-loses_new :
    (nb : Notebook) (key descriptor : String)
    → length nb.family_counts ≡ family_cap
    → All Twice nb.family_counts
    → lookup key nb.family_counts ≡ none
    → (note_family nb key descriptor).1 ≡ raised
unfolding note_family retire_genre
note_family-loses_new nb key descriptor full t new =
    rw (counted-evicts key nb.family_counts full t new, new) refl
