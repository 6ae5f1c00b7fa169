-- ===== src/Runtime/Barrier.antt =====
-- What the write barrier keeps, and what it does not.
use leibniz_daemon.Common.{
  Option, none, some, ap, ◌↔◌, ℕ, String, Bool, true, false, not, ◌≡◌, refl, ◌≢◌, ◌⊎◌, inl, inr, [],
  ◌∷◌, ◌++◌, arith, str_eq, eq_iff, any, keep, All, raised, returned, Bool-cases,
}
use leibniz_daemon.Propositio.{Propositio}
use leibniz_daemon.Runtime.{Row, Ledger, Runtime, foreign, open_db, to_row, upsert, remember}

-- Every row is untagged or of the instance `name`.
abbrev pub OwnedBy : String → Ledger → Type 0
OwnedBy name ledger =
    All (λ (r : Row). (r.instance_name ≡ none) ⊎ (r.instance_name ≡ some name)) ledger

tagged :
    (name : String) (r : Row) (o : Option String)
    → r.instance_name ≡ o
    → (foreign name r ≡ false) ↔ ((o ≡ none) ⊎ (o ≡ some name))
unfolding foreign
tagged name r none e = ((λ h. inl refl), λ h. rw (e, foreign) refl)
tagged name r (some other) e = elim (Bool-cases (str_eq other name)) [
  | inl same ↦
      ((λ h. inr (ap some ((eq_iff other name).0 same))), λ h. rw (e, foreign) (rw same refl))
  | inr differ ↦ (
    (λ h. absurd (cc (rw (differ) at (rw (e, foreign) at h)))),
    λ h. absurd (ground (arith, h, eq_iff other name)),
  )
]

foreign_iff :
    (name : String) (r : Row)
    → (foreign name r ≡ false) ↔ ((r.instance_name ≡ none) ⊎ (r.instance_name ≡ some name))
foreign_iff name r = tagged name r r.instance_name refl

any-foreign :
    (name : String) (ledger : Ledger) → (any (foreign name) ledger ≡ false) ↔ OwnedBy name ledger
any-foreign name [] = ((λ h. tt), λ h. refl)
any-foreign name (r ∷ rs) = ground (arith, foreign_iff name r, any-foreign name rs)

OwnedBy-append :
    (name : String) (rows : Ledger) (row : Row)
    → OwnedBy name rows
    → row.instance_name ≡ some name
    → OwnedBy name (rows ++ row ∷ [])
OwnedBy-append name [] row h e = (inr e, tt)
OwnedBy-append name (r ∷ rs) row h e = (h.0, OwnedBy-append name rs row h.1 e)

OwnedBy-keep :
    (name : String) (p : Row → Bool) (rows : Ledger)
    → OwnedBy name rows
    → OwnedBy name (keep p rows)
OwnedBy-keep name p [] h = tt
OwnedBy-keep name p (r ∷ rs) h = ground (arith, OwnedBy-keep name p rs h.1)

-- A runtime that opens the ledger raises where some row is tagged with another instance. Otherwise it
-- replaces the row with the candidate's identifier by one that holds the candidate under its own tag,
-- keeps the others, and every row is again untagged or its own.
pub remember_guarded :
    (rt : Runtime) (now : ℕ) (prop : Propositio) (ledger : Ledger)
    → rt.connected ≡ false
    → ((remember rt now prop ledger ≡ raised) × (¬ OwnedBy rt.instance_name ledger))
      ⊎ (OwnedBy rt.instance_name ledger
          × ((row : Row) × (row.pid ≡ prop.pid)
              × (row.statement ≡ prop.enuntiatio.statement)
              × (row.instance_name ≡ some rt.instance_name)
              × (remember rt now prop ledger
                  ≡ returned (
                    record rt { connected = true },
                    keep (λ (r : Row). not (str_eq r.pid prop.pid)) ledger ++ row ∷ [],
                  ))
              × OwnedBy rt.instance_name
                  (keep (λ (r : Row). not (str_eq r.pid prop.pid)) ledger ++ row ∷ [])))
unfolding remember open_db upsert to_row
remember_guarded rt now prop ledger fresh =
    elim (Bool-cases (any (foreign rt.instance_name) ledger)) [
      | inl taken ↦
          inl (ground arith, λ owned. cc (taken, (any-foreign rt.instance_name ledger).1 owned))
      | inr free ↦
          let owned = (any-foreign rt.instance_name ledger).0 free in
          inr (
            owned,
            (
              to_row rt.instance_name now prop,
              refl,
              refl,
              refl,
              ground arith,
              OwnedBy-append rt.instance_name _ (to_row rt.instance_name now prop)
                  (OwnedBy-keep rt.instance_name _ ledger owned) refl,
            ),
          )
    ]

-- The barrier is read once, when the connection is opened. Two instances that opened one empty
-- ledger both write to it, and its rows are then of both.
pub barrier_misses_second_opener :
    (first second : String) (now : ℕ) (a b : Propositio)
    → first ≢ second
    → a.pid ≢ b.pid
    → let open' =
        λ (name : String). open_db (record { instance_name = name; connected = false }) [] in
      let one : Runtime = record { instance_name = first; connected = true } in
      let two : Runtime = record { instance_name = second; connected = true } in
      (open' first ≡ returned one)
      × (open' second ≡ returned two)
      × (remember two now b (upsert (to_row first now a) [])
          ≡ returned (two, to_row first now a ∷ to_row second now b ∷ []))
      × (foreign second (to_row first now a) ≡ true)
unfolding remember open_db upsert to_row foreign
barrier_misses_second_opener first second now a b ne pids =
    (refl, refl, ground (arith, eq_iff a.pid b.pid), ground (arith, eq_iff first second))
