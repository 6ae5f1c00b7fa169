-- ===== src/Tests/Records.antt =====
-- The records that outlive a run: the budget, the ledger, the Codex, the archive and the notebook.
use leibniz_daemon.Common.{
  ◌+◌, keep, not, str_eq, ◌++◌, ℕ, zero, suc, String, true, false, ◌≡◌, refl, ◌≢◌, ◌↔◌, ◌⊎◌, none,
  some, List, [], ◌∷◌, All, Dict, lookup, insert, returned, raised, arith, ne_of_test,
}
use leibniz_daemon.Types.{EdgeEvidence, known}
use leibniz_daemon.Trust.{is_judged_faithfulness, on_edge, admits_judged_faithfulness}
use leibniz_daemon.Propositio.{Propositio, Demonstratio}
use leibniz_daemon.Budget.{try_admit}
use leibniz_daemon.Budget.Bound.{
  History, Keeps, IsJudged, Exceeds, admit_all-WithinBudget, try_admit_refuses,
}
use leibniz_daemon.Runtime.{Row, Runtime, remember, to_row, row_to_prop, foreign, open_db, upsert}
use leibniz_daemon.Runtime.RoundTrip.{IsReplay, row_to_prop-to_row}
use leibniz_daemon.Runtime.Barrier.{OwnedBy, remember_guarded, barrier_misses_second_opener}
use leibniz_daemon.Calculemus.{Calculemus, promulgate, publish, add}
use leibniz_daemon.Calculemus.Publication.{
  IsSound, promulgates, publishes, here, next, publish_exact, Reach-IsSound, empty-IsSound,
}
use leibniz_daemon.Selection.{cell_of, coordinate, consider, elite_at, place}
use leibniz_daemon.Selection.Elitism.{held, best, consider_all, consider_all-best}
use leibniz_daemon.Notebook.{Notebook, record_outcome, note_family}
use leibniz_daemon.Notebook.Bounds.{WithinCapacity, record_outcome-WithinCapacity}
use leibniz_daemon.Notebook.Eviction.{Twice, note_family-loses_new}
use Prim.Native.String.{◌++◌ as str_append}
use leibniz_daemon.Tests.Data.{candidate, fresh, judged_edge, budget, closed, archive, notebook}

-- 6 laws without a judge, then 2 judged ones, of which the second is refused.
abbrev calls : List (List EdgeEvidence)
calls = [] ∷ [] ∷ [] ∷ [] ∷ [] ∷ [] ∷ (judged_edge ∷ []) ∷ (judged_edge ∷ []) ∷ []

second_refused : (try_admit (record budget { judged = 1; total = 7 }) (judged_edge ∷ [])).1 ≡ false
unfolding try_admit is_judged_faithfulness on_edge admits_judged_faithfulness
second_refused = refl

admit_all-WithinBudget_example : (j : ℕ) × (t : ℕ) × History budget calls j t × Keeps budget j t
admit_all-WithinBudget_example = admit_all-WithinBudget budget calls (omega arith)

try_admit_refuses_example :
    let (after, ok) = try_admit budget (judged_edge ∷ []) in
    ((ok ≡ false) ↔ (IsJudged (judged_edge ∷ []) × Exceeds budget))
    × (ok ≡ false → after ≡ budget)
    × (ok ≡ true
        → IsJudged (judged_edge ∷ [])
        → after ≡ record budget { judged = budget.judged + 1; total = budget.total + 1 })
    × (ok ≡ true
        → ¬ IsJudged (judged_edge ∷ [])
        → after ≡ record budget { total = budget.total + 1 })
try_admit_refuses_example = try_admit_refuses budget (judged_edge ∷ [])

row_to_prop-to_row_example :
    (back : Propositio) × (row_to_prop (to_row "dev" 9 candidate) ≡ returned back)
    × IsReplay candidate back
row_to_prop-to_row_example = row_to_prop-to_row "dev" 9 candidate

remember_guarded_example :
    ((remember closed 9 candidate [] ≡ raised) × (¬ OwnedBy "dev" []))
    ⊎ (OwnedBy "dev" []
        × ((row : Row) × (row.pid ≡ candidate.pid)
            × (row.statement ≡ candidate.enuntiatio.statement)
            × (row.instance_name ≡ some "dev")
            × (remember closed 9 candidate []
                ≡ returned (
                  record closed { connected = true },
                  keep (λ (r : Row). not (str_eq r.pid candidate.pid)) [] ++ row ∷ [],
                ))
            × OwnedBy "dev" (keep (λ (r : Row). not (str_eq r.pid candidate.pid)) [] ++ row ∷ [])))
remember_guarded_example = remember_guarded closed 9 candidate [] refl

abbrev open_as : String → Runtime
open_as name = record { instance_name = name; connected = true }

barrier_misses_second_opener_example :
    (open_db (record { instance_name = "prod"; connected = false }) [] ≡ returned (open_as "prod"))
    × (open_db (record { instance_name = "uat"; connected = false }) [] ≡ returned (open_as "uat"))
    × (remember (open_as "uat") 9 fresh (upsert (to_row "prod" 9 candidate) [])
        ≡ returned (open_as "uat", to_row "prod" 9 candidate ∷ to_row "uat" 9 fresh ∷ []))
    × (foreign "uat" (to_row "prod" 9 candidate) ≡ true)
barrier_misses_second_opener_example =
    barrier_misses_second_opener "prod" "uat" 9 candidate fresh (ne_of_test "prod" "uat" refl)
      (ne_of_test "p1" "p0" refl)

abbrev proof : Demonstratio
proof = record {
  proof_obligation = "claim";
  proof_src = some "by simp";
  kernel_verified = true;
  qed = "Q.E.D.";
}

abbrev theorem_p1 : Propositio
theorem_p1 = record candidate { promulgated = true; demonstratio = some proof }

abbrev admitted : Calculemus
admitted = record { codex = ("p1", theorem_p1) ∷ []; published = [] }

abbrev printed : Calculemus
printed = record admitted { published = "p1" ∷ [] }

abbrev production : String
production = "prod"

publish_exact_example :
    (production ≡ "prod")
    × (some production ≡ some "prod")
    × (printed.codex ≡ admitted.codex)
    × ((true ≡ true)
        → (true ≡ true)
          × (lookup "p1" admitted.codex ≢ none)
          × (printed.published ≡ add "p1" admitted.published))
    × ((true ≡ false)
        → (printed ≡ admitted) × ((true ≡ false) ⊎ (lookup "p1" admitted.codex ≡ none)))
unfolding publish add lookup
publish_exact_example =
    publish_exact production "p1" true (some production) admitted printed true refl

-- A law is admitted to the empty Codex and then published.
Reach-IsSound_example : IsSound printed
unfolding promulgate publish add lookup insert
Reach-IsSound_example = Reach-IsSound empty-IsSound (
    next (next here (promulgates theorem_p1))
      (publishes "prod" "p1" true (some "prod") printed true refl))

abbrev offers : List (Propositio × ℕ)
offers = (fresh, 400) ∷ (candidate, 550) ∷ (fresh, 500) ∷ []

best_is_kept : held (0 ∷ 0 ∷ 0 ∷ []) (consider_all archive offers) ≡ 551
unfolding consider cell_of coordinate elite_at place
best_is_kept = refl

consider_all-best_example :
    held (0 ∷ 0 ∷ 0 ∷ []) (consider_all archive offers)
    ≡ best archive (0 ∷ 0 ∷ 0 ∷ []) (held (0 ∷ 0 ∷ 0 ∷ []) archive) offers
consider_all-best_example = consider_all-best archive (0 ∷ 0 ∷ 0 ∷ []) offers

empty_notebook : WithinCapacity notebook
empty_notebook = record {
  proven = omega arith;
  too_hard = omega arith;
  avoid = omega arith;
  genre_kill = omega arith;
  dry_kill = omega arith;
  families = omega arith;
  dry_families = omega arith;
}

record_outcome-WithinCapacity_example :
    WithinCapacity (record_outcome notebook candidate (some known)).0
record_outcome-WithinCapacity_example =
    record_outcome-WithinCapacity notebook candidate (some known) empty_notebook

-- `n` families, each proved twice.
families : ℕ → String → Dict ℕ
families zero name = []
families (suc n) name = (name, 2) ∷ families n (str_append name "x")

families-Twice : (n : ℕ) (name : String) → All Twice (families n name)
unfolding families
families-Twice zero name = tt
families-Twice (suc n) name = (omega arith, families-Twice n (str_append name "x"))

abbrev full : Notebook
full = record notebook { family_counts = families 64 "f" }

note_family-loses_new_example : (note_family full "new" "a new family").1 ≡ raised
unfolding families lookup
note_family-loses_new_example =
    note_family-loses_new full "new" "a new family" refl (families-Twice 64 "f") refl
