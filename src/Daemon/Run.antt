-- ===== src/Daemon/Run.antt =====
-- The ledger's promulgated rows, through a whole run.
use leibniz_daemon.Common.{
  ℕ, String, Bool, true, false, ◌≡◌, refl, Option, none, some, List, [], ◌∷◌, All, arith, Outcome,
  raised, returned, Bool-cases, Outcome-cases, inl, inr, >>=-eq-returned, if◌then◌else◌, any,
}
use leibniz_daemon.Types.{Role, EdgeEvidence}
use leibniz_daemon.Propositio.{Propositio}
use leibniz_daemon.Budget.{TrustBudget}
use leibniz_daemon.Gates.Novelty.{revalidate}
use leibniz_daemon.Pipeline.{formalize, conjecture, derive, demonstrate, promulgate}
use leibniz_daemon.Consensus.{demonstrate as demonstrate_by_consensus}
use leibniz_daemon.Pipeline.Reasons.{Unpromoted, revalidate-Unpromoted, formalize-Unpromoted}
use leibniz_daemon.Daemon.{
  Leibniz, Prover, single, ensemble, State, settle, prove_and_settle, draw, attempt_seed, run_seed,
  run_seeds, or_errored, derive_with, prove_with, revalidated, promotion, by_decision,
  seed_origin_of, or_recorded,
}
use leibniz_daemon.Daemon.Promotions.{promotion-IsLaw}
use leibniz_daemon.Daemon.Rows.{IsQedRow, Honest, settle-rows}

derive_with-Unpromoted :
    (d : Leibniz) (prop after : Propositio)
    → derive_with d.prover d.provider prop ≡ returned after
    → Unpromoted prop
    → Unpromoted after
unfolding derive_with derive
derive_with-Unpromoted d prop after h u = derived d.prover refl
  where
    derived : (p : Prover) → d.prover ≡ p → Unpromoted after
    derived (ensemble c) e = ground arith
    derived (single lean) e = ground arith

prove_with-Unpromoted :
    (prover : Prover) (prop after : Propositio)
    → prove_with prover prop ≡ returned after
    → Unpromoted prop
    → Unpromoted after
unfolding prove_with demonstrate demonstrate_by_consensus
prove_with-Unpromoted (single lean) prop after h u = ground arith
prove_with-Unpromoted (ensemble c) prop after h u = ground arith

recorded-Unpromoted :
    (r : Propositio × Option EdgeEvidence) → Unpromoted r.0 → Unpromoted (or_recorded r)
recorded-Unpromoted (prop, none) u = u
recorded-Unpromoted (prop, some ev) u = u

revalidated-Unpromoted :
    (d : Leibniz) (prop : Propositio) → Unpromoted prop → Unpromoted (revalidated d prop)
unfolding revalidated
revalidated-Unpromoted d prop u = elim (Bool-cases (any by_decision prop.edges)) [
  | inr no' ↦ rw no' u
  | inl yes' ↦ rw yes' (
      recorded-Unpromoted (revalidate d.formalizer.novelty prop)
        (revalidate-Unpromoted d.formalizer.novelty prop u))
]

refused-Unpromoted :
    (d : Leibniz) (budget budget' : Option TrustBudget) (prop after : Propositio)
    → promotion d budget prop ≡ (budget', after, false)
    → Unpromoted prop
    → Unpromoted after
unfolding promotion
refused-Unpromoted d budget budget' prop after h u = ground arith

promulgate-Honest :
    (d : Leibniz) (budget : Option TrustBudget) (before proved : Propositio)
    (x : Option TrustBudget × Propositio × Bool)
    → prove_with d.prover before ≡ returned proved
    → Unpromoted proved
    → promotion d budget (revalidated d proved) ≡ x
    → Honest (promulgate x.1 x.2)
unfolding promulgate
promulgate-Honest d budget before proved (b, prop, true) stage u h said =
    let (_, q) = promotion-IsLaw d budget b before proved prop stage h in
    record { demo = q.demo; has_demo = q.has_demo; stamp = q.stamp; seal = q.seal }
promulgate-Honest d budget before proved (b, prop, false) stage u h said =
    let kept =
      refused-Unpromoted d budget b (revalidated d proved) prop h
        (revalidated-Unpromoted d proved u) in
    absurd (ground arith)

prove_and_settle-rows :
    (d : Leibniz) (survivor : Propositio) (s : State)
    → Unpromoted survivor
    → All IsQedRow s.ledger
    → All IsQedRow (prove_and_settle d survivor s).0.ledger
unfolding prove_and_settle
prove_and_settle-rows d survivor s u rows =
    elim (Outcome-cases (derive_with d.prover d.provider survivor)) [
      | inl e ↦ rw e rows
      | inr (derived, e) ↦ elim (Outcome-cases (prove_with d.prover derived)) [
        | inl e' ↦ rw (e, e') rows
        | inr (proved, e') ↦
            let up =
              prove_with-Unpromoted d.prover derived proved e'
                (derive_with-Unpromoted d survivor derived e u) in
            let honest =
              promulgate-Honest d s.budget derived proved
                (promotion d s.budget (revalidated d proved)) e' up refl in
            rw (e, e') (settle-rows d _ _ honest rows)
      ]
    ]

conjecture-Unpromoted :
    (d : Leibniz) (pid seed : String) (born : ℕ) (prop : Propositio)
    → conjecture d.os d.provider pid born seed ≡ returned prop
    → Unpromoted prop
unfolding conjecture
conjecture-Unpromoted d pid seed born prop h =
    let (draft, drafted, e) = >>=-eq-returned (d.provider.propose Role.conjecture seed) _ h in
    ground arith

attempt_seed-rows :
    (d : Leibniz) (seed : String) (s : State)
    → All IsQedRow s.ledger
    → All IsQedRow (attempt_seed d seed s).0.ledger
unfolding attempt_seed draw
attempt_seed-rows d seed s rows =
    elim (Outcome-cases (conjecture d.os d.provider (d.fresh s.clock) s.clock (d.steer s seed))) [
      | inl e ↦ rw e rows
      | inr (prop, e) ↦
          let fresh = conjecture-Unpromoted d (d.fresh s.clock) (d.steer s seed) s.clock prop e in
          let named = record prop { seed_origin = some (seed_origin_of seed) } in
          elim (Outcome-cases (formalize d.formalizer named)) [
            | inl e' ↦ rw (e, e') rows
            | inr (r, e') ↦
                rw (e, e')
                  (chosen r.1 r.0 _ (formalize-Unpromoted d.formalizer named r e' fresh) rows)
          ]
    ]
  where
    chosen :
        (survives : Bool) (q : Propositio) (t : State)
        → Unpromoted q
        → All IsQedRow t.ledger
        → All IsQedRow ((if survives then prove_and_settle d q else settle d q) t).0.ledger
    chosen true q t u h = prove_and_settle-rows d q t u h
    chosen false q t u h = settle-rows d q t (λ said. absurd (u said)) h

errored-rows :
    (r : State × Outcome (Unit {0})) → All IsQedRow r.0.ledger → All IsQedRow (or_errored r).ledger
errored-rows (t, returned _) h = h
errored-rows (t, raised) h = h

run_seed-rows :
    (d : Leibniz) (seed : String) (s : State)
    → All IsQedRow s.ledger
    → All IsQedRow (run_seed d seed s).ledger
unfolding run_seed
run_seed-rows d seed s rows = errored-rows (attempt_seed d seed s) (attempt_seed-rows d seed s rows)

-- Whatever the seeds, and whatever raises on the way: a ledger whose promulgated rows hold the kernel's
-- stamp and its Q.E.D. is again such a ledger after the run.
pub run_seeds-IsQedRow :
    (d : Leibniz) (seeds : List String) (s : State)
    → All IsQedRow s.ledger
    → All IsQedRow (run_seeds d seeds s).ledger
unfolding run_seeds
run_seeds-IsQedRow d [] s rows = rows
run_seeds-IsQedRow d (seed ∷ seeds) s rows =
    run_seeds-IsQedRow d seeds (run_seed d seed s) (run_seed-rows d seed s rows)
