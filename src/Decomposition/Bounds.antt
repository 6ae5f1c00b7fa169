-- ===== src/Decomposition/Bounds.antt =====
-- How much a decomposition asks of the ensemble.
use leibniz_daemon.Common.{
  ℕ, zero, suc, ◌+◌, ◌≤◌, String, ◌≡◌, refl, inl, inr, Option, none, some, List, [], ◌∷◌, arith,
  length, take, Dict, Outcome, raised, returned, Option-cases,
}
use leibniz_daemon.Types.{Item}
use leibniz_daemon.Propositio.{Expressio}
use leibniz_daemon.Consensus.{prove as prove_by_consensus}
use leibniz_daemon.Decomposition.{
  DecompositionStats, LemmaDecomposer, usable, usable_proof, sub_lemma, prove_lemmas, compose,
  with_plan, plan_of, decompose_and_prove,
}

length-take : {A : Type 0} (n : ℕ) (xs : List A) → length (take n xs) ≤ n
length-take zero xs = omega arith
length-take (suc n) [] = omega arith
length-take (suc n) (x ∷ xs) = omega (arith, length-take n xs)

-- At most `n` more lemmas proposed, no more proved than proposed, nothing else counted.
record Spends (n : ℕ) (before after : DecompositionStats) : Type 0 where
  pub few : after.lemmas_proposed ≤ before.lemmas_proposed + n
  pub proven :
      after.lemmas_proven + before.lemmas_proposed ≤ before.lemmas_proven + after.lemmas_proposed
  pub composed : after.composed_attempts ≡ before.composed_attempts
  pub attempted : after.attempted ≡ before.attempted

module _ (d : LemmaDecomposer) (expr : Expressio) where
  prove_lemmas-Spends :
      (lems : List (Option (Dict Item))) (stats : DecompositionStats)
      → Spends (length lems) stats (prove_lemmas d expr lems stats).0
  unfolding prove_lemmas
  prove_lemmas-Spends [] stats = record {
    few = omega arith;
    proven = omega arith;
    composed = refl;
    attempted = refl;
  }
  prove_lemmas-Spends (lem ∷ lems) stats = elim (Option-cases (usable d lem)) [
    | inl skipped ↦ rw (skipped, prove_lemmas) (widen (prove_lemmas-Spends lems stats))
    | inr (r, e) ↦
        elim (Option-cases
          (usable_proof (prove_by_consensus d.consensus (sub_lemma expr r.0 r.1)))) [
            | inl unproved ↦
                rw (e, unproved, prove_lemmas)
                  (asked (
                    prove_lemmas-Spends lems
                      (record stats { lemmas_proposed = stats.lemmas_proposed + 1 })))
            | inr (proof, won) ↦
                rw (e, won, prove_lemmas)
                  (proved (
                    prove_lemmas-Spends lems (record stats {
                      lemmas_proposed = stats.lemmas_proposed + 1;
                      lemmas_proven = stats.lemmas_proven + 1;
                    })))
          ]
  ]
    where
      widen :
          {after : DecompositionStats}
          → Spends (length lems) stats after
          → Spends (suc (length lems)) stats after
      widen h = record {
        few = omega (arith, h.few);
        proven = h.proven;
        composed = h.composed;
        attempted = h.attempted;
      }

      asked :
          {after : DecompositionStats}
          → Spends
              (length lems)
              (record stats { lemmas_proposed = stats.lemmas_proposed + 1 })
              after
          → Spends (suc (length lems)) stats after
      asked h = record {
        few = omega (arith, h.few);
        proven = omega (arith, h.proven);
        composed = h.composed;
        attempted = h.attempted;
      }

      proved :
          {after : DecompositionStats}
          → Spends
              (length lems)
              (record stats {
                lemmas_proposed = stats.lemmas_proposed + 1;
                lemmas_proven = stats.lemmas_proven + 1;
              })
              after
          → Spends (suc (length lems)) stats after
      proved h = record {
        few = omega (arith, h.few);
        proven = omega (arith, h.proven);
        composed = h.composed;
        attempted = h.attempted;
      }

  -- The bounds of a whole call.
  abbrev WithinPlan : DecompositionStats → DecompositionStats → Type 0
  WithinPlan before after =
      (after.lemmas_proposed ≤ before.lemmas_proposed + d.max_lemmas)
      × (after.lemmas_proven + before.lemmas_proposed
          ≤ before.lemmas_proven + after.lemmas_proposed)
      × (after.composed_attempts ≤ before.composed_attempts + 1)
      × (after.attempted ≡ before.attempted)

  compose_bounds :
      (before : DecompositionStats) (r : DecompositionStats × List String)
      → Spends d.max_lemmas before r.0
      → WithinPlan before (compose d expr r).0
  unfolding compose
  compose_bounds before (stats, []) h = (h.few, h.proven, omega (arith, h.composed), h.attempted)
  compose_bounds before (stats, have ∷ haves) h =
      (h.few, h.proven, omega (arith, h.composed), h.attempted)

  with_plan_bounds :
      (plan : Outcome (Option (List (Option (Dict Item))))) (stats : DecompositionStats)
      → WithinPlan stats (with_plan d expr plan stats).0
  unfolding with_plan
  with_plan_bounds raised stats = (omega arith, omega arith, omega arith, refl)
  with_plan_bounds (returned none) stats = (omega arith, omega arith, omega arith, refl)
  with_plan_bounds (returned (some lems)) stats =
      let spent =
        prove_lemmas-Spends (take d.max_lemmas lems)
          (record stats { planned = stats.planned + 1 }) in
      compose_bounds stats _ (record {
        few = omega (arith, spent.few, length-take d.max_lemmas lems);
        proven = spent.proven;
        composed = spent.composed;
        attempted = spent.attempted;
      })

-- Each call proposes at most `max_lemmas` lemmas, proves no more than it proposes, attempts the
-- statement itself at most once, and is counted.
pub decompose_and_prove_bounds :
    (d : LemmaDecomposer) (stats : DecompositionStats) (expr : Expressio)
    → let after = (decompose_and_prove d stats expr).0 in
      (after.lemmas_proposed ≤ stats.lemmas_proposed + d.max_lemmas)
      × (after.lemmas_proven + stats.lemmas_proposed ≤ stats.lemmas_proven + after.lemmas_proposed)
      × (after.composed_attempts ≤ stats.composed_attempts + 1)
      × (after.attempted ≡ stats.attempted + 1)
unfolding decompose_and_prove
decompose_and_prove_bounds d stats expr =
    let counted = record stats { attempted = stats.attempted + 1 } in
    elim (Option-cases (plan_of d expr)) [
      | inl empty ↦ rw (empty, decompose_and_prove) (omega arith, omega arith, omega arith, refl)
      | inr (plan, e) ↦ rw (e, decompose_and_prove) (with_plan_bounds d expr plan counted)
    ]
