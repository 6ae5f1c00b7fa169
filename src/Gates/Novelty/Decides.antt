-- ===== src/Gates/Novelty/Decides.antt =====
-- The novelty gate passes exactly the candidates that fail none of its four tests, and its second
-- run decides as its first.
use leibniz_daemon.Common.{true, ◌≡◌, ◌≢◌, ◌↔◌, ◌⊎◌, none, some, arith}
use leibniz_daemon.Types.{ClaimSignature, trivial, known, pass, fail, mechanical}
use leibniz_daemon.Trust.{novelty_edge}
use leibniz_daemon.Propositio.{Propositio, Expressio, quarantine}
use leibniz_daemon.Verifiers.{is_trivial}
use leibniz_daemon.Gates.Novelty.{
  NoveltyGate, structural_match, check_with, known_signature, revalidate,
}

-- Vacuous: true for every value of the variables, or closed by a tactic.
abbrev pub IsVacuous : NoveltyGate → Propositio → Expressio → Type 0
IsVacuous g prop expr =
    (g.is_coefficient_degenerate prop.enuntiatio.claim_property ≡ true)
    ⊎ (is_trivial g.lean expr ≡ true)

-- Known to the corpus, by signature or by the structure of the claim.
abbrev pub IsKnown : NoveltyGate → Propositio → ClaimSignature → Type 0
IsKnown g prop sig =
    (g.corpus.contains_equivalent sig ≡ true)
    ⊎ (structural_match g.corpus prop.enuntiatio.claim_property ≢ none)

-- The three outcomes of the gate: vacuous statements are quarantined TRIVIAL; known ones that are
-- not vacuous KNOWN; and all others, and no more, pass and are left as they were.
pub check_with_decides :
    (g : NoveltyGate) (prop : Propositio) (expr : Expressio) (sig : ClaimSignature)
    → let (after, ev) = check_with g prop expr sig in
      (IsVacuous g prop expr → (ev.verdict ≡ fail) × (after ≡ quarantine trivial prop))
      × (¬ IsVacuous g prop expr
          → IsKnown g prop sig
          → (ev.verdict ≡ fail) × (after ≡ quarantine known prop))
      × ((ev.verdict ≡ pass) ↔ (¬ IsVacuous g prop expr × ¬ IsKnown g prop sig))
      × ((ev.verdict ≡ pass) → after ≡ prop)
      × (ev.edge ≡ novelty_edge)
      × (ev.tier ≡ mechanical)
unfolding check_with
check_with_decides g prop expr sig = ground arith

-- On a statement that has not changed, `revalidate` returns nothing exactly where `check` passes,
-- and it leaves the candidate as `check` does.
pub revalidate-check :
    (g : NoveltyGate) (prop : Propositio) (expr : Expressio) (sig : ClaimSignature)
    → prop.expressio ≡ some expr
    → prop.signature ≡ some sig
    → ((revalidate g prop).1 ≡ none ↔ (check_with g prop expr sig).1.verdict ≡ pass)
      × ((revalidate g prop).0 ≡ (check_with g prop expr sig).0)
unfolding check_with revalidate known_signature
revalidate-check g prop expr sig has_expr has_sig = ground arith
