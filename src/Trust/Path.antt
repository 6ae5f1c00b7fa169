-- ===== src/Trust/Path.antt =====
-- What a promotion path is, said without the code: which edges are admissible, and what a path
-- must hold.
use leibniz_daemon.Common.{
  String, true, false, not, ◌&&◌, ◌≡◌, refl, ◌≢◌, ◌↔◌, ◌⊎◌, inl, Option, none, some, List, [], ◌∷◌,
  arith, eq_iff, any, All, returned,
}
use leibniz_daemon.Types.{EdgeEvidence, mechanical, judged, pass, is_mechanical, is_judged}
use leibniz_daemon.Trust.{
  proof_edge, novelty_edge, faithfulness_edge, kernel_producer, judge_producer, is_admitted,
  on_edge, not_kernel, from_judge, not_admitted, validate_edge, validate_edges, validate_path,
}

abbrev pub KernelOrUnstamped : Option String → Type 0
KernelOrUnstamped p = (p ≡ none) ⊎ (p ≡ some kernel_producer)

abbrev pub AdmittedOrUnstamped : Option String → Type 0
AdmittedOrUnstamped p = (p ≡ none) ⊎ ((q : String) × (p ≡ some q) × (is_admitted q ≡ true))

-- A proof edge is mechanical and the kernel's; novelty is not judged; a judge's verdict is tagged
-- as judged; a mechanical faithfulness edge has an admitted producer.
pub record IsAdmissible (ev : EdgeEvidence) : Type 0 where
  pub proof_tier : ev.edge ≡ proof_edge → ev.tier ≡ mechanical
  pub novelty_tier : ev.edge ≡ novelty_edge → ev.tier ≢ judged
  pub proof_producer : ev.edge ≡ proof_edge → KernelOrUnstamped ev.producer
  pub judge_tier : ev.producer ≡ some judge_producer → ev.tier ≡ judged
  pub faithfulness_producer :
      ev.edge ≡ faithfulness_edge → ev.tier ≡ mechanical → AdmittedOrUnstamped ev.producer

abbrev pub Has : String → List EdgeEvidence → Type 0
Has name [] = ⊥
Has name (e ∷ edges) = (e.edge ≡ name) ⊎ Has name edges

pub record IsPromotionPath (edges : List EdgeEvidence) : Type 0 where
  pub has_proof : Has proof_edge edges
  pub has_faithfulness : Has faithfulness_edge edges
  pub passed : All (λ (e : EdgeEvidence). IsAdmissible e × (e.verdict ≡ pass)) edges

pub on_edge_iff : (name : String) (e : EdgeEvidence) → (on_edge name e ≡ true) ↔ (e.edge ≡ name)
unfolding on_edge
on_edge_iff name e = eq_iff e.edge name

pub any-on_edge :
    (name : String) (edges : List EdgeEvidence) → (any (on_edge name) edges ≡ true) ↔ Has name edges
any-on_edge name [] = ((λ h. cc h), λ h. absurd h)
any-on_edge name (e ∷ edges) = ground (arith, on_edge_iff name e, any-on_edge name edges)

not_kernel_iff : (p : Option String) → (not_kernel p ≡ false) ↔ KernelOrUnstamped p
unfolding not_kernel
not_kernel_iff none = ground arith
not_kernel_iff (some q) = ground (arith, eq_iff q kernel_producer)

from_judge_iff : (p : Option String) → (from_judge p ≡ true) ↔ (p ≡ some judge_producer)
unfolding from_judge
from_judge_iff none = ground arith
from_judge_iff (some q) = ground (arith, eq_iff judge_producer q)

not_admitted_iff : (p : Option String) → (not_admitted p ≡ false) ↔ AdmittedOrUnstamped p
unfolding not_admitted
not_admitted_iff none = ((λ _. inl refl), λ _. refl)
not_admitted_iff (some q) = ground arith

module _ (ev : EdgeEvidence) where
  -- None of the five tests fires.
  abbrev Quiet : Type 0
  Quiet =
      ((on_edge proof_edge ev && not (is_mechanical ev.tier)) ≡ false)
      × ((on_edge novelty_edge ev && is_judged ev.tier) ≡ false)
      × ((on_edge proof_edge ev && not_kernel ev.producer) ≡ false)
      × ((not (is_judged ev.tier) && from_judge ev.producer) ≡ false)
      × ((on_edge faithfulness_edge ev && is_mechanical ev.tier && not_admitted ev.producer)
          ≡ false)

  validate_edge-Quiet : (validate_edge ev ≡ returned tt) ↔ Quiet
  unfolding validate_edge
  validate_edge-Quiet = ground arith

  Quiet-IsAdmissible : Quiet → IsAdmissible ev
  Quiet-IsAdmissible q = record {
    proof_tier = ground (arith, on_edge_iff proof_edge ev);
    novelty_tier = ground (arith, on_edge_iff novelty_edge ev);
    proof_producer = ground (arith, on_edge_iff proof_edge ev, not_kernel_iff ev.producer);
    judge_tier = ground (arith, from_judge_iff ev.producer);
    faithfulness_producer =
        ground (arith, on_edge_iff faithfulness_edge ev, not_admitted_iff ev.producer);
  }

  IsAdmissible-Quiet : IsAdmissible ev → Quiet
  IsAdmissible-Quiet a = (
    ground (arith, on_edge_iff proof_edge ev, a.proof_tier),
    ground (arith, on_edge_iff novelty_edge ev, a.novelty_tier),
    ground (arith, on_edge_iff proof_edge ev, not_kernel_iff ev.producer, a.proof_producer),
    ground (arith, from_judge_iff ev.producer, a.judge_tier),
    ground (
      arith,
      on_edge_iff faithfulness_edge ev,
      not_admitted_iff ev.producer,
      a.faithfulness_producer,
    ),
  )

  -- `validate_edge` raises nothing exactly on the admissible edges.
  pub validate_edge_iff : (validate_edge ev ≡ returned tt) ↔ IsAdmissible ev
  validate_edge_iff = (
    (λ h. Quiet-IsAdmissible (validate_edge-Quiet.0 h)),
    λ a. validate_edge-Quiet.1 (IsAdmissible-Quiet a),
  )

-- A `Unit` result is `raised` or `returned tt`.
validate_edges_iff :
    (edges : List EdgeEvidence)
    → (validate_edges edges ≡ returned tt)
      ↔ All (λ (e : EdgeEvidence). IsAdmissible e × (e.verdict ≡ pass)) edges
unfolding validate_edges
validate_edges_iff [] = ((λ _. tt), λ _. refl)
validate_edges_iff (e ∷ edges) = ground (arith, validate_edge_iff e, validate_edges_iff edges)

-- `validate_path` raises nothing exactly on the paths that hold a proof and a faithfulness edge and
-- whose every edge passed and is admissible: a proof edge is mechanical and the kernel's, a novelty
-- edge is not judged, a judge's verdict is tagged as judged, a mechanical faithfulness edge has an
-- admitted producer. A novelty edge may be adversarial, and an edge of any other name may have any
-- tier.
pub validate_path_iff :
    (edges : List EdgeEvidence) → (validate_path edges ≡ returned tt) ↔ IsPromotionPath edges
unfolding validate_path
validate_path_iff edges = ground (
  arith,
  any-on_edge proof_edge edges,
  any-on_edge faithfulness_edge edges,
  validate_edges_iff edges,
)
