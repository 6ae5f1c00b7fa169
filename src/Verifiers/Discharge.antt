-- ===== src/Verifiers/Discharge.antt =====
-- `discharge` stamps a proof exactly when the kernel accepts it, the footprint included.
use leibniz_daemon.Common.{
  String, Bool, true, ◌≡◌, refl, ◌≢◌, ◌↔◌, inr, Option, none, some, arith, eq_iff, ne_of_test, ap,
  sym, ◌∙◌,
}
use leibniz_daemon.Types.{EdgeEvidence, pass, mechanical}
use leibniz_daemon.Trust.{proof_edge, faithfulness_edge, kernel_producer, judge_producer}
use leibniz_daemon.Trust.Path.{IsAdmissible}
use leibniz_daemon.Propositio.{Expressio, Demonstratio}
use leibniz_daemon.Verifiers.{LeanBackend, footprint_ok, checked, confirmed, stamps, discharge}

-- A reporter is there, and reports the proof clean.
abbrev pub IsClean : LeanBackend → Expressio → String → Type 0
IsClean b expr proof =
    (probe : Expressio → String → Option Bool) × (b.independent_axiom_footprint ≡ some probe)
    × (probe expr proof ≡ some true)

-- There is a proof text; the backend enforces the axiom closure and accepts the proof; and where it
-- requires the independent footprint, a reporter is there and reports the proof clean.
pub record KernelAccepts (b : LeanBackend) (expr : Expressio) (demo : Demonstratio) : Type 0 where
  pub proof : String
  pub is_proof : demo.proof_src ≡ some proof
  pub nonempty : proof ≢ ""
  pub enforced : b.enforces_axiom_closure ≡ true
  pub accepted : b.check_proof expr proof ≡ true
  pub confirmed_clean : b.mint_requires_independent_check ≡ true → IsClean b expr proof

footprint_iff :
    (hook : Option (Expressio → String → Option Bool)) (expr : Expressio) (proof : String)
    → (footprint_ok hook expr proof ≡ true) ↔ (
        (probe : Expressio → String → Option Bool) × (hook ≡ some probe)
        × (probe expr proof ≡ some true))
footprint_iff none expr proof = ((λ h. cc), λ h. cc (h.1))
footprint_iff (some probe) expr proof = (
  (λ h. (probe, refl, ground arith)),
  λ h.
      let (other, e, clean) = h in
      ground (
        arith,
        ap (λ (o : Option (Expressio → String → Option Bool)). footprint_ok o expr proof) e,
      ),
)

accepts_text :
    (b : LeanBackend) (expr : Expressio) (p : Option String)
    → (checked b expr p ≡ true)
    → (confirmed b expr p ≡ true)
    → (proof : String) × (p ≡ some proof)
      × (proof ≢ "")
      × (b.enforces_axiom_closure ≡ true)
      × (b.check_proof expr proof ≡ true)
      × (b.mint_requires_independent_check ≡ true
          → footprint_ok b.independent_axiom_footprint expr proof ≡ true)
accepts_text b expr none c d = cc
accepts_text b expr (some proof) c d =
    (proof, refl, (λ e. ground (arith, eq_iff proof "")), ground arith, ground arith, ground arith)

pub stamps_iff :
    (b : LeanBackend) (expr : Expressio) (demo : Demonstratio)
    → (stamps b expr demo ≡ true) ↔ KernelAccepts b expr demo
unfolding stamps
stamps_iff b expr demo = (
  (λ h.
      let (proof, e, ne, enf, acc, clean) =
        accepts_text b expr demo.proof_src (ground arith) (ground arith) in
      record {
        proof = proof;
        is_proof = e;
        nonempty = ne;
        enforced = enf;
        accepted = acc;
        confirmed_clean = λ m. (footprint_iff b.independent_axiom_footprint expr proof).0 (clean m);
      }),
  λ h.
      let clean = λ (m : b.mint_requires_independent_check ≡ true).
        (footprint_iff b.independent_axiom_footprint expr h.proof).1 (h.confirmed_clean m) in
      rw (h.is_proof, checked, confirmed) (ground (arith, eq_iff h.proof "", h.nonempty, clean)),
)

-- A passed or failed edge of the kernel's is admissible.
pub kernel-IsAdmissible :
    (ev : EdgeEvidence)
    → ev.edge ≡ proof_edge
    → ev.tier ≡ mechanical
    → ev.producer ≡ some kernel_producer
    → IsAdmissible ev
kernel-IsAdmissible ev edge tier producer = record {
  proof_tier = λ _. tier;
  novelty_tier = λ _ judged'. cc (tier, judged');
  proof_producer = λ _. inr producer;
  judge_tier = λ p. absurd (ne_of_test kernel_producer judge_producer refl (cc (producer, p)));
  faithfulness_producer =
      λ f _. absurd (ne_of_test proof_edge faithfulness_edge refl (sym edge ∙ f));
}

-- `discharge` sets the stamp, seals Q.E.D. and passes the edge exactly when the kernel accepts. Its
-- edge is an admissible proof edge of the kernel's, and the proof and its obligation stay.
pub discharge_exact :
    (b : LeanBackend) (expr : Expressio) (demo : Demonstratio)
    → let (after, ev) = discharge b expr demo in
      ((after.kernel_verified ≡ true) ↔ KernelAccepts b expr demo)
      × ((after.qed ≡ "Q.E.D.") ↔ KernelAccepts b expr demo)
      × ((ev.verdict ≡ pass) ↔ KernelAccepts b expr demo)
      × IsAdmissible ev
      × (ev.edge ≡ proof_edge)
      × (after.proof_src ≡ demo.proof_src)
      × (after.proof_obligation ≡ demo.proof_obligation)
unfolding discharge
discharge_exact b expr demo =
    let (after, ev) = discharge b expr demo in
    (
      stamps_iff b expr demo,
      ground (arith, stamps_iff b expr demo, ne_of_test "Q.E.I." "Q.E.D." refl),
      ground (arith, stamps_iff b expr demo),
      kernel-IsAdmissible ev refl refl refl,
      refl,
      refl,
      refl,
    )
