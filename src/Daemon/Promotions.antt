-- ===== src/Daemon/Promotions.antt =====
-- What is promulgated was stamped by the kernel.
use leibniz_daemon.Common.{
  true, ◌≡◌, refl, Option, none, some, List, [], ◌∷◌, ◌++◌, All, any, arith, returned, Option-cases,
  Bool-cases, inl, inr, subst, sym, ◌∙◌, ap,
}
use leibniz_daemon.Types.{EdgeEvidence, pass}
use leibniz_daemon.Trust.{proof_edge}
use leibniz_daemon.Trust.Path.{IsAdmissible}
use leibniz_daemon.Propositio.{Propositio, Demonstratio}
use leibniz_daemon.Budget.{TrustBudget}
use leibniz_daemon.Verifiers.{LeanBackend, discharge}
use leibniz_daemon.Verifiers.Discharge.{discharge_exact}
use leibniz_daemon.Gates.Novelty.{NoveltyGate, revalidate}
use leibniz_daemon.Gates.Verification.{is_promotable}
use leibniz_daemon.Gates.Verification.Promotion.{IsPromotable, IsRequired, is_promotable_iff}
use leibniz_daemon.Consensus.{ProofConsensus, prove, demonstrate as demonstrate_by_consensus}
use leibniz_daemon.Consensus.Result.{proof-IsStamped, pass-proof, prove_counts_votes}
use leibniz_daemon.Pipeline.{demonstrate}
use leibniz_daemon.Daemon.{
  Leibniz, Prover, single, ensemble, prove_with, promotion, revalidated, by_decision, or_recorded,
}

-- A demonstration with the kernel's stamp and seal.
pub record IsQed (prop : Propositio) : Type 0 where
  pub demo : Demonstratio
  pub has_demo : prop.demonstratio ≡ some demo
  pub stamp : demo.kernel_verified ≡ true
  pub seal : demo.qed ≡ "Q.E.D."

-- The stage adds one proof edge, and where it passes the demonstration is stamped.
record IsProofStage (before after : Propositio) : Type 0 where
  ev : EdgeEvidence
  recorded : after.edges ≡ before.edges ++ ev ∷ []
  at : ev.edge ≡ proof_edge
  stamped : ev.verdict ≡ pass → IsQed after

single-IsProofStage :
    (lean : LeanBackend) (before after : Propositio)
    → demonstrate lean before ≡ returned after
    → IsProofStage before after
unfolding demonstrate
single-IsProofStage lean before after h = elim (Option-cases before.expressio) [
  | inl lacks ↦ absurd (ground arith)
  | inr (expr, has) ↦ elim (Option-cases before.demonstratio) [
    | inl undrafted ↦ absurd (ground arith)
    | inr (demo, drafted) ↦
        let r = discharge lean expr demo in
        let (stamp, seal, passes, _, at, _, _) = discharge_exact lean expr demo in
        let edges : after.edges ≡ before.edges ++ r.1 ∷ [] = ground arith in
        let proof : after.demonstratio ≡ some r.0 = ground arith in
        record {
          ev = r.1;
          recorded = edges;
          at = at;
          stamped = λ passed. record {
            demo = r.0;
            has_demo = proof;
            stamp = stamp.1 (passes.0 passed);
            seal = seal.1 (passes.0 passed);
          };
        }
  ]
]

ensemble-IsProofStage :
    (c : ProofConsensus) (before after : Propositio)
    → demonstrate_by_consensus c before ≡ returned after
    → IsProofStage before after
unfolding demonstrate_by_consensus
ensemble-IsProofStage c before after h = elim (Option-cases before.expressio) [
  | inl lacks ↦ absurd (ground arith)
  | inr (expr, has) ↦
      let (_, _, _, _, _, _, at) = prove_counts_votes c expr in
      record {
        ev = (prove c expr).edge;
        recorded = ground arith;
        at = at;
        stamped = λ passed.
            let (demo, got) = pass-proof c expr passed in
            let (_, (ev, st)) = proof-IsStamped c expr demo got in
            record { demo = demo; has_demo = ground arith; stamp = st.stamp; seal = st.seal };
      }
]

prove_with-IsProofStage :
    (prover : Prover) (before after : Propositio)
    → prove_with prover before ≡ returned after
    → IsProofStage before after
unfolding prove_with
prove_with-IsProofStage (single lean) before after h = single-IsProofStage lean before after h
prove_with-IsProofStage (ensemble c) before after h = ensemble-IsProofStage c before after h

All-append :
    (P : EdgeEvidence → Type 0) (xs ys : List EdgeEvidence) → All P (xs ++ ys) → All P xs × All P ys
All-append P [] ys h = (tt, h)
All-append P (x ∷ xs) ys h = let (rest, r) = All-append P xs ys h.1 in ((h.0, rest), r)

append-nil : (xs : List EdgeEvidence) → xs ≡ xs ++ []
append-nil [] = refl
append-nil (x ∷ xs) = ap (λ ys. x ∷ ys) (append-nil xs)

revalidate-keeps :
    (g : NoveltyGate) (prop : Propositio)
    → ((revalidate g prop).0.demonstratio ≡ prop.demonstratio)
      × ((revalidate g prop).0.edges ≡ prop.edges)
unfolding revalidate
revalidate-keeps g prop = ground arith

recorded-keeps :
    (r : Propositio × Option EdgeEvidence)
    → ((or_recorded r).demonstratio ≡ r.0.demonstratio)
      × ((more : List EdgeEvidence) × ((or_recorded r).edges ≡ r.0.edges ++ more))
recorded-keeps (prop, none) = (refl, ([], append-nil prop.edges))
recorded-keeps (prop, some ev) = (refl, (ev ∷ [], refl))

-- The second look at the novelty keeps the edges, or adds one, and keeps the demonstration.
revalidated-keeps :
    (d : Leibniz) (prop : Propositio)
    → ((revalidated d prop).demonstratio ≡ prop.demonstratio)
      × ((more : List EdgeEvidence) × ((revalidated d prop).edges ≡ prop.edges ++ more))
unfolding revalidated
revalidated-keeps d prop = elim (Bool-cases (any by_decision prop.edges)) [
  | inr no' ↦ rw no' (refl, ([], append-nil prop.edges))
  | inl yes' ↦
      let (demo, edges) = revalidate-keeps d.formalizer.novelty prop in
      let (demo', (more, edges')) = recorded-keeps (revalidate d.formalizer.novelty prop) in
      rw yes' (demo' ∙ demo, (more, edges' ∙ ap (λ xs. xs ++ more) edges))
]

-- With a passed proof edge, which a promotable candidate's is, the stage's stamp is there.
promotable-IsQed :
    (d : Leibniz) (before proved : Propositio)
    → IsProofStage before proved
    → IsPromotable d.law (revalidated d proved)
    → IsQed (revalidated d proved)
promotable-IsQed d before proved st p =
    let (demo, (more, edges)) = revalidated-keeps d proved in
    let Needed = λ (e : EdgeEvidence). IsRequired e → IsAdmissible e × (e.verdict ≡ pass) in
    let all' : All Needed ((before.edges ++ st.ev ∷ []) ++ more) =
      subst (All Needed) (edges ∙ ap (λ xs. xs ++ more) st.recorded) p.evidence in
    let (own, _) = All-append Needed (before.edges ++ st.ev ∷ []) more all' in
    let (_, (last, _)) = All-append Needed before.edges (st.ev ∷ []) own in
    let (_, passed) = last (inl st.at) in
    let q = st.stamped passed in
    record { demo = q.demo; has_demo = demo ∙ q.has_demo; stamp = q.stamp; seal = q.seal }

promotion-says :
    (d : Leibniz) (budget budget' : Option TrustBudget) (prop after : Propositio)
    → promotion d budget prop ≡ (budget', after, true)
    → (is_promotable d.law prop ≡ true) × (after ≡ prop)
unfolding promotion
promotion-says d budget budget' prop after h = ground arith

-- What the daemon promulgates after the proof stage, by one draft or by the ensemble, and after the
-- second look at its novelty, is promotable, and holds a demonstration with the kernel's stamp and
-- its Q.E.D.
pub promotion-IsLaw :
    (d : Leibniz) (budget budget' : Option TrustBudget) (before proved after : Propositio)
    → prove_with d.prover before ≡ returned proved
    → promotion d budget (revalidated d proved) ≡ (budget', after, true)
    → IsPromotable d.law after × IsQed after
promotion-IsLaw d budget budget' before proved after stage h =
    let (ok, same) = promotion-says d budget budget' (revalidated d proved) after h in
    let p = (is_promotable_iff d.law (revalidated d proved)).0 ok in
    let q =
      promotable-IsQed d before proved (prove_with-IsProofStage d.prover before proved stage) p in
    (subst (IsPromotable d.law) (sym same) p, subst IsQed (sym same) q)
