-- ===== src/Consensus/Votes.antt =====
-- A consensus PASS counts independent provers, each with a proof that the kernel accepted.
use leibniz_daemon.Common.{
  String, true, false, ◌≡◌, refl, ◌⊎◌, inl, inr, Option, none, some, List, [], ◌∷◌, map, arith,
  contains, All, Outcome-cases, returned, subst, eq_iff,
}
use leibniz_daemon.Types.{EdgeEvidence, proof_draft}
use leibniz_daemon.Trust.{proof_edge}
use leibniz_daemon.Trust.Path.{IsAdmissible}
use leibniz_daemon.Propositio.{Expressio, Demonstratio, new_demonstratio}
use leibniz_daemon.Verifiers.{discharge}
use leibniz_daemon.Verifiers.Discharge.{KernelAccepts, discharge_exact}
use leibniz_daemon.Consensus.Normalize.{normalize_proof}
use leibniz_daemon.Consensus.{
  Prover, ProofConsensus, found, draft, prover_context, prover_identity, attempt, if_verified,
  verified, identity_of, distinct,
}

abbrev pub AllDistinct : List String → Type 0
AllDistinct [] = Unit
AllDistinct (x ∷ xs) = (contains xs x ≡ false) × AllDistinct xs

pub distinct-AllDistinct : (xs : List String) → AllDistinct (distinct xs)
unfolding distinct
distinct-AllDistinct [] = tt
distinct-AllDistinct (x ∷ xs) = ground (arith, distinct-AllDistinct xs)

pub All-distinct : (P : String → Type 0) (xs : List String) → All P xs → All P (distinct xs)
unfolding distinct
All-distinct P [] h = tt
All-distinct P (x ∷ xs) h = ground (arith, All-distinct P xs h.1)

abbrev pub AmongProvers : Prover → List Prover → Type 0
AmongProvers p [] = ⊥
AmongProvers p (q ∷ qs) = (p ≡ q) ⊎ AmongProvers p qs

-- The prover answered the statement, with its hints, and the kernel accepts the proof that it drafted.
pub record Proved (c : ProofConsensus) (expr : Expressio) (p : Prover) : Type 0 where
  pub raw : String
  pub drafted : draft p proof_draft (prover_context expr) ≡ returned raw
  pub accepted :
      KernelAccepts c.lean expr (new_demonstratio c.obligation (some (normalize_proof c.lower raw)))

stamp_passes :
    (r : Demonstratio × EdgeEvidence) (x : Demonstratio × EdgeEvidence)
    → if_verified r ≡ some x
    → r.0.kernel_verified ≡ true
stamp_passes r x e = ground arith

attempt-Proved :
    (c : ProofConsensus) (expr : Expressio) (p : Prover) (x : Demonstratio × EdgeEvidence)
    → attempt c expr p ≡ some x
    → Proved c expr p
unfolding attempt
attempt-Proved c expr p x e = elim (Outcome-cases (draft p proof_draft (prover_context expr))) [
  | inl lost ↦ absurd (cc (rw (lost, attempt) at e))
  | inr (raw, said) ↦
      let fresh = new_demonstratio c.obligation (some (normalize_proof c.lower raw)) in
      record {
        raw = raw;
        drafted = said;
        accepted =
            (discharge_exact c.lean expr fresh).0.0
              (stamp_passes (discharge c.lean expr fresh) x (rw (said, attempt) at e));
      }
]

Proved-attempt :
    (c : ProofConsensus) (expr : Expressio) (p : Prover)
    → Proved c expr p
    → (x : Demonstratio × EdgeEvidence) × (attempt c expr p ≡ some x)
unfolding attempt
Proved-attempt c expr p h =
    let fresh = new_demonstratio c.obligation (some (normalize_proof c.lower h.raw)) in
    let stamped = (discharge_exact c.lean expr fresh).0.1 h.accepted in
    (discharge c.lean expr fresh, rw (h.drafted, attempt) (rw stamped refl))

abbrev pub ProvedBy : ProofConsensus → Expressio → List Prover → String → Type 0
ProvedBy c expr ps id =
    (p : Prover) × AmongProvers p ps × (prover_identity p ≡ id) × Proved c expr p

widen :
    (c : ProofConsensus) (expr : Expressio) (q : Prover) (ps : List Prover) (ids : List String)
    → All (ProvedBy c expr ps) ids
    → All (ProvedBy c expr (q ∷ ps)) ids
widen c expr q ps [] h = tt
widen c expr q ps (id ∷ ids) ((p, at, same, won), h) =
    ((p, inr at, same, won), widen c expr q ps ids h)

vote :
    (c : ProofConsensus) (expr : Expressio) (p : Prover) (ps : List Prover)
    (o : Option (Demonstratio × EdgeEvidence))
    → attempt c expr p ≡ o
    → All (ProvedBy c expr ps) (map identity_of (verified c expr ps))
    → All (ProvedBy c expr (p ∷ ps)) (map identity_of (found p o (verified c expr ps)))
vote c expr p ps none e h = widen c expr p ps _ h
vote c expr p ps (some (demo, ev)) e h =
    ((p, inl refl, refl, attempt-Proved c expr p (demo, ev) e), widen c expr p ps _ h)

pub voters :
    (c : ProofConsensus) (expr : Expressio) (ps : List Prover)
    → All (ProvedBy c expr ps) (map identity_of (verified c expr ps))
unfolding verified
voters c expr [] = tt
voters c expr (p ∷ ps) = vote c expr p ps (attempt c expr p) refl (voters c expr ps)

pub contains-distinct :
    (xs : List String) (x : String) → contains xs x ≡ true → contains (distinct xs) x ≡ true
unfolding distinct
contains-distinct [] x h = h
contains-distinct (y ∷ xs) x h = ground (arith, contains-distinct xs x, eq_iff y x)

counted_first :
    (c : ProofConsensus) (expr : Expressio) (p : Prover) (ps : List Prover)
    (o : Option (Demonstratio × EdgeEvidence)) (x : Demonstratio × EdgeEvidence)
    → o ≡ some x
    → contains (map identity_of (found p o (verified c expr ps))) (prover_identity p) ≡ true
counted_first c expr p ps none x e = cc e
counted_first c expr p ps (some (demo, ev)) x e =
    ground (arith, eq_iff (prover_identity p) (prover_identity p))

counted_later :
    (c : ProofConsensus) (expr : Expressio) (q : Prover) (ps : List Prover)
    (o : Option (Demonstratio × EdgeEvidence)) (id : String)
    → contains (map identity_of (verified c expr ps)) id ≡ true
    → contains (map identity_of (found q o (verified c expr ps))) id ≡ true
counted_later c expr q ps none id h = h
counted_later c expr q ps (some (demo, ev)) id h = ground arith

-- Every prover that proved has its vote.
pub voted :
    (c : ProofConsensus) (expr : Expressio) (p : Prover) (ps : List Prover)
    → AmongProvers p ps
    → Proved c expr p
    → contains (map identity_of (verified c expr ps)) (prover_identity p) ≡ true
unfolding verified
voted c expr p [] at h = absurd at
voted c expr p (q ∷ ps) (inl same) h =
    let (x, e) = Proved-attempt c expr p h in
    subst
      (λ r.
        contains (map identity_of (found r (attempt c expr r) (verified c expr ps)))
          (prover_identity p)
        ≡ true)
      same (counted_first c expr p ps (attempt c expr p) x e)
voted c expr p (q ∷ ps) (inr at) h =
    counted_later c expr q ps (attempt c expr q) (prover_identity p) (voted c expr p ps at h)

-- The demonstration is the stamped result of a proof that the kernel accepts.
pub record IsStamped (c : ProofConsensus) (expr : Expressio) (demo : Demonstratio)
    (ev : EdgeEvidence) : Type 0 where
  pub draft_text : String
  pub accepted : KernelAccepts c.lean expr (new_demonstratio c.obligation (some draft_text))
  pub proof : demo.proof_src ≡ some draft_text
  pub stamp : demo.kernel_verified ≡ true
  pub seal : demo.qed ≡ "Q.E.D."
  pub is_kernel : IsAdmissible ev
  pub at : ev.edge ≡ proof_edge

checked_draft :
    (c : ProofConsensus) (expr : Expressio) (s : String) (demo : Demonstratio) (ev : EdgeEvidence)
    → if_verified (discharge c.lean expr (new_demonstratio c.obligation (some s))) ≡ some (demo, ev)
    → IsStamped c expr demo ev
checked_draft c expr s demo ev e =
    let fresh = new_demonstratio c.obligation (some s) in
    let facts = discharge_exact c.lean expr fresh in
    let r = discharge c.lean expr fresh in
    let stamped : r.0.kernel_verified ≡ true = ground arith in
    let same : r ≡ (demo, ev) = ground arith in
    let accepted = facts.0.0 stamped in
    subst (λ (x : Demonstratio × EdgeEvidence). IsStamped c expr x.0 x.1) same
      (record {
        draft_text = s;
        accepted = accepted;
        proof = facts.5;
        stamp = stamped;
        seal = facts.1.1 accepted;
        is_kernel = facts.3;
        at = facts.4;
      })

-- An attempt that counts is a draft that the kernel stamped.
pub attempt-IsStamped :
    (c : ProofConsensus) (expr : Expressio) (p : Prover) (demo : Demonstratio) (ev : EdgeEvidence)
    → attempt c expr p ≡ some (demo, ev)
    → IsStamped c expr demo ev
unfolding attempt
attempt-IsStamped c expr p demo ev e =
    elim (Outcome-cases (draft p proof_draft (prover_context expr))) [
      | inl lost ↦ absurd (ground arith)
      | inr (raw, said) ↦ checked_draft c expr (normalize_proof c.lower raw) demo ev (ground arith)
    ]
