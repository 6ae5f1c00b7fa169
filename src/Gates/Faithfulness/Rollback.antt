-- ===== src/Gates/Faithfulness/Rollback.antt =====
-- One round of the loop over the sound backends: what it may answer, and what it leaves behind. The
-- provisional domain of the retry is never left behind unless the retry earned a PASS.
use leibniz_daemon.Common.{
  true, ◌≡◌, refl, ◌⊎◌, inl, inr, Option, none, some, arith, returned, Bool-cases, Option-cases,
  subst, >>=-eq-returned, returned-injective,
}
use leibniz_daemon.Types.{EdgeEvidence, pass, fail, mechanical, unfaithful, is_fail, is_defer}
use leibniz_daemon.Trust.{faithfulness_edge}
use leibniz_daemon.Propositio.{Propositio, Expressio, quarantine}
use leibniz_daemon.Gates.Sound.{
  SoundBackend, FaithfulnessVerdict, Certificate, is_pass_with_certificate,
}
use leibniz_daemon.Gates.Faithfulness.{
  FaithfulnessGate, statement_bound, rechecks, accept_certificate, with_domain, derived,
  retry_applies, attempt, retry_with_derived_domain, refuted_by, settle_verdict, consult,
}

-- The backend answered `v` about the candidate, with a certificate that it calls re-checked, that
-- is bound to the candidate's statement and that the gate's own re-checker accepts.
pub record IsCertified (g : FaithfulnessGate) (prop : Propositio) (b : SoundBackend)
    (v : FaithfulnessVerdict) : Type 0 where
  pub answered : b.check prop ≡ returned v
  pub certificate : Certificate
  pub carried : v.certificate ≡ some certificate
  pub passed : is_pass_with_certificate v ≡ true
  pub is_bound : statement_bound g prop certificate ≡ true
  pub rechecked : rechecks g certificate ≡ true

-- An accepted verdict is certified, and its evidence is a mechanical PASS.
accepts_with :
    (g : FaithfulnessGate) (prop : Propositio) (b : SoundBackend) (v : FaithfulnessVerdict)
    (ev : EdgeEvidence)
    → accept_certificate g prop b v ≡ some ev
    → (c : Certificate) × (v.certificate ≡ some c)
      × (is_pass_with_certificate v ≡ true)
      × (statement_bound g prop c ≡ true)
      × (rechecks g c ≡ true)
      × (ev.verdict ≡ pass)
      × (ev.tier ≡ mechanical)
      × (ev.edge ≡ faithfulness_edge)
unfolding accept_certificate
accepts_with g prop b v ev e = ground arith

IsCertified-by :
    (g : FaithfulnessGate) (prop : Propositio) (b : SoundBackend) (v : FaithfulnessVerdict)
    (ev : EdgeEvidence)
    → b.check prop ≡ returned v
    → accept_certificate g prop b v ≡ some ev
    → IsCertified g prop b v
IsCertified-by g prop b v ev answered e =
    let (c, carried, passed, is_bound, rechecked, _, _, _) = accepts_with g prop b v ev e in
    record {
      answered = answered;
      certificate = c;
      carried = carried;
      passed = passed;
      is_bound = is_bound;
      rechecked = rechecked;
    }

-- What a round answers, and the candidate that it leaves.
pub data Round (g : FaithfulnessGate) (prop : Propositio) (expr : Expressio) (b : SoundBackend)
    (after : Propositio) (answer : Option EdgeEvidence) : Type 0 where
  -- nothing is decided, and nothing has changed
  passed_over : after ≡ prop → answer ≡ none → Round g prop expr b after answer
  -- a sound refutation
  refuted :
      (ev : EdgeEvidence)
      → answer ≡ some ev
      → ev.verdict ≡ fail
      → ev.tier ≡ mechanical
      → after ≡ quarantine unfaithful prop
      → Round g prop expr b after answer
  -- a certified PASS, of the candidate as it was or with the claim's own domain established
  certified :
      (ev : EdgeEvidence) (v : FaithfulnessVerdict)
      → answer ≡ some ev
      → ev.verdict ≡ pass
      → ev.tier ≡ mechanical
      → IsCertified g after b v
      → (after ≡ prop)
        ⊎ ((retry_applies g prop expr b ≡ true)
            × (after ≡ with_domain prop expr prop.enuntiatio.claim_domain))
      → Round g prop expr b after answer

attempt_returned :
    (g : FaithfulnessGate) (prop : Propositio) (b : SoundBackend) (ev : EdgeEvidence)
    → attempt g prop b ≡ some ev
    → (v : FaithfulnessVerdict) × (b.check prop ≡ returned v)
      × (accept_certificate g prop b v ≡ some ev)
unfolding attempt
attempt_returned g prop b ev e = ground arith

module _ (g : FaithfulnessGate) (prop : Propositio) (expr : Expressio) (b : SoundBackend) where
  abbrev provisional : Propositio
  provisional = with_domain prop expr prop.enuntiatio.claim_domain

  restored :
      prop.expressio ≡ some expr → with_domain provisional expr expr.established_domain ≡ prop
  restored e = ground arith

  -- The retry: no answer leaves the candidate byte for byte as it was.
  retry-Round :
      prop.expressio ≡ some expr
      → let (after, answer) = retry_with_derived_domain g prop expr b in
        Round g prop expr b after answer
  unfolding retry_with_derived_domain
  retry-Round e = elim (Bool-cases (retry_applies g prop expr b)) [
    | inr skip ↦ rw skip (passed_over refl refl)
    | inl go ↦ elim (Option-cases (attempt g provisional b)) [
      | inl nothing ↦ rw (go, nothing) (passed_over (restored e) refl)
      | inr (ev, got) ↦
          let (v, answered, accepted) = attempt_returned g provisional b ev got in
          let (c, carried, passed, bound, checked, pass', mech, _) =
            accepts_with g provisional b v ev accepted in
          rw (go, got)
            (certified (derived ev) v refl pass' mech
              (IsCertified-by g provisional b v ev answered accepted) (inr (go, refl)))
    ]
  ]

  settle-Round :
      (v : FaithfulnessVerdict)
      → prop.expressio ≡ some expr
      → b.check prop ≡ returned v
      → let (after, answer) = settle_verdict g prop expr b v in Round g prop expr b after answer
  unfolding settle_verdict
  settle-Round v e answered = elim (Bool-cases (is_fail v.verdict)) [
    | inl failed ↦ rw failed (refuted (refuted_by b v) refl refl refl refl)
    | inr fine ↦ elim (Option-cases (accept_certificate g prop b v)) [
      | inr (ev, got) ↦
          let (c, carried, passed, bound, checked, pass', mech, _) =
            accepts_with g prop b v ev got in
          rw (fine, got)
            (certified ev v refl pass' mech (IsCertified-by g prop b v ev answered got) (inl refl))
      | inl nothing ↦ elim (Bool-cases (is_defer v.verdict)) [
        | inl deferred ↦ rw (fine, nothing, deferred) (retry-Round e)
        | inr decided ↦ rw (fine, nothing, decided) (passed_over refl refl)
      ]
    ]
  ]

  -- A round that returns answers as `Round` says.
  pub consult-Round :
      (r : Propositio × Option EdgeEvidence)
      → prop.expressio ≡ some expr
      → consult g prop expr b ≡ returned r
      → Round g prop expr b r.0 r.1
  unfolding consult
  consult-Round r e h =
      let (v, answered, same) =
        >>=-eq-returned (b.check prop) (λ v. returned (settle_verdict g prop expr b v)) h in
      subst (λ (x : Propositio × Option EdgeEvidence). Round g prop expr b x.0 x.1)
        (returned-injective same) (settle-Round v e answered)
