-- ===== src/Gates/Faithfulness/Verdicts.antt =====
-- The loop over the sound backends, round by round.
use leibniz_daemon.Common.{
  ◌≡◌, refl, ◌⊎◌, inl, inr, Option, none, some, List, [], ◌∷◌, arith, returned, ◌>>=◌, Bool-cases,
  subst, >>=-eq-returned, returned-injective,
}
use leibniz_daemon.Types.{EdgeEvidence, unfaithful, pass, fail, mechanical}
use leibniz_daemon.Propositio.{Propositio, Expressio, quarantine}
use leibniz_daemon.Gates.Sound.{SoundBackend, FaithfulnessVerdict}
use leibniz_daemon.Gates.Faithfulness.{
  FaithfulnessGate, with_domain, insert_by_rank, by_rank, consult, consult_all,
}
use leibniz_daemon.Gates.Faithfulness.Rollback.{
  IsCertified, Round, passed_over, refuted, certified, consult-Round,
}

abbrev pub Among : SoundBackend → List SoundBackend → Type 0
Among b [] = ⊥
Among b (c ∷ cs) = (b ≡ c) ⊎ Among b cs

Among-insert :
    (b c : SoundBackend) (cs : List SoundBackend)
    → Among b (insert_by_rank c cs)
    → (b ≡ c) ⊎ Among b cs
unfolding insert_by_rank
Among-insert b c [] m = m
Among-insert b c (d ∷ ds) m = ground (arith, Among-insert b c ds)

-- Sorting brings in no backend.
pub Among-by_rank : (b : SoundBackend) (bs : List SoundBackend) → Among b (by_rank bs) → Among b bs
unfolding by_rank
Among-by_rank b [] m = m
Among-by_rank b (c ∷ cs) m = ground (arith, Among-insert b c (by_rank cs) m, Among-by_rank b cs)

-- The candidate as it was, or with the claim's own domain as the established one.
abbrev pub Candidate : Propositio → Expressio → Propositio → Type 0
Candidate prop expr after =
    (after ≡ prop) ⊎ (after ≡ with_domain prop expr prop.enuntiatio.claim_domain)

-- What the loop over the backends answers.
pub data Loop (g : FaithfulnessGate) (prop : Propositio) (expr : Expressio) (bs : List SoundBackend)
    (after : Propositio) (answer : Option EdgeEvidence) : Type 0 where
  passed_by : after ≡ prop → answer ≡ none → Loop g prop expr bs after answer
  refuted_in :
      (ev : EdgeEvidence)
      → answer ≡ some ev
      → ev.verdict ≡ fail
      → ev.tier ≡ mechanical
      → after ≡ quarantine unfaithful prop
      → Loop g prop expr bs after answer
  certified_in :
      (ev : EdgeEvidence) (b : SoundBackend) (v : FaithfulnessVerdict)
      → answer ≡ some ev
      → ev.verdict ≡ pass
      → ev.tier ≡ mechanical
      → Among b bs
      → IsCertified g after b v
      → Candidate prop expr after
      → Loop g prop expr bs after answer

module _ (g : FaithfulnessGate) (prop : Propositio) (expr : Expressio) where
  later :
      (b : SoundBackend) (bs : List SoundBackend) (after : Propositio)
      (answer : Option EdgeEvidence)
      → Loop g prop expr bs after answer
      → Loop g prop expr (b ∷ bs) after answer
  later b bs after answer (passed_by k n) = passed_by k n
  later b bs after answer (refuted_in ev a f m q) = refuted_in ev a f m q
  later b bs after answer (certified_in ev c v a p m at i k) =
      certified_in ev c v a p m (inr at) i k

  -- The rest of the loop after one round.
  go_on :
      (b : SoundBackend) (bs : List SoundBackend) (r s : Propositio × Option EdgeEvidence)
      → ((t : Propositio × Option EdgeEvidence)
          → consult_all g prop expr bs ≡ returned t
          → Loop g prop expr bs t.0 t.1)
      → Round g prop expr b r.0 r.1
      → (elim r.1 [ some ev ↦ returned r | none ↦ consult_all g r.0 expr bs ]) ≡ returned s
      → Loop g prop expr (b ∷ bs) s.0 s.1
  go_on b bs (q, none) s ih (passed_over k n) h =
      later b bs s.0 s.1 (ih s (subst (λ x. consult_all g x expr bs ≡ returned s) k h))
  go_on b bs (q, none) s ih (refuted ev a f m k) h = cc
  go_on b bs (q, none) s ih (certified ev v a p m i k) h = cc
  go_on b bs (q, some e) s ih (passed_over k n) h = cc
  go_on b bs (q, some e) s ih (refuted ev a f m k) h =
      subst (λ x. Loop g prop expr (b ∷ bs) x.0 x.1) (returned-injective h) (refuted_in ev a f m k)
  go_on b bs (q, some e) s ih (certified ev v a p m i k) h =
      subst (λ x. Loop g prop expr (b ∷ bs) x.0 x.1) (returned-injective h)
        (certified_in ev b v a p m (inl refl) i (ground arith))

  pub consult_all-Loop :
      (bs : List SoundBackend) (r : Propositio × Option EdgeEvidence)
      → prop.expressio ≡ some expr
      → consult_all g prop expr bs ≡ returned r
      → Loop g prop expr bs r.0 r.1
  unfolding consult_all
  consult_all-Loop [] r e h = passed_by (ground arith) (ground arith)
  consult_all-Loop (b ∷ bs) r e h = elim (Bool-cases (b.applies prop)) [
    | inr skip ↦ later b bs r.0 r.1 (consult_all-Loop bs r e (ground arith))
    | inl here ↦
        let run : (consult g prop expr b >>= λ q. elim q.1 [
          | some ev ↦ returned q
          | none ↦ consult_all g q.0 expr bs
        ])
            ≡ returned r =
          ground arith in
        let (q, returned_q, rest) = >>=-eq-returned (consult g prop expr b) _ run in
        go_on b bs q r (λ t. consult_all-Loop bs t e) (consult-Round g prop expr b q e returned_q)
          rest
  ]
