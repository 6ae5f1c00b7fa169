-- ===== src/Repair/Closes.antt =====
-- What the repair loop returns when it closes a goal, and what it spends.
use leibniz_daemon.Common.{
  ℕ, zero, suc, ◌+◌, ◌≤◌, String, true, false, ◌≡◌, refl, inl, inr, Option, none, some, [], ◌∷◌,
  arith, str_eq, length, length-append, Option-cases, Bool-cases, Outcome-cases, subst,
}
use leibniz_daemon.Types.{EdgeEvidence, proof_draft}
use leibniz_daemon.Trust.{proof_edge}
use leibniz_daemon.Trust.Path.{IsAdmissible}
use leibniz_daemon.Propositio.{Expressio, Demonstratio}
use leibniz_daemon.Verifiers.{discharge}
use leibniz_daemon.Verifiers.Discharge.{KernelAccepts, discharge_exact}
use leibniz_daemon.Repair.{
  Reply, ProofRepairer, Check, candidate_of, demo_of, judge_candidate, close, count_repair,
  ask_repair, rounds, count_attempt, prove, prove_with,
}

-- The proof is stamped: the kernel accepts it, and the edge is its own.
pub record IsKernelProof (p : ProofRepairer) (expr : Expressio) (won : Demonstratio × EdgeEvidence)
    : Type 0 where
  pub proof : String
  pub accepted : KernelAccepts p.lean expr (demo_of p proof)
  pub source : won.0.proof_src ≡ some proof
  pub stamp : won.0.kernel_verified ≡ true
  pub is_kernel : IsAdmissible won.1
  pub at : won.1.edge ≡ proof_edge

judge_candidate-IsKernelProof :
    (p : ProofRepairer) (check : Check) (expr : Expressio) (proof : String)
    (won : Demonstratio × EdgeEvidence)
    → (judge_candidate p check expr proof).0 ≡ some won
    → IsKernelProof p expr won
unfolding judge_candidate
judge_candidate-IsKernelProof p check expr proof won e =
    let facts = discharge_exact p.lean expr (demo_of p proof) in
    let r = discharge p.lean expr (demo_of p proof) in
    let stamped : r.0.kernel_verified ≡ true = ground arith in
    let same : r ≡ won = ground arith in
    let accepted = facts.0.0 stamped in
    subst (IsKernelProof p expr) same (record {
      proof = proof;
      accepted = accepted;
      source = facts.5;
      stamp = stamped;
      is_kernel = facts.3;
      at = facts.4;
    })

-- What a call of the loop leaves behind.
pub record IsSpent (p : ProofRepairer) (expr : Expressio) (budget : ℕ)
    (out : ProofRepairer × Option (Demonstratio × EdgeEvidence)) : Type 0 where
  pub few : out.0.stats.repairs ≤ p.stats.repairs + budget
  pub closed_one :
      (won : Demonstratio × EdgeEvidence)
      → out.1 ≡ some won
      → out.0.stats.closed ≡ p.stats.closed + 1
  pub closed_none : out.1 ≡ none → out.0.stats.closed ≡ p.stats.closed
  pub logged :
      length out.0.stats.rounds_to_close + p.stats.closed
      ≡ length p.stats.rounds_to_close + out.0.stats.closed
  pub kernel : (won : Demonstratio × EdgeEvidence) → out.1 ≡ some won → IsKernelProof p expr won

module _ (check : Check) (expr : Expressio) where
  pub gives_up : (p : ProofRepairer) (budget : ℕ) → IsSpent p expr budget (p, none)
  gives_up p budget = record {
    few = omega arith;
    closed_one = λ won e. cc;
    closed_none = λ _. refl;
    logged = omega arith;
    kernel = λ won e. cc;
  }

  wins :
      (p : ProofRepairer) (candidate : Reply) (r budget : ℕ) (won : Demonstratio × EdgeEvidence)
      → (judge_candidate p check expr candidate.said).0 ≡ some won
      → IsSpent p expr budget (close p candidate r, some won)
  wins p candidate r budget won e = record {
    few = omega arith;
    closed_one = λ other same. refl;
    closed_none = λ absurdity. cc;
    logged = omega (arith, length-append p.stats.rounds_to_close (r ∷ []));
    kernel = λ other same.
        subst (IsKernelProof p expr) (cc same)
          (judge_candidate-IsKernelProof p check expr candidate.said won e);
  }

  after_repair :
      (p : ProofRepairer) (budget : ℕ) (out : ProofRepairer × Option (Demonstratio × EdgeEvidence))
      → IsSpent (count_repair p) expr budget out
      → IsSpent p expr (suc budget) out
  after_repair p budget out h = record {
    few = omega (arith, h.few);
    closed_one = h.closed_one;
    closed_none = h.closed_none;
    logged = h.logged;
    kernel = λ won e.
        let k = h.kernel won e in
        record {
          proof = k.proof;
          accepted = k.accepted;
          source = k.source;
          stamp = k.stamp;
          is_kernel = k.is_kernel;
          at = k.at;
        };
  }

  pub rounds-IsSpent :
      (left r : ℕ) (p : ProofRepairer) (candidate : Reply)
      → IsSpent p expr left (rounds left r check expr p candidate)
  unfolding rounds
  rounds-IsSpent zero r p candidate = elim (Bool-cases (str_eq candidate.said "")) [
    | inl empty ↦ rw (empty, rounds) (gives_up p 0)
    | inr full ↦ elim (Option-cases (judge_candidate p check expr candidate.said).0) [
      | inl lost ↦ rw (full, lost, rounds) (gives_up p 0)
      | inr (won, e) ↦ rw (full, e, rounds) (wins p candidate r 0 won e)
    ]
  ]
  rounds-IsSpent (suc left) r p candidate = elim (Bool-cases (str_eq candidate.said "")) [
    | inl empty ↦ rw (empty, rounds) (gives_up p (suc left))
    | inr full ↦ elim (Option-cases (judge_candidate p check expr candidate.said).0) [
      | inr (won, e) ↦ rw (full, e, rounds) (wins p candidate r (suc left) won e)
      | inl lost ↦
          elim (Outcome-cases
            (ask_repair p expr candidate (judge_candidate p check expr candidate.said).1)) [
              | inl silent ↦
                  rw (full, lost, silent, rounds)
                    (after_repair p left _ (gives_up (count_repair p) left))
              | inr (reply, asked) ↦
                  rw (full, lost, asked, rounds)
                    (after_repair p left _
                      (rounds-IsSpent left (r + 1) (count_repair p) (candidate_of p reply)))
            ]
    ]
  ]

module _ (p : ProofRepairer) (expr : Expressio) where
  counted_attempt :
      (out : ProofRepairer × Option (Demonstratio × EdgeEvidence))
      → IsSpent (count_attempt p) expr p.max_rounds out
      → IsSpent p expr p.max_rounds out
  counted_attempt out h = record {
    few = h.few;
    closed_one = h.closed_one;
    closed_none = h.closed_none;
    logged = h.logged;
    kernel = λ won e.
        let k = h.kernel won e in
        record {
          proof = k.proof;
          accepted = k.accepted;
          source = k.source;
          stamp = k.stamp;
          is_kernel = k.is_kernel;
          at = k.at;
        };
  }

  prove_with-IsSpent : (c : Option Check) → IsSpent p expr p.max_rounds (prove_with c p expr)
  unfolding prove_with
  prove_with-IsSpent none = gives_up (λ e s. (false, "")) expr p p.max_rounds
  prove_with-IsSpent (some check) =
      elim (Outcome-cases (p.provider.propose proof_draft expr.theorem_src)) [
        | inl silent ↦
            rw (silent, prove_with)
              (counted_attempt _ (gives_up check expr (count_attempt p) p.max_rounds))
        | inr (reply, drafted) ↦
            rw (drafted, prove_with)
              (counted_attempt _
                (rounds-IsSpent check expr p.max_rounds 0 (count_attempt p) (candidate_of p reply)))
      ]

  -- A repairer spends at most `max_rounds` repairs on a goal, however the reasoner answers; it counts
  -- and logs a closed goal exactly where it returns a proof; and the kernel has stamped that proof.
  pub prove-IsSpent : IsSpent p expr p.max_rounds (prove p expr)
  unfolding prove
  prove-IsSpent = prove_with-IsSpent p.check_proof_with_error
