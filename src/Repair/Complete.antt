-- ===== src/Repair/Complete.antt =====
-- The repair loop closes a goal exactly where its conversation comes to a stamped proof in time.
use leibniz_daemon.Common.{
  ◌≢◌, String, false, eq_iff, arith, ℕ, zero, suc, ◌+◌, true, ◌≡◌, refl, ◌↔◌, inl, inr, Option,
  none, some, str_eq, returned, Option-cases, Bool-cases, Outcome-cases, subst, is_some,
}
use leibniz_daemon.Types.{proof_draft}
use leibniz_daemon.Propositio.{Expressio}
use leibniz_daemon.Repair.{
  Reply, ProofRepairer, Check, candidate_of, judge_candidate, count_repair, ask_repair, rounds,
  count_attempt, prove, prove_with,
}
use leibniz_daemon.Repair.Conversation.{
  Closes, Accepts, accepted, repaired, recounted, counted, judged-Accepts, Accepts-judged,
  judged-IsComplaint, IsComplaint-judged,
}

-- The whole conversation: the backend shows its errors, the reasoner drafts, and the loop closes.
pub record Converses (p : ProofRepairer) (expr : Expressio) : Type 0 where
  pub check : Check
  pub reply : Reply
  pub shows_errors : p.check_proof_with_error ≡ some check
  pub drafted : p.provider.propose proof_draft expr.theorem_src ≡ returned reply
  pub closes : Closes p check expr p.max_rounds (candidate_of p reply)

not_empty : (s : String) → str_eq s "" ≡ false → s ≢ ""
not_empty s h e = cc (h, (eq_iff s "").1 e)

is_full : (s : String) → s ≢ "" → str_eq s "" ≡ false
is_full s h = ground (arith, eq_iff s "")

rejected :
    (p : ProofRepairer) (check : Check) (expr : Expressio) (said : String)
    → (judge_candidate p check expr said).0 ≡ none
    → ¬ Accepts p check expr said
rejected p check expr said lost ok =
    let (won, e) = Accepts-judged p check expr said ok in cc (lost, e)

module _ (check : Check) (expr : Expressio) where
  rounds_closed :
      (left r : ℕ) (p : ProofRepairer) (candidate : Reply)
      → is_some (rounds left r check expr p candidate).1 ≡ true
      → Closes p check expr left candidate
  unfolding rounds
  rounds_closed zero r p candidate h = elim (Bool-cases (str_eq candidate.said "")) [
    | inl empty ↦ absurd (cc (rw (empty, rounds) at h))
    | inr full ↦ elim (Option-cases (judge_candidate p check expr candidate.said).0) [
      | inl lost ↦ absurd (cc (rw (full, lost, rounds) at h))
      | inr (won, e) ↦
          accepted (judged-Accepts p check expr candidate.said won (not_empty _ full) e)
    ]
  ]
  rounds_closed (suc left) r p candidate h = elim (Bool-cases (str_eq candidate.said "")) [
    | inl empty ↦ absurd (cc (rw (empty, rounds) at h))
    | inr full ↦ elim (Option-cases (judge_candidate p check expr candidate.said).0) [
      | inr (won, e) ↦
          accepted (judged-Accepts p check expr candidate.said won (not_empty _ full) e)
      | inl lost ↦
          elim (Outcome-cases
            (ask_repair p expr candidate (judge_candidate p check expr candidate.said).1)) [
              | inl silent ↦ absurd (cc (rw (full, lost, silent, rounds) at h))
              | inr (reply, asked) ↦
                  repaired reply _ (not_empty _ full) (rejected p check expr candidate.said lost)
                    (judged-IsComplaint p check expr candidate.said lost) asked
                    (recounted p (count_repair p).stats check expr (
                      rounds_closed left (r + 1) (count_repair p) (candidate_of p reply)
                        (rw (full, lost, asked, rounds) at h)))
            ]
    ]
  ]

  closes_rounds :
      (left r : ℕ) (p : ProofRepairer) (candidate : Reply)
      → Closes p check expr left candidate
      → is_some (rounds left r check expr p candidate).1 ≡ true
  unfolding rounds
  closes_rounds zero r p candidate (accepted ok) =
      let (won, e) = Accepts-judged p check expr candidate.said ok in
      rw (is_full _ ok.0, e, rounds) refl
  closes_rounds (suc left) r p candidate (accepted ok) =
      let (won, e) = Accepts-judged p check expr candidate.said ok in
      rw (is_full _ ok.0, e, rounds) refl
  closes_rounds (suc left) r p candidate (repaired reply error full lost told asked h) =
      elim (Option-cases (judge_candidate p check expr candidate.said).0) [
        | inr (won, e) ↦ absurd (lost (judged-Accepts p check expr candidate.said won full e))
        | inl none1 ↦
            let same = IsComplaint-judged p check expr candidate.said error told in
            rw (is_full _ full, none1, same, asked, rounds)
              (closes_rounds left (r + 1) (count_repair p) (candidate_of p reply)
                (counted p (count_repair p).stats check expr h))
      ]

module _ (p : ProofRepairer) (expr : Expressio) where
  prove_with_closed :
      (c : Option Check)
      → p.check_proof_with_error ≡ c
      → is_some (prove_with c p expr).1 ≡ true
      → Converses p expr
  unfolding prove_with
  prove_with_closed none shows h = cc
  prove_with_closed (some check) shows h =
      elim (Outcome-cases (p.provider.propose proof_draft expr.theorem_src)) [
        | inl silent ↦ absurd (cc (rw (silent, prove_with) at h))
        | inr (reply, drafted) ↦ record {
          check = check;
          reply = reply;
          shows_errors = shows;
          drafted = drafted;
          closes = recounted p (count_attempt p).stats check expr (
              rounds_closed check expr p.max_rounds 0 (count_attempt p) (candidate_of p reply)
                (rw (drafted, prove_with) at h));
        }
      ]

  prove_with_answers :
      (c : Option Check)
      → p.check_proof_with_error ≡ c
      → Converses p expr
      → is_some (prove_with c p expr).1 ≡ true
  unfolding prove_with
  prove_with_answers none shows h = cc (shows, h.shows_errors)
  prove_with_answers (some check) shows h =
      let same : h.check ≡ check = cc (shows, h.shows_errors) in
      rw (h.drafted, prove_with)
        (closes_rounds check expr p.max_rounds 0 (count_attempt p) (candidate_of p h.reply) (
          counted p (count_attempt p).stats check expr
            (subst (λ c. Closes p c expr p.max_rounds (candidate_of p h.reply)) same h.closes)))

  -- The repairer answers with a proof exactly where its backend shows errors, its reasoner drafts,
  -- and some candidate among the draft and the next `max_rounds` repairs, each asked for with the
  -- last complaint, passes the check and is accepted by the kernel with its footprint, while those
  -- before it are rejected and none is empty.
  pub prove_iff : (is_some (prove p expr).1 ≡ true) ↔ Converses p expr
  unfolding prove
  prove_iff = (
    prove_with_closed p.check_proof_with_error refl,
    prove_with_answers p.check_proof_with_error refl,
  )
