-- ===== src/Repair/Panel.antt =====
-- The votes that a repair panel adds: each of its own model, with a stamped proof.
use leibniz_daemon.Common.{
  ℕ, String, false, ◌||◌, ◌≡◌, refl, ◌⊎◌, inl, inr, Option, none, some, List, [], ◌∷◌, arith,
  eq_iff, str_eq, contains, insert, Bool-cases, subst, sym, either_branch,
}
use leibniz_daemon.Types.{EdgeEvidence}
use leibniz_daemon.Propositio.{Expressio, Demonstratio}
use leibniz_daemon.Consensus.Votes.{AllDistinct}
use leibniz_daemon.Repair.{
  ProofRepairer, Closers, prove, voter, add_closer, enough, ask_member, ask_panel, ask_all,
  RepairingDemonstrate,
}
use leibniz_daemon.Repair.Closes.{IsKernelProof, prove-IsSpent}

abbrev pub Vote : Type 0
Vote = String × Demonstratio × EdgeEvidence

abbrev pub AmongRepairers : ProofRepairer → List ProofRepairer → Type 0
AmongRepairers p [] = ⊥
AmongRepairers p (q ∷ qs) = (p ≡ q) ⊎ AmongRepairers p qs

abbrev pub keys : Closers → List String
keys [] = []
keys ((k, won) ∷ d) = k ∷ keys d

-- A member of the panel closed the goal with this proof, and this is its model.
pub record IsVote (ps : List ProofRepairer) (base : List String) (expr : Expressio) (k : String)
    (won : Demonstratio × EdgeEvidence) : Type 0 where
  pub member : ProofRepairer
  pub among : AmongRepairers member ps
  pub closed : (prove member expr).1 ≡ some won
  pub named : voter (prove member expr).0 ≡ k
  pub is_new : contains base k ≡ false
  pub kernel : IsKernelProof member expr won

abbrev pub AllVotes : List ProofRepairer → List String → Expressio → Closers → Type 0
AllVotes ps base expr [] = Unit
AllVotes ps base expr ((k, won) ∷ d) = IsVote ps base expr k won × AllVotes ps base expr d

contains-keys-insert :
    (k j : String) (won : Demonstratio × EdgeEvidence) (d : Closers)
    → contains (keys (insert k won d)) j ≡ (contains (keys d) j || str_eq k j)
unfolding insert
contains-keys-insert k j won [] = ground arith
contains-keys-insert k j won ((i, w) ∷ d) =
    ground (arith, contains-keys-insert k j won d, eq_iff i k)

AllDistinct-keys-insert :
    (k : String) (won : Demonstratio × EdgeEvidence) (d : Closers)
    → AllDistinct (keys d)
    → AllDistinct (keys (insert k won d))
unfolding insert
AllDistinct-keys-insert k won [] h = (refl, tt)
AllDistinct-keys-insert k won ((i, w) ∷ d) h =
    ground (
      arith,
      contains-keys-insert k i won d,
      AllDistinct-keys-insert k won d,
      eq_iff i k,
      eq_iff k i,
    )

-- The votes collected so far: distinct models, none of them a base verifier's.
pub record IsPoll (ps : List ProofRepairer) (base : List String) (expr : Expressio)
    (closers : Closers) : Type 0 where
  pub apart : AllDistinct (keys closers)
  pub votes : AllVotes ps base expr closers

module _ (ps : List ProofRepairer) (base : List String) (expr : Expressio) where
  AllVotes-insert :
      (k : String) (won : Demonstratio × EdgeEvidence) (d : Closers)
      → IsVote ps base expr k won
      → AllVotes ps base expr d
      → AllVotes ps base expr (insert k won d)
  unfolding insert
  AllVotes-insert k won [] v h = (v, tt)
  AllVotes-insert k won ((i, w) ∷ d) v (first, rest) = elim (Bool-cases (str_eq i k)) [
    | inl same ↦
        rw same (subst (λ x. IsVote ps base expr x won) (sym ((eq_iff i k).0 same)) v, rest)
    | inr other ↦ rw other (first, AllVotes-insert k won d v rest)
  ]

  add_closer-IsPoll :
      (p : ProofRepairer) (closers : Closers) (out : Option (Demonstratio × EdgeEvidence))
      → AmongRepairers p ps
      → (prove p expr).1 ≡ out
      → IsPoll ps base expr closers
      → IsPoll ps base expr (add_closer base (prove p expr).0 out closers)
  unfolding add_closer
  add_closer-IsPoll p closers none at e h = h
  add_closer-IsPoll p closers (some won) at e h =
      elim (Bool-cases (contains base (voter (prove p expr).0))) [
        | inl old ↦ rw (old, add_closer) h
        | inr new ↦
            rw (new, add_closer)
              (either_branch (IsPoll ps base expr) _ closers
                (insert (voter (prove p expr).0) won closers) h
                (record {
                  apart = AllDistinct-keys-insert (voter (prove p expr).0) won closers h.apart;
                  votes =
                      AllVotes-insert (voter (prove p expr).0) won closers
                        (record {
                          member = p;
                          among = at;
                          closed = e;
                          named = refl;
                          is_new = new;
                          kernel = (prove-IsSpent p expr).kernel won e;
                        })
                        h.votes;
                }))
      ]

  ask_member-IsPoll :
      (min_c : ℕ) (p : ProofRepairer) (closers : Closers)
      → AmongRepairers p ps
      → IsPoll ps base expr closers
      → IsPoll ps base expr (ask_member min_c base expr p closers).1
  unfolding ask_member
  ask_member-IsPoll min_c p closers at h =
      either_branch (λ (r : ProofRepairer × Closers). IsPoll ps base expr r.1)
        (enough min_c base closers) (p, closers)
        ((prove p expr).0, add_closer base (prove p expr).0 (prove p expr).1 closers) h
        (add_closer-IsPoll p closers (prove p expr).1 at refl h)

  ask_panel-IsPoll :
      (min_c : ℕ) (qs : List ProofRepairer) (closers : Closers)
      → ((q : ProofRepairer) → AmongRepairers q qs → AmongRepairers q ps)
      → IsPoll ps base expr closers
      → IsPoll ps base expr (ask_panel min_c base expr qs closers).1
  unfolding ask_panel
  ask_panel-IsPoll min_c [] closers within h = h
  ask_panel-IsPoll min_c (q ∷ qs) closers within h =
      let more = (ask_member min_c base expr q closers).1 in
      either_branch (λ (r : List ProofRepairer × Closers). IsPoll ps base expr r.1)
        (enough min_c base closers) (q ∷ qs, closers)
        (
          (ask_member min_c base expr q closers).0 ∷ (ask_panel min_c base expr qs more).0,
          (ask_panel min_c base expr qs more).1,
        )
        h
        (ask_panel-IsPoll min_c qs more (λ x m. within x (inr m))
          (ask_member-IsPoll min_c q closers (within q (inl refl)) h))

-- Whoever is asked, and however often the panel stops early, the votes are of distinct models, none
-- of them a base verifier's, and each has a proof by a member of the panel that the kernel stamped.
pub ask_all-IsPoll :
    (s : RepairingDemonstrate) (expr : Expressio) (base : List String)
    → IsPoll (s.repairer ∷ s.panel) base expr (ask_all s expr base).1
unfolding ask_all
ask_all-IsPoll s expr base =
    let ps = s.repairer ∷ s.panel in
    let min_c = s.consensus.min_consensus in
    ask_panel-IsPoll ps base expr min_c s.panel (ask_member min_c base expr s.repairer []).1
      (λ q m. inr m)
      (ask_member-IsPoll ps base expr min_c s.repairer [] (inl refl)
        (record { apart = tt; votes = tt }))
