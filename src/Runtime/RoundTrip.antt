-- ===== src/Runtime/RoundTrip.antt =====
-- What comes back of a remembered candidate.
use leibniz_daemon.Common.{
  ℕ, String, true, false, ◌≡◌, refl, ◌≢◌, inl, inr, Option, none, some, [], arith, returned, eq_iff,
  str_eq, Bool-cases,
}
use leibniz_daemon.Types.{FinishReason}
use leibniz_daemon.Types.Values.{
  claim_type_of-claim_type_value, finish_reason_of-finish_reason_value,
  finish_reason_value_nonempty,
}
use leibniz_daemon.Propositio.{Propositio, Expressio, Demonstratio}
use leibniz_daemon.Runtime.{replayed, expressio_from, to_row, row_to_prop, reason_from, reason_of}

reason_back : (r : Option FinishReason) → reason_from (reason_of r) ≡ returned r
reason_back none = refl
reason_back (some r) = rw (finish_reason_value_nonempty r, finish_reason_of-finish_reason_value r)

-- What is kept: the claim without its domain of validity, the formal statement where it is not empty,
-- a proof only with the kernel's stamp, and never the promotion flag.
pub record IsReplay (prop back : Propositio) : Type 0 where
  pub pid : back.pid ≡ prop.pid
  pub statement : back.enuntiatio.statement ≡ prop.enuntiatio.statement
  pub claim_type : back.enuntiatio.claim_type ≡ prop.enuntiatio.claim_type
  pub falsifiable_claim : back.enuntiatio.falsifiable_claim ≡ prop.enuntiatio.falsifiable_claim
  pub claim_property : back.enuntiatio.claim_property ≡ prop.enuntiatio.claim_property
  pub no_domain : back.enuntiatio.claim_domain ≡ none
  pub domain : prop.enuntiatio.domain ≢ "" → back.enuntiatio.domain ≡ prop.enuntiatio.domain
  pub default_domain :
      prop.enuntiatio.domain ≡ "" → back.enuntiatio.domain ≡ "analysis_of_algorithms"
  pub born : back.born ≡ prop.born
  pub no_signature : back.signature ≡ none
  pub stated :
      (expr : Expressio)
      → prop.expressio ≡ some expr
      → expr.theorem_src ≢ ""
      → (again : Expressio) × (back.expressio ≡ some again)
        × (again.theorem_src ≡ expr.theorem_src)
        × (again.normalized_hash ≡ expr.normalized_hash)
  pub unstated :
      back.expressio ≡ none
      → (expr : Expressio) → prop.expressio ≡ some expr
      → expr.theorem_src ≡ ""
  pub never_stated : prop.expressio ≡ none → back.expressio ≡ none
  pub finish_reason : back.finish_reason ≡ prop.finish_reason
  pub parents : back.parents ≡ prop.parents
  pub seed_origin : back.seed_origin ≡ prop.seed_origin
  pub not_promulgated : back.promulgated ≡ false
  pub no_edges : back.edges ≡ []
  pub stamped :
      (demo : Demonstratio)
      → back.demonstratio ≡ some demo
      → (was : Demonstratio) × (prop.demonstratio ≡ some was)
        × (was.kernel_verified ≡ true)
        × (demo.kernel_verified ≡ true)
        × (demo.proof_src ≡ was.proof_src)
        × (demo.qed ≡ was.qed)
  pub unstamped :
      back.demonstratio ≡ none
      → (demo : Demonstratio) → prop.demonstratio ≡ some demo
      → demo.kernel_verified ≡ false

stated_back :
    (expr : Expressio)
    → expr.theorem_src ≢ ""
    → (again : Expressio) × (expressio_from (some expr.theorem_src) (some expr.normalized_hash)
        ≡ some again)
      × (again.theorem_src ≡ expr.theorem_src)
      × (again.normalized_hash ≡ expr.normalized_hash)
stated_back expr full = elim (Bool-cases (str_eq expr.theorem_src "")) [
  | inl empty ↦ absurd (full ((eq_iff expr.theorem_src "").0 empty))
  | inr written ↦ rw written (_, refl, refl, refl)
]

unstated_back :
    (expr : Expressio)
    → expressio_from (some expr.theorem_src) (some expr.normalized_hash) ≡ none
    → expr.theorem_src ≡ ""
unstated_back expr lost = elim (Bool-cases (str_eq expr.theorem_src "")) [
  | inl empty ↦ (eq_iff expr.theorem_src "").0 empty
  | inr written ↦ absurd (cc (rw written at lost))
]

module _ (name : String) (now : ℕ) (prop : Propositio) where
  abbrev back : Propositio
  back = replayed (to_row name now prop) prop.finish_reason prop.enuntiatio.claim_type

  reads_back : row_to_prop (to_row name now prop) ≡ returned back
  unfolding row_to_prop to_row
  reads_back =
      rw (reason_back prop.finish_reason, claim_type_of-claim_type_value prop.enuntiatio.claim_type)

  back-IsReplay : IsReplay prop back
  unfolding to_row
  back-IsReplay = record {
    pid = refl;
    statement = refl;
    claim_type = refl;
    falsifiable_claim = refl;
    claim_property = refl;
    no_domain = refl;
    domain = λ full. ground (arith, eq_iff prop.enuntiatio.domain "");
    default_domain = λ empty. ground (arith, eq_iff prop.enuntiatio.domain "");
    born = refl;
    no_signature = refl;
    stated = λ expr has full. rw has (stated_back expr full);
    unstated = λ lost expr has. unstated_back expr (rw has at lost);
    never_stated = λ lacks. rw lacks refl;
    finish_reason = refl;
    parents = refl;
    seed_origin = refl;
    not_promulgated = refl;
    no_edges = refl;
    stamped = λ demo e. ground arith;
    unstamped = λ e demo has. ground arith;
  }

-- A remembered candidate is read back without a failure, as its replay: the same claim, time of birth,
-- parents, seed and reason, the same statement and hash where there is a statement, the proof exactly
-- where it was stamped, a default for an empty domain, and no edges, signature or promotion.
pub row_to_prop-to_row :
    (name : String) (now : ℕ) (prop : Propositio)
    → (back : Propositio) × (row_to_prop (to_row name now prop) ≡ returned back)
      × IsReplay prop back
row_to_prop-to_row name now prop =
    (back name now prop, reads_back name now prop, back-IsReplay name now prop)
