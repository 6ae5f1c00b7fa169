-- ===== src/Gates/Faithfulness.antt =====
-- leibniz/gates/faithfulness.py: the gate between the formal statement and the claim. The probes,
-- the judge, the backends, the re-checkers and the templates are fields. A confidence and its
-- threshold are numbers on one scale (parts per million). A sound backend's check and the solver's
-- `decide_unsat` may raise; the other calls (`applies`, a probe, the judge, a re-checker, a template)
-- return.
mod Certificates
mod Retry
pub mod Rollback
pub mod Verdicts
pub mod Grounds
pub use Certificates.{FaithfulnessGate, ClaimProbe, mechanical_pass}
unfoldable pub use Certificates.{statement_bound, rechecks, accept_certificate}
pub use Retry.{rerendering_backends, with_domain, derived}
unfoldable pub use Retry.{domain_is_inhabited, retry_applies, attempt, retry_with_derived_domain}
use leibniz_daemon.Common.{
  truthy, ℕ, String, Bool, true, false, not, ◌&&◌, Option, none, some, List, [], ◌∷◌, ◌++◌, leb,
  if◌then◌else◌, Outcome, raised, returned, ◌>>=◌,
}
use leibniz_daemon.Types.{
  ClaimType, claim_type_value, is_open_form, EdgeEvidence, gamed, unfaithful, Verdict, pass, fail,
  defer, is_fail, is_defer, mechanical, adversarial, judged, Item, text, num, flag,
}
use leibniz_daemon.Trust.{faithfulness_edge, judge_producer}
use leibniz_daemon.Propositio.{Propositio, Enuntiatio, Expressio, quarantine}
use leibniz_daemon.Verifiers.{SmtBackend}
use leibniz_daemon.Gates.Sound.{SoundBackend, FaithfulnessVerdict}
use Prim.Native.String.{◌++◌ as str_append}

-- `_negate`
unfoldable pub negate : String → String
negate predicate = str_append "not (" (str_append predicate ")")

abbrev parens : String → String
parens s = str_append "(" (str_append s ")")

abbrev pub text_or_empty : Option String → String
text_or_empty none = ""
text_or_empty (some s) = s

-- What the gaming-witness search is asked: the statement and the negated claim.
unfoldable pub gaming_query : Enuntiatio → Expressio → String × String
unfolding negate
gaming_query en expr =
    if truthy en.claim_domain && truthy en.claim_property && truthy expr.established_domain
    then (
      negate (text_or_empty expr.established_domain),
      str_append (parens (text_or_empty en.claim_domain))
          (str_append " and " (negate (text_or_empty en.claim_property))),
    )
    else (expr.theorem_src, negate en.falsifiable_claim)

unfoldable pub gaming_witness : FaithfulnessGate → Enuntiatio → Expressio → Option String
unfolding gaming_query
gaming_witness g en expr =
    let (statement, negated_claim) = gaming_query en expr in
    g.smt.find_gaming_witness statement negated_claim g.gaming_bound

-- `sorted(backends, key=lambda b: b.cost_rank)`, which is stable.
unfoldable pub insert_by_rank : SoundBackend → List SoundBackend → List SoundBackend
insert_by_rank b [] = b ∷ []
insert_by_rank b (c ∷ cs) =
    if leb b.cost_rank c.cost_rank then b ∷ c ∷ cs else c ∷ insert_by_rank b cs

unfoldable pub by_rank : List SoundBackend → List SoundBackend
unfolding insert_by_rank
by_rank [] = []
by_rank (b ∷ bs) = insert_by_rank b (by_rank bs)

-- An entry of the verdict's own details comes first, and so wins.
abbrev pub refuted_by : SoundBackend → FaithfulnessVerdict → EdgeEvidence
refuted_by backend v = record {
  edge = faithfulness_edge;
  tier = mechanical;
  verdict = fail;
  details = v.details ++ ("backend", text backend.name) ∷ [];
  cost_units = 2;
  producer = some v.producer;
}

-- What the verdict of one backend that applies decides: evidence, or `none` to fall through. The
-- candidate is returned with what the round has written.
unfoldable pub settle_verdict :
    FaithfulnessGate
    → Propositio
    → Expressio
    → SoundBackend
    → FaithfulnessVerdict
    → Propositio × Option EdgeEvidence
settle_verdict g prop expr backend v =
    if is_fail v.verdict
    then (quarantine unfaithful prop, some (refuted_by backend v))
    else elim (accept_certificate g prop backend v) [
      | some ev ↦ (prop, some ev)
      | none ↦
          if is_defer v.verdict then retry_with_derived_domain g prop expr backend else (prop, none)
    ]

unfoldable pub consult :
    FaithfulnessGate
    → Propositio
    → Expressio
    → SoundBackend
    → Outcome (Propositio × Option EdgeEvidence)
consult g prop expr backend = do
  v ← backend.check prop
  returned (settle_verdict g prop expr backend v)

-- The loop over the backends.
unfoldable pub consult_all :
    FaithfulnessGate
    → Propositio
    → Expressio
    → List SoundBackend
    → Outcome (Propositio × Option EdgeEvidence)
consult_all g prop expr [] = returned (prop, none)
consult_all g prop expr (b ∷ bs) = elim (b.applies prop) [
  | true ↦ consult g prop expr b >>= λ r. elim r.1 [
    | some ev ↦ returned r
    | none ↦ consult_all g r.0 expr bs
  ]
  | false ↦ consult_all g prop expr bs
]

-- The mechanical fast path: evidence if there is a probe and it is decisive.
unfoldable pub probe_stage : FaithfulnessGate → Propositio → Propositio × Option EdgeEvidence
probe_stage g prop = elim (g.probes prop.enuntiatio.claim_type) [
  | none ↦ (prop, none)
  | some probe ↦ elim (probe prop) [
    | none ↦ (prop, none)
    | some result ↦ (
      (if result then prop else quarantine unfaithful prop),
      some (record {
        edge = faithfulness_edge;
        tier = mechanical;
        verdict = if result then pass else fail;
        details = ("probe", text (claim_type_value prop.enuntiatio.claim_type)) ∷ [];
        cost_units = 2;
        producer = some "ClaimProbe";
      }),
    )
  ]
]

-- The judged fallback, or the refusal to use it.
unfoldable pub judge_stage : FaithfulnessGate → Propositio → Propositio × EdgeEvidence
judge_stage g prop =
    if not (is_open_form prop.enuntiatio.claim_type)
    then (
      prop,
      record {
        edge = faithfulness_edge;
        tier = mechanical;
        verdict = defer;
        details = ("reason", text "no decisive probe for measurable claim") ∷ [];
        cost_units = 2;
        producer = some "FaithfulnessGate";
      },
    )
    else (let confidence = g.judge prop in
        let passed = leb g.judge_threshold confidence in
        (
          (if passed then prop else quarantine unfaithful prop),
          record {
            edge = faithfulness_edge;
            tier = judged;
            verdict = if passed then pass else fail;
            details = ("round_trip_confidence", num confidence) ∷ ("residual", flag true) ∷ [];
            cost_units = 3;
            producer = some judge_producer;
          },
        ))

-- A stage's evidence, or else what the later stages say.
abbrev pub or_else :
    Propositio × Option EdgeEvidence
    → (Propositio → Propositio × EdgeEvidence)
    → Propositio × EdgeEvidence
or_else (prop, some ev) rest = (prop, ev)
or_else (prop, none) rest = rest prop

-- What follows the adversarial spine.
unfoldable pub after_spine :
    FaithfulnessGate → Propositio → Expressio → Outcome (Propositio × EdgeEvidence)
after_spine g prop expr = do
  r ← consult_all g prop expr (by_rank g.sound_backends)
  returned (or_else r (λ p. or_else (probe_stage g p) (judge_stage g)))

unfoldable pub check_with :
    FaithfulnessGate → Propositio → Expressio → Outcome (Propositio × EdgeEvidence)
check_with g prop expr = elim (gaming_witness g prop.enuntiatio expr) [
  | some witness ↦ returned (
    quarantine gamed prop,
    record {
      edge = faithfulness_edge;
      tier = adversarial;
      verdict = fail;
      details = ("gaming_witness", text witness) ∷ [];
      cost_units = 2;
      producer = some "SMTVerifier.gaming_witness";
    },
  )
  | none ↦ after_spine g prop expr
]

-- `FaithfulnessGate.check`; its assertion raises.
unfoldable pub check : FaithfulnessGate → Propositio → Outcome (Propositio × EdgeEvidence)
check g prop = elim prop.expressio [ none ↦ raised | some expr ↦ check_with g prop expr ]
