-- ===== src/Runtime.antt =====
-- leibniz/runtime.py: the persistent memory, its write barrier and the circadian phase. The ledger
-- is the table `memory`, in `rowid` order; a runtime is a connection to it. SQLite's own failures
-- are outside the model; `INSERT OR REPLACE` drops the row with the same `pid` and appends.
pub mod Barrier
pub mod RoundTrip
use leibniz_daemon.Common.{
  ℕ, String, Bool, true, false, not, ◌&&◌, Option, none, some, List, [], ◌∷◌, ◌++◌, map, leb, ltb,
  if◌then◌else◌, str_eq, any, keep, take, truthy, Outcome, raised, returned, ◌>>=◌,
}
use leibniz_daemon.Types.{ClaimType, FinishReason, claim_type_value, finish_reason_value}
use leibniz_daemon.Types.Values.{claim_type_of, finish_reason_of}
use leibniz_daemon.Propositio.{Propositio, Enuntiatio, Expressio, Demonstratio}
use mathlib.Core.List.{reverse}

unfoldable pub phase_for_hour : ℕ → String
phase_for_hour hour =
    if leb 6 hour && ltb hour 22 then "WAKE" else if leb 2 hour && ltb hour 6 then "REM" else "NREM"

-- One row, by the columns of `_SCHEMA`.
pub record Row : Type 0 where
  pub pid : String
  pub born : ℕ
  pub ts : ℕ
  pub statement : String
  pub claim_type : String
  pub falsifiable_claim : String
  pub domain : String
  pub theorem_src : Option String
  pub normalized_hash : Option String
  pub kernel_verified : Bool
  pub qed : String
  pub proof_src : Option String
  pub finish_reason : Option String
  pub parents : List String
  pub instance_name : Option String
  pub claim_property : Option String
  pub seed_origin : Option String
  pub claim_domain : Option String

abbrev pub Ledger : Type 0
Ledger = List Row

pub record Runtime : Type 0 where
  pub instance_name : String
  pub connected : Bool

-- `instance IS NOT NULL AND instance != ?`
unfoldable pub foreign : String → Row → Bool
foreign name row = elim row.instance_name [ none ↦ false | some other ↦ not (str_eq other name) ]

-- `_db`: the barrier is read when the connection is opened.
unfoldable pub open_db : Runtime → Ledger → Outcome Runtime
open_db rt ledger =
    if rt.connected
    then returned rt
    else if any (foreign rt.instance_name) ledger
    then raised
    else returned (record rt { connected = true })

abbrev theorem_of : Option Expressio → Option String
theorem_of none = none
theorem_of (some ex) = some ex.theorem_src

abbrev hash_of : Option Expressio → Option String
hash_of none = none
hash_of (some ex) = some ex.normalized_hash

abbrev verified_of : Option Demonstratio → Bool
verified_of none = false
verified_of (some de) = de.kernel_verified

abbrev qed_of : Option Demonstratio → String
qed_of none = "Q.E.I."
qed_of (some de) = de.qed

abbrev proof_of : Option Demonstratio → Option String
proof_of none = none
proof_of (some de) = de.proof_src

abbrev reason_of : Option FinishReason → Option String
reason_of none = none
reason_of (some reason) = some (finish_reason_value reason)

-- The row that `remember` writes.
unfoldable pub to_row : String → ℕ → Propositio → Row
to_row name now prop =
    let en = prop.enuntiatio in
    record {
      pid = prop.pid;
      born = prop.born;
      ts = now;
      statement = en.statement;
      claim_type = claim_type_value en.claim_type;
      falsifiable_claim = en.falsifiable_claim;
      domain = en.domain;
      theorem_src = theorem_of prop.expressio;
      normalized_hash = hash_of prop.expressio;
      kernel_verified = verified_of prop.demonstratio;
      qed = qed_of prop.demonstratio;
      proof_src = proof_of prop.demonstratio;
      finish_reason = reason_of prop.finish_reason;
      parents = prop.parents;
      instance_name = some name;
      claim_property = en.claim_property;
      seed_origin = prop.seed_origin;
      claim_domain = en.claim_domain;
    }

-- `INSERT OR REPLACE`
unfoldable pub upsert : Row → Ledger → Ledger
upsert row ledger = keep (λ (r : Row). not (str_eq r.pid row.pid)) ledger ++ row ∷ []

unfoldable pub remember : Runtime → ℕ → Propositio → Ledger → Outcome (Runtime × Ledger)
remember rt now prop ledger = do
  rt' ← open_db rt ledger
  returned (rt', upsert (to_row rt.instance_name now prop) ledger)

-- `ORDER BY ts DESC, rowid DESC`: newest first, and of two rows with one time the later one.
insert_newest : Row → Ledger → Ledger
insert_newest row [] = row ∷ []
insert_newest row (r ∷ rs) = if leb r.ts row.ts then row ∷ r ∷ rs else r ∷ insert_newest row rs

newest_first : Ledger → Ledger → Ledger
newest_first [] sorted = sorted
newest_first (r ∷ rs) sorted = newest_first rs (insert_newest r sorted)

-- `_row_to_prop`; `ClaimType(...)` and `FinishReason(...)` raise on a value that is not theirs.
abbrev reason_from : Option String → Outcome (Option FinishReason)
reason_from none = returned none
reason_from (some s) =
    if str_eq s ""
    then returned none
    else elim (finish_reason_of s) [ none ↦ raised | some reason ↦ returned (some reason) ]

abbrev or_text : String → String → String
or_text s fallback = if str_eq s "" then fallback else s

abbrev text_or : Option String → String
text_or none = ""
text_or (some s) = s

abbrev pub expressio_from : Option String → Option String → Option Expressio
expressio_from none hash = none
expressio_from (some src) hash =
    if str_eq src ""
    then none
    else some (record {
      theorem_src = src;
      imports = "Mathlib" ∷ [];
      preamble = "";
      normalized_hash = text_or hash;
      compiles = none;
      established_domain = none;
      proof_hints = "";
      walnut_predicate = none;
      walnut_numeration = none;
      property_descriptor = none;
    })

-- The candidate that a row is read back as, once its reason and its claim type are known.
abbrev pub replayed : Row → Option FinishReason → ClaimType → Propositio
replayed row reason claim = record {
  enuntiatio = record {
    statement = row.statement;
    claim_type = claim;
    falsifiable_claim = row.falsifiable_claim;
    domain = or_text row.domain "analysis_of_algorithms";
    claim_domain = none;
    claim_property = row.claim_property;
  };
  expressio = expressio_from row.theorem_src row.normalized_hash;
  demonstratio =
      if row.kernel_verified
      then some (record {
        proof_obligation = row.pid;
        proof_src = row.proof_src;
        kernel_verified = true;
        qed = row.qed;
      })
      else none;
  pid = row.pid;
  born = row.born;
  parents = row.parents;
  signature = none;
  edges = [];
  promulgated = false;
  finish_reason = reason;
  behavior_descriptor = [];
  seed_origin = row.seed_origin;
}

abbrev or_raise {ℓ} : {A : Type ℓ} → Option A → Outcome A
or_raise none = raised
or_raise (some a) = returned a

unfoldable pub row_to_prop : Row → Outcome Propositio
row_to_prop row = do
  reason ← reason_from row.finish_reason
  claim ← or_raise (claim_type_of row.claim_type)
  returned (replayed row reason claim)

-- `[_row_to_prop(r) for r in rows]`
rows_to_props : List Row → Outcome (List Propositio)
rows_to_props [] = returned []
rows_to_props (r ∷ rs) = do p ← row_to_prop r; ps ← rows_to_props rs; returned (p ∷ ps)

unfoldable pub recall_recent : Runtime → ℕ → Ledger → Outcome (Runtime × List Propositio)
unfolding insert_newest newest_first rows_to_props
recall_recent rt n ledger = do
  rt' ← open_db rt ledger
  props ← rows_to_props (take n (newest_first ledger []))
  returned (rt', props)
