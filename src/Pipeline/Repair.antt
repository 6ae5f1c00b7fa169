-- ===== src/Pipeline/Repair.antt =====
-- `_compile_with_repair` of leibniz/pipeline.py: the compilation of a statement, with the mechanical
-- repair of its imports and the bounded repair by the provider.
use leibniz_daemon.Common.{
  ℕ, zero, suc, String, Bool, true, false, ◌&&◌, ◌||◌, ◌≡◌, refl, Option, none, some, List, [], ◌∷◌,
  if◌then◌else◌, str_eq, strip, Outcome, raised, returned, Option-cases, Bool-cases, inl, inr,
}
use leibniz_daemon.Types.{Role}
use leibniz_daemon.Propositio.{Expressio}
use leibniz_daemon.Verifiers.{LeanBackend, validate_statement}
use leibniz_daemon.Pipeline.Drafts.{Platform, parse_expressio, new_expressio}

-- The calls that the stages make of a provider; the two repairs are hooks that it may lack.
pub record Provider : Type 0 where
  pub propose : Role → String → Outcome String
  pub repair_formalization : Option (String → String → String → Outcome String)
  pub repair_contract : Option (String → String → String → String → List String → Outcome String)

same_texts : List String → List String → Bool
same_texts [] [] = true
same_texts (x ∷ xs) (y ∷ ys) = str_eq x y && same_texts xs ys
same_texts _ _ = false

abbrev answered : (Expressio → Bool × String) → Expressio → Expressio × Bool × String
answered compile expr = let (ok, err) = compile expr in (expr, ok, err)

-- The repair of the imports, tried once, where the first compilation failed.
unfoldable pub repair_imports :
    Platform → (Expressio → Bool × String) → Expressio → Bool × String → Expressio × Bool × String
unfolding same_texts
repair_imports os compile expr (true, err) = (expr, true, err)
repair_imports os compile expr (false, err) =
    let resolved = os.resolve_imports expr.imports in
    if same_texts resolved expr.imports
    then (expr, false, err)
    else answered compile (new_expressio expr.theorem_src resolved expr.established_domain)

abbrev useless : Expressio → Expressio → Bool
useless fresh expr =
    str_eq fresh.theorem_src "" || str_eq (strip fresh.theorem_src) (strip expr.theorem_src)

-- The expression of a repair that is of use: it did not fail, and it changed the statement.
unfoldable pub repaired : Platform → Expressio → Outcome String → Option Expressio
repaired os expr raised = none
repaired os expr (returned fixed) =
    if useless (parse_expressio os fixed) expr then none else some (parse_expressio os fixed)

-- The loop of at most `fuel` repairs by the provider.
unfoldable pub repair_loop :
    Platform
    → (Expressio → Bool × String)
    → (String → String → Outcome String)
    → ℕ
    → Expressio × Bool × String
    → Expressio × Bool
repair_loop os compile repair zero (expr, ok, err) = (expr, ok)
repair_loop os compile repair (suc n) (expr, true, err) = (expr, true)
repair_loop os compile repair (suc n) (expr, false, err) =
    elim (repaired os expr (repair expr.theorem_src err)) [
      | none ↦ (expr, false)
      | some fresh ↦ repair_loop os compile repair n (answered compile fresh)
    ]

unfoldable pub repair_with :
    Platform
    → Provider
    → (Expressio → Bool × String)
    → String
    → ℕ
    → Expressio × Bool × String
    → Expressio × Bool
repair_with os provider compile statement max_repairs (expr, ok, err) =
    elim provider.repair_formalization [
      | none ↦ (expr, ok)
      | some repair ↦ repair_loop os compile (repair statement) max_repairs (expr, ok, err)
    ]

unfoldable pub compile_with_repair :
    Platform → Provider → LeanBackend → String → Expressio → ℕ → Expressio × Bool
compile_with_repair os provider lean statement expr max_repairs = elim lean.compile_with_error [
  | none ↦ validate_statement os.digest lean expr
  | some compile ↦
      repair_with os provider compile statement max_repairs
        (repair_imports os compile expr (compile expr))
]

-- An answer is the compiler's own on the expression that goes with it.
abbrev Answered : (Expressio → Bool × String) → Expressio × Bool × String → Type 0
Answered compile (expr, ok, err) = compile expr ≡ (ok, err)

repair_imports-Answered :
    (os : Platform) (compile : Expressio → Bool × String) (expr : Expressio) (r : Bool × String)
    → compile expr ≡ r
    → Answered compile (repair_imports os compile expr r)
unfolding repair_imports
repair_imports-Answered os compile expr (true, err) e = e
repair_imports-Answered os compile expr (false, err) e =
    elim (Bool-cases (same_texts (os.resolve_imports expr.imports) expr.imports)) [
      | inl same ↦ rw same e
      | inr other ↦ rw other refl
    ]

repair_loop-ok :
    (os : Platform) (compile : Expressio → Bool × String)
    (repair : String → String → Outcome String) (n : ℕ) (r : Expressio × Bool × String)
    → Answered compile r
    → (repair_loop os compile repair n r).1 ≡ (compile (repair_loop os compile repair n r).0).0
unfolding repair_loop
repair_loop-ok os compile repair zero (expr, ok, err) a = rw a refl
repair_loop-ok os compile repair (suc n) (expr, true, err) a = rw a refl
repair_loop-ok os compile repair (suc n) (expr, false, err) a =
    elim (Option-cases (repaired os expr (repair expr.theorem_src err))) [
      | inl stop ↦ rw (stop, repair_loop, a) refl
      | inr (fresh, go) ↦
          rw (go, repair_loop) (repair_loop-ok os compile repair n (answered compile fresh) refl)
    ]

repair_with-ok :
    (os : Platform) (provider : Provider) (compile : Expressio → Bool × String) (statement : String)
    (n : ℕ) (r : Expressio × Bool × String)
    → Answered compile r
    → (repair_with os provider compile statement n r).1
      ≡ (compile (repair_with os provider compile statement n r).0).0
unfolding repair_with
repair_with-ok os provider compile statement n (expr, ok, err) a =
    elim (Option-cases provider.repair_formalization) [
      | inl lacks ↦ rw (lacks, a) refl
      | inr (repair, has) ↦
          rw has (repair_loop-ok os compile (repair statement) n (expr, ok, err) a)
    ]

-- Whatever is repaired, and however the provider answers, the answer is the backend's own on the
-- expression that is returned.
pub compile_with_repair-honest :
    (os : Platform) (provider : Provider) (lean : LeanBackend) (compile : Expressio → Bool × String)
    (statement : String) (expr : Expressio) (max_repairs : ℕ)
    → lean.compile_with_error ≡ some compile
    → (compile_with_repair os provider lean statement expr max_repairs).1
      ≡ (compile (compile_with_repair os provider lean statement expr max_repairs).0).0
unfolding compile_with_repair
compile_with_repair-honest os provider lean compile statement expr max_repairs has = rw has (
    repair_with-ok os provider compile statement max_repairs
      (repair_imports os compile expr (compile expr))
      (repair_imports-Answered os compile expr (compile expr) refl))
