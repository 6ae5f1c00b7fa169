-- ===== src/Calculemus.antt =====
-- leibniz/calculemus.py: the Codex of promulgated laws and its published part. The running instance
-- (`LEIBNIZ_INSTANCE`, stripped and in lower case) is an argument, as is the normal form of the
-- caller's confirmation; a refusal by RuntimeError is `raised`.
pub mod Publication
use leibniz_daemon.Common.{
  String, Bool, true, false, not, ◌&&◌, ◌||◌, Option, none, some, List, [], ◌∷◌, if◌then◌else◌,
  str_eq, contains, Dict, lookup, insert, is_some, Outcome, raised, returned,
}
use leibniz_daemon.Propositio.{Propositio, Demonstratio}

pub record Calculemus : Type 0 where
  pub codex : Dict Propositio
  pub published : List String

abbrev pub certified : Option Demonstratio → Bool
certified none = false
certified (some demo) = demo.kernel_verified && str_eq demo.qed "Q.E.D."

-- Returns the ledger after the call, and whether the law is admitted to the Codex.
unfoldable pub promulgate : Propositio → Calculemus → Calculemus × Bool
promulgate prop c =
    if not (prop.promulgated && certified prop.demonstratio)
    then (c, false)
    else (record c { codex = insert prop.pid prop c.codex }, true)

-- `published.add(pid)`
unfoldable pub add : String → List String → List String
add pid published = if contains published pid then published else pid ∷ published

-- `confirm_instance is None or confirm_instance.strip().lower() != instance`
abbrev unconfirmed : Option String → String → Bool
unconfirmed none running = true
unconfirmed (some confirmed) running = not (str_eq confirmed running)

unfoldable pub publish :
    String → String → Bool → Option String → Calculemus → Outcome (Calculemus × Bool)
publish running pid operator_approved confirm_instance c =
    if not (str_eq running "prod")
    then raised
    else if unconfirmed confirm_instance running
    then raised
    else if not operator_approved || not (is_some (lookup pid c.codex))
    then returned (c, false)
    else returned (record c { published = add pid c.published }, true)

-- The laws that `render_public` prints, and those that `colophon` holds back, in Codex order.
public_from : List String → Dict Propositio → List Propositio
public_from published [] = []
public_from published ((pid, prop) ∷ rest) =
    let more = public_from published rest in if contains published pid then prop ∷ more else more

held_from : List String → Dict Propositio → List Propositio
held_from published [] = []
held_from published ((pid, prop) ∷ rest) =
    let more = held_from published rest in if contains published pid then more else prop ∷ more

unfoldable pub render_public : Calculemus → List Propositio
unfolding public_from
render_public c = public_from c.published c.codex

unfoldable pub colophon : Calculemus → List Propositio
unfolding held_from
colophon c = held_from c.published c.codex
