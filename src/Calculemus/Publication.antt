-- ===== src/Calculemus/Publication.antt =====
-- Every way to the public ledger: what has been published was promulgated with a kernel's Q.E.D.
-- and approved and confirmed on the production instance.
use leibniz_daemon.Common.{
  ◌+◌, String, Bool, true, false, ◌≡◌, refl, ◌≢◌, ◌⊎◌, inl, inr, Option, none, some, List, [], ◌∷◌,
  arith, str_eq, eq_iff, contains, Dict, lookup, insert, lookup-insert, lookup-nil, length,
  returned, Bool-cases, Option-cases, subst, sym, if◌then◌else◌, ◌&&◌,
}
use leibniz_daemon.Propositio.{Propositio, Demonstratio}
use leibniz_daemon.Calculemus.{
  Calculemus, certified, promulgate, publish, add, public_from, held_from, render_public, colophon,
}

-- A law with a kernel's certificate.
abbrev pub IsLaw : Propositio → Type 0
IsLaw prop =
    (prop.promulgated ≡ true)
    × ((demo : Demonstratio) × (prop.demonstratio ≡ some demo)
        × (demo.kernel_verified ≡ true)
        × (demo.qed ≡ "Q.E.D."))

-- Only laws are in the Codex, and what is published is in it.
pub record IsSound (c : Calculemus) : Type 0 where
  pub laws : (pid : String) (prop : Propositio) → lookup pid c.codex ≡ some prop → IsLaw prop
  pub held : (pid : String) → contains c.published pid ≡ true → lookup pid c.codex ≢ none

-- One call of the operator's or of the daemon's.
pub data Step (c : Calculemus) : Calculemus → Type 0 where
  promulgates : (prop : Propositio) → Step c (promulgate prop c).0
  publishes :
      (running pid : String) (approved : Bool) (confirm : Option String) (d : Calculemus)
      (done : Bool)
      → publish running pid approved confirm c ≡ returned (d, done)
      → Step c d

pub data Reach (c : Calculemus) : Calculemus → Type 0 where
  here : Reach c c
  next : {d e : Calculemus} → Reach c d → Step d e → Reach c e

split_from :
    (published : List String) (d : Dict Propositio)
    → length (public_from published d) + length (held_from published d) ≡ length d
unfolding public_from held_from
split_from published [] = refl
split_from published ((pid, prop) ∷ rest) = ground (arith, split_from published rest)

certified-IsLaw :
    (prop : Propositio) → prop.promulgated ≡ true → certified prop.demonstratio ≡ true → IsLaw prop
certified-IsLaw prop p h = elim (Option-cases prop.demonstratio) [
  | inl e ↦ absurd (ground arith)
  | inr (demo, e) ↦ (p, (demo, e, ground arith, ground (arith, eq_iff demo.qed "Q.E.D.")))
]

promulgate-IsSound :
    (prop : Propositio) (c : Calculemus) → IsSound c → IsSound (promulgate prop c).0
unfolding promulgate
promulgate-IsSound prop c s = elim (Bool-cases (prop.promulgated && certified prop.demonstratio)) [
  | inr no' ↦ rw no' s
  | inl yes' ↦
      let law = certified-IsLaw prop (ground arith) (ground arith) in
      rw yes' (record {
        laws = λ pid q e. admitted pid q (lookup-insert prop.pid pid prop c.codex) e law;
        held = λ pid on e. s.held pid on (missed pid (lookup-insert prop.pid pid prop c.codex) e);
      })
]
  where
    admitted :
        (pid : String) (q : Propositio)
        → lookup pid (insert prop.pid prop c.codex)
          ≡ (if str_eq prop.pid pid then some prop else lookup pid c.codex)
        → lookup pid (insert prop.pid prop c.codex) ≡ some q
        → IsLaw prop
        → IsLaw q
    admitted pid q at e law = elim (Bool-cases (str_eq prop.pid pid)) [
      | inl same ↦ let e' : prop ≡ q = ground arith in subst IsLaw e' law
      | inr other ↦ s.laws pid q (ground arith)
    ]

    missed :
        (pid : String)
        → lookup pid (insert prop.pid prop c.codex)
          ≡ (if str_eq prop.pid pid then some prop else lookup pid c.codex)
        → lookup pid (insert prop.pid prop c.codex) ≡ none
        → lookup pid c.codex ≡ none
    missed pid at e = ground arith

-- A publication needs the production instance, its confirmation, the approval and a law of the
-- Codex, all four, and adds that law alone; a call that returns false changes nothing.
pub publish_exact :
    (running pid : String) (approved : Bool) (confirm : Option String) (c d : Calculemus)
    (done : Bool)
    → publish running pid approved confirm c ≡ returned (d, done)
    → (running ≡ "prod")
      × (confirm ≡ some "prod")
      × (d.codex ≡ c.codex)
      × ((done ≡ true)
          → (approved ≡ true) × (lookup pid c.codex ≢ none) × (d.published ≡ add pid c.published))
      × ((done ≡ false) → (d ≡ c) × ((approved ≡ false) ⊎ (lookup pid c.codex ≡ none)))
unfolding publish
publish_exact running pid approved none c d done h = absurd (ground arith)
publish_exact running pid approved (some confirmed) c d done h =
    let prod : running ≡ "prod" = ground (arith, eq_iff running "prod") in
    let same : confirmed ≡ running = ground (arith, eq_iff confirmed running) in
    (prod, cc (prod, same), ground arith, ground arith, ground arith)

contains-add :
    (pid other : String) (published : List String)
    → contains (add pid published) other ≡ true
    → (pid ≡ other) ⊎ (contains published other ≡ true)
unfolding add
contains-add pid other published h = ground (arith, eq_iff pid other)

publish-IsSound :
    (running pid : String) (approved : Bool) (confirm : Option String) (c d : Calculemus)
    (done : Bool)
    → publish running pid approved confirm c ≡ returned (d, done)
    → IsSound c
    → IsSound d
publish-IsSound running pid approved confirm c d true h s =
    let (prod, conf, codex, added, _) = publish_exact running pid approved confirm c d true h in
    let (ok, held, published) = added refl in
    record {
      laws = λ q prop e. s.laws q prop (subst (λ x. lookup q x ≡ some prop) codex e);
      held = λ q on e.
          elim (contains-add pid q c.published (subst (λ x. contains x q ≡ true) published on)) [
            | inl same ↦ held (
                subst (λ x. lookup pid x ≡ none) codex
                  (subst (λ x. lookup x d.codex ≡ none) (sym same) e))
            | inr old ↦ s.held q old (subst (λ x. lookup q x ≡ none) codex e)
          ];
    }
publish-IsSound running pid approved confirm c d false h s =
    let (prod, conf, codex, _, kept) = publish_exact running pid approved confirm c d false h in
    subst IsSound (sym (kept refl).0) s

-- From a sound ledger every reachable ledger is sound: what is published is a law of the Codex that
-- carries the kernel's Q.E.D.
pub Reach-IsSound : {c d : Calculemus} → IsSound c → Reach c d → IsSound d
Reach-IsSound s here = s
Reach-IsSound s (next r (promulgates prop)) = promulgate-IsSound prop _ (Reach-IsSound s r)
Reach-IsSound s (next r (publishes running pid approved confirm e done h)) =
    publish-IsSound running pid approved confirm _ e done h (Reach-IsSound s r)

abbrev pub empty : Calculemus
empty = record { codex = []; published = [] }

pub empty-IsSound : IsSound empty
empty-IsSound = record {
  laws = λ pid prop e. absurd (ground (arith, e, lookup-nil {V = Propositio} pid));
  held = λ pid on e. absurd (ground (arith, on));
}

-- Every law of the Codex is printed or held back, never both.
pub public_or_held :
    (c : Calculemus) → length (render_public c) + length (colophon c) ≡ length c.codex
unfolding render_public colophon
public_or_held c = split_from c.published c.codex
