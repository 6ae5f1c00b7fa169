-- ===== src/Tools/Confirmed.antt =====
-- `_accept_or_defer` accepts what the registry's own re-checker and template confirm, nothing else.
use leibniz_daemon.Common.{
  ap, ◌∙◌, str_eq, String, true, ◌≡◌, refl, ◌≢◌, ◌⊎◌, inl, inr, Option, none, some, List, [], ◌∷◌,
  arith, lookup, returned, Option-cases, Bool-cases, subst, >>=-eq-returned, returned-injective,
  eq_iff,
}
use leibniz_daemon.Types.{pass, fail, mechanical, text}
use leibniz_daemon.Gates.Sound.{Certificate}
use leibniz_daemon.Tools.{
  Tool, ToolRegistry, ToolResult, ToolEvidence, Rechecker, StatementTemplate, offered,
  claimed_statement, compare_statement, bind_statement, recheck_and_bind, accept_or_defer,
  insert_by_cost, by_cost, deferral,
}

claimed_text :
    (c : Certificate) (s : String)
    → claimed_statement c ≡ some s
    → lookup "statement" c.details ≡ some (text s)
unfolding claimed_statement
claimed_text c s e = ground arith

pub offered_facts :
    (r : ToolResult) (c : Certificate)
    → offered r ≡ some c
    → (r.verdict ≡ pass) × (r.certificate ≡ some c)
unfolding offered
offered_facts r c e = (ground arith, ground arith)

module _ {Ctx : Type 0} where
  abbrev pub Registered : Tool Ctx → List (Tool Ctx) → Type 0
  Registered t [] = ⊥
  Registered t (u ∷ us) = (t ≡ u) ⊎ Registered t us

  Registered-insert_by_cost :
      (t u : Tool Ctx) (us : List (Tool Ctx))
      → Registered t (insert_by_cost u us)
      → (t ≡ u) ⊎ Registered t us
  unfolding insert_by_cost
  Registered-insert_by_cost t u [] h = h
  Registered-insert_by_cost t u (v ∷ vs) h = ground (arith, Registered-insert_by_cost t u vs)

  pub Registered-by_cost :
      (t : Tool Ctx) (us : List (Tool Ctx)) → Registered t (by_cost us) → Registered t us
  unfolding by_cost
  Registered-by_cost t [] h = h
  Registered-by_cost t (u ∷ us) h =
      ground (arith, Registered-insert_by_cost t u (by_cost us), Registered-by_cost t us)

  -- The certificate's kind has a re-checker and a template; the re-checker confirms the certificate,
  -- and its claimed statement is the text that the template renders from its data.
  pub record IsConfirmed (reg : ToolRegistry Ctx) (c : Certificate) : Type 0 where
    pub rechecker : Rechecker
    pub template : StatementTemplate
    pub statement : String
    pub has_rechecker : lookup c.kind reg.recheckers ≡ some rechecker
    pub has_template : lookup c.kind reg.templates ≡ some template
    pub confirms : rechecker c ≡ returned true
    pub renders : template c.payload ≡ returned (some statement)
    pub claims : lookup "statement" c.details ≡ some (text statement)

  -- A registered tool applied, and its result passed with the certificate.
  pub record IsOffer (reg : ToolRegistry Ctx) (ctx : Ctx) (t : Tool Ctx) (r : ToolResult)
      (c : Certificate) : Type 0 where
    pub registered : Registered t reg.tools
    pub applied : t.applies ctx ≡ returned true
    pub ran : t.run ctx ≡ returned r
    pub passed : r.verdict ≡ pass
    pub carried : r.certificate ≡ some c

  -- What `_accept_or_defer` says: never a failure, and a PASS of a confirmed certificate only.
  pub record IsAnswer (reg : ToolRegistry Ctx) (t : Tool Ctx) (c : Certificate) (ev : ToolEvidence)
      : Type 0 where
    pub tier_is : ev.tier ≡ mechanical
    pub no_fail : ev.verdict ≢ fail
    pub on_pass :
        ev.verdict ≡ pass
        → IsConfirmed reg c × (ev.tool ≡ t.descriptor.name) × (ev.rechecked_by_registry ≡ true)

  deferral-IsAnswer :
      (reg : ToolRegistry Ctx) (t : Tool Ctx) (r : ToolResult) (c : Certificate) (why : String)
      (ev : ToolEvidence)
      → returned (deferral t r c why) ≡ returned ev
      → IsAnswer reg t c ev
  deferral-IsAnswer reg t r c why ev e =
      subst (IsAnswer reg t c) (returned-injective e)
        (record { tier_is = refl; no_fail = λ h. cc; on_pass = λ h. cc })

  module _ (reg : ToolRegistry Ctx) (t : Tool Ctx) (r : ToolResult) (c : Certificate) where
    module _ (recheck : Rechecker) (template : StatementTemplate)
        (has_recheck : lookup c.kind reg.recheckers ≡ some recheck)
        (has_template : lookup c.kind reg.templates ≡ some template)
        (confirms : recheck c ≡ returned true) where
      compare_statement-IsAnswer :
          (claimed : String) (rendered : Option String)
          → claimed_statement c ≡ some claimed
          → template c.payload ≡ returned rendered
          → IsAnswer reg t c (compare_statement t r c claimed rendered)
      unfolding compare_statement
      compare_statement-IsAnswer claimed none e h = record {
        tier_is = refl;
        no_fail = λ h. cc;
        on_pass = λ h. cc;
      }
      compare_statement-IsAnswer claimed (some s) e h = elim (Bool-cases (str_eq s claimed)) [
        | inl same ↦ record {
          tier_is = ground arith;
          no_fail = ground arith;
          on_pass = λ _. (
            record {
              rechecker = recheck;
              template = template;
              statement = s;
              has_rechecker = has_recheck;
              has_template = has_template;
              confirms = confirms;
              renders = h;
              claims =
                  let eq : claimed ≡ s = ground (arith, eq_iff s claimed) in
                  claimed_text c s (e ∙ ap some eq);
            },
            ground arith,
            ground arith,
          );
        }
        | inr other ↦ record {
          tier_is = ground arith;
          no_fail = ground arith;
          on_pass = λ p. absurd (ground arith);
        }
      ]

      bind_statement-IsAnswer :
          (ev : ToolEvidence) → bind_statement t r c template ≡ returned ev → IsAnswer reg t c ev
      unfolding bind_statement
      bind_statement-IsAnswer ev e = elim (Option-cases (claimed_statement c)) [
        | inl missing ↦ deferral-IsAnswer reg t r c _ ev (rw (missing, bind_statement) at e)
        | inr (claimed, has) ↦
            let (rendered, got, made) =
              >>=-eq-returned (template c.payload)
                (λ x. returned (compare_statement t r c claimed x))
                (rw (has, bind_statement) at e) in
            subst (IsAnswer reg t c) (returned-injective made)
              (compare_statement-IsAnswer claimed rendered has got)
      ]

    recheck_and_bind-IsAnswer :
        (recheck : Rechecker) (template : StatementTemplate) (ev : ToolEvidence)
        → lookup c.kind reg.recheckers ≡ some recheck
        → lookup c.kind reg.templates ≡ some template
        → recheck_and_bind t r c recheck template ≡ returned ev
        → IsAnswer reg t c ev
    unfolding recheck_and_bind
    recheck_and_bind-IsAnswer recheck template ev hr ht e =
        let (b, said, rest) = >>=-eq-returned (recheck c) _ e in
        elim (Bool-cases b) [
          | inl holds ↦
              bind_statement-IsAnswer recheck template hr ht (said ∙ ap returned holds) ev
                (rw holds at rest)
          | inr fails ↦ deferral-IsAnswer reg t r c _ ev (rw fails at rest)
        ]

    pub accept_or_defer-IsAnswer :
        (ev : ToolEvidence) → accept_or_defer reg t r c ≡ returned ev → IsAnswer reg t c ev
    unfolding accept_or_defer
    accept_or_defer-IsAnswer ev e = elim (Option-cases (lookup c.kind reg.recheckers)) [
      | inl none1 ↦ deferral-IsAnswer reg t r c _ ev (rw (none1, accept_or_defer) at e)
      | inr (recheck, hr) ↦ elim (Option-cases (lookup c.kind reg.templates)) [
        | inl none2 ↦ deferral-IsAnswer reg t r c _ ev (rw (hr, none2, accept_or_defer) at e)
        | inr (template, ht) ↦
            recheck_and_bind-IsAnswer recheck template ev hr ht (rw (hr, ht, accept_or_defer) at e)
      ]
    ]
