-- ===== src/Tools/Grounds.antt =====
-- What a verdict of the tool registry rests on.
use leibniz_daemon.Common.{
  ap, ◌∙◌, true, false, ◌≡◌, refl, ◌≢◌, ◌⊎◌, inl, inr, Option, none, some, List, [], ◌∷◌, arith,
  returned, Option-cases, Bool-cases, subst, >>=-eq-returned, returned-injective, if◌then◌else◌,
}
use leibniz_daemon.Types.{pass, fail, defer, mechanical, Verdict, is_pass, is_fail}
use leibniz_daemon.Gates.Sound.{Certificate}
use leibniz_daemon.Tools.{
  Tool, ToolRegistry, ToolResult, ToolEvidence, offered, accept_or_defer, or_undecided, by_cost,
  settle_result, try_tool, run_tools, run,
}
use leibniz_daemon.Tools.Confirmed.{
  Registered, Registered-by_cost, IsConfirmed, IsOffer, IsAnswer, accept_or_defer-IsAnswer,
  offered_facts,
}

-- What the loop carries along: no decision.
abbrev Undecided : ToolEvidence → Type 0
Undecided ev = (ev.tier ≡ mechanical) × (ev.verdict ≡ defer)

abbrev IsCarried : Option ToolEvidence → Type 0
IsCarried last = (ev : ToolEvidence) → last ≡ some ev → Undecided ev

or_undecided-Undecided :
    (last : Option ToolEvidence) → IsCarried last → Undecided (or_undecided last)
or_undecided-Undecided none h = (refl, refl)
or_undecided-Undecided (some ev) h = h ev refl

verdict_left : (v : Verdict) → is_pass v ≡ false → v ≢ fail → v ≡ defer
verdict_left v h k = ground arith

module _ {Ctx : Type 0} where
  -- What each verdict of the registry rests on.
  pub record IsGrounded (reg : ToolRegistry Ctx) (ctx : Ctx) (ev : ToolEvidence) : Type 0 where
    pub is_mechanical : ev.tier ≡ mechanical
    pub on_pass :
        ev.verdict ≡ pass
        → (t : Tool Ctx) × (r : ToolResult) × (c : Certificate) × IsOffer reg ctx t r c
          × IsConfirmed reg c
          × (ev.tool ≡ t.descriptor.name)
          × (ev.rechecked_by_registry ≡ true)
    pub on_fail :
        ev.verdict ≡ fail
        → (t : Tool Ctx) × (r : ToolResult) × Registered t reg.tools
          × (t.applies ctx ≡ returned true)
          × (t.run ctx ≡ returned r)
          × (r.verdict ≡ fail)
          × (ev.tool ≡ t.descriptor.name)

  abbrev Settles : ToolRegistry Ctx → Ctx → ToolEvidence ⊎ Option ToolEvidence → Type 0
  Settles reg ctx (inl ev) = IsGrounded reg ctx ev
  Settles reg ctx (inr kept) = IsCarried kept

  module _ (reg : ToolRegistry Ctx) (ctx : Ctx) where
    Undecided-IsGrounded : (ev : ToolEvidence) → Undecided ev → IsGrounded reg ctx ev
    Undecided-IsGrounded ev (tier, v) = record {
      is_mechanical = tier;
      on_pass = λ h. cc (v, h);
      on_fail = λ h. cc (v, h);
    }

    module _ (t : Tool Ctx) (registered : Registered t reg.tools)
        (applied : t.applies ctx ≡ returned true) (r : ToolResult)
        (ran : t.run ctx ≡ returned r) where
      answer-Settles :
          (c : Certificate) (ev : ToolEvidence)
          → offered r ≡ some c
          → IsAnswer reg t c ev
          → Settles reg ctx (if is_pass ev.verdict then inl ev else inr (some ev))
      answer-Settles c ev o h = elim (Bool-cases (is_pass ev.verdict)) [
        | inl passes ↦ rw passes (record {
          is_mechanical = h.tier_is;
          on_pass = λ p.
              let (confirmed, name, mark) = h.on_pass p in
              let (v, carried) = offered_facts r c o in
              (
                t,
                r,
                c,
                record {
                  registered = registered;
                  applied = applied;
                  ran = ran;
                  passed = v;
                  carried = carried;
                },
                confirmed,
                name,
                mark,
              );
          on_fail = λ f. absurd (h.no_fail f);
        })
        | inr falls ↦ rw falls (λ kept e.
            let same : ev ≡ kept = ground arith in
            subst Undecided same (h.tier_is, verdict_left ev.verdict falls h.no_fail))
      ]

      settle_result-Settles :
          (last : Option ToolEvidence) (out : ToolEvidence ⊎ Option ToolEvidence)
          → IsCarried last
          → settle_result reg t r last ≡ returned out
          → Settles reg ctx out
      unfolding settle_result
      settle_result-Settles last out h e = elim (Bool-cases (is_fail r.verdict)) [
        | inl fails ↦
            subst (Settles reg ctx) (returned-injective (rw (fails, settle_result) at e)) (record {
              is_mechanical = refl;
              on_pass = λ p. cc;
              on_fail = λ _. (t, r, registered, applied, ran, ground arith, refl);
            })
        | inr goes_on ↦ elim (Option-cases (offered r)) [
          | inl empty ↦
              subst (Settles reg ctx) (returned-injective (rw (goes_on, empty, settle_result) at e))
                h
          | inr (c, o) ↦
              let (ev, answered, made) =
                >>=-eq-returned (accept_or_defer reg t r c)
                  (λ x. returned (if is_pass x.verdict then inl x else inr (some x)))
                  (rw (goes_on, o, settle_result) at e) in
              subst (Settles reg ctx) (returned-injective made)
                (answer-Settles c ev o (accept_or_defer-IsAnswer reg t r c ev answered))
        ]
      ]

    try_tool-Settles :
        (t : Tool Ctx) (last : Option ToolEvidence) (out : ToolEvidence ⊎ Option ToolEvidence)
        → Registered t reg.tools
        → IsCarried last
        → try_tool reg ctx t last ≡ returned out
        → Settles reg ctx out
    unfolding try_tool
    try_tool-Settles t last out registered h e =
        let (b, asked, rest) = >>=-eq-returned (t.applies ctx) _ e in
        elim (Bool-cases b) [
          | inl holds ↦
              let (r, ran, settled) =
                >>=-eq-returned (t.run ctx) (λ x. settle_result reg t x last) (rw holds at rest) in
              settle_result-Settles t registered (asked ∙ ap returned holds) r ran last out h
                settled
          | inr skips ↦ subst (Settles reg ctx) (returned-injective (rw skips at rest)) h
        ]

    run_tools-IsGrounded :
        (ts : List (Tool Ctx)) (last : Option ToolEvidence) (ev : ToolEvidence)
        → ((t : Tool Ctx) → Registered t ts → Registered t reg.tools)
        → IsCarried last
        → run_tools reg ctx ts last ≡ returned ev
        → IsGrounded reg ctx ev
    unfolding run_tools
    run_tools-IsGrounded [] last ev within h e =
        subst (IsGrounded reg ctx) (returned-injective e)
          (Undecided-IsGrounded (or_undecided last) (or_undecided-Undecided last h))
    run_tools-IsGrounded (t ∷ ts) last ev within h e =
        let (out, tried, rest) = >>=-eq-returned (try_tool reg ctx t last) _ e in
        go out (try_tool-Settles t last out (within t (inl refl)) h tried)
          (λ kept s k. run_tools-IsGrounded ts kept ev (λ u m. within u (inr m)) s k) rest
      where
        go :
            (out : ToolEvidence ⊎ Option ToolEvidence)
            → Settles reg ctx out
            → ((kept : Option ToolEvidence)
                → IsCarried kept
                → run_tools reg ctx ts kept ≡ returned ev
                → IsGrounded reg ctx ev)
            → (elim out [ inl x ↦ returned x | inr kept ↦ run_tools reg ctx ts kept ]) ≡ returned ev
            → IsGrounded reg ctx ev
        go (inl x) s loop k = subst (IsGrounded reg ctx) (returned-injective k) s
        go (inr kept) s loop k = loop kept s k

  -- Whatever the registry answers carries the mechanical tier, a DEFER and a FAIL that no re-checker has
  -- seen included. A PASS rests on a registered tool that
  -- applied and passed with a certificate whose kind has a re-checker, which confirmed it, and a
  -- template, which renders the claimed statement from the certificate's data. A FAIL is the FAIL
  -- of a registered tool that applied, re-checked or not.
  pub run-IsGrounded :
      (reg : ToolRegistry Ctx) (ctx : Ctx) (ev : ToolEvidence)
      → run reg ctx ≡ returned ev
      → IsGrounded reg ctx ev
  unfolding run
  run-IsGrounded reg ctx ev e =
      run_tools-IsGrounded reg ctx (by_cost reg.tools) none ev
        (λ t m. Registered-by_cost t reg.tools m) (λ x h. cc) e
