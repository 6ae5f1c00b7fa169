-- ===== src/Tools/Dormant.antt =====
-- A tool decides nothing until an operator admits its certificate's kind.
use leibniz_daemon.Common.{
  String, true, ◌≡◌, ◌≢◌, List, [], ◌∷◌, arith, lookup, lookup-insert, contains, is_some, returned,
  lookup-nil, ap, ◌∙◌, sym,
}
use leibniz_daemon.Types.{pass}
use leibniz_daemon.Gates.Sound.{Certificate}
use leibniz_daemon.Tools.{
  Tool, ToolRegistry, ToolEvidence, ToolResult, Rechecker, StatementTemplate, new_registry,
  register_tool, register_decider, run,
}
use leibniz_daemon.Tools.Confirmed.{IsOffer}
use leibniz_daemon.Tools.Grounds.{run-IsGrounded}

module _ {Ctx : Type 0} where
  -- A registry that grew from the empty one, with the kinds that an operator has admitted.
  pub data Grown : List String → ToolRegistry Ctx → Type 0 where
    start : Grown [] new_registry
    add_tool :
        {kinds : List String} {reg : ToolRegistry Ctx} (tool : Tool Ctx)
        → Grown kinds reg
        → Grown kinds (register_tool tool reg)
    admit_kind :
        {kinds : List String} {reg : ToolRegistry Ctx} (kind : String) (rechecker : Rechecker)
        (template : StatementTemplate)
        → Grown kinds reg
        → Grown (kind ∷ kinds) (register_decider kind rechecker template reg)

  Grown-recheckers :
      {kinds : List String} {reg : ToolRegistry Ctx} (k : String)
      → Grown kinds reg
      → is_some (lookup k reg.recheckers) ≡ contains kinds k
  unfolding register_tool register_decider
  Grown-recheckers k start = ap is_some (lookup-nil {V = Rechecker} k)
  Grown-recheckers k (add_tool tool h) = Grown-recheckers k h
  Grown-recheckers k (admit_kind {kinds} {reg} kind rechecker template h) =
      ground (arith, lookup-insert kind k rechecker reg.recheckers, Grown-recheckers k h)

  -- Whatever tools are added and kinds are admitted, in whatever order, the registry passes only a
  -- certificate of an admitted kind that an added tool offered.
  pub Grown-passes_admitted :
      {kinds : List String} {reg : ToolRegistry Ctx} (ctx : Ctx) (ev : ToolEvidence)
      → Grown kinds reg
      → run reg ctx ≡ returned ev
      → ev.verdict ≡ pass
      → (t : Tool Ctx) × (r : ToolResult) × (c : Certificate) × IsOffer reg ctx t r c
        × (contains kinds c.kind ≡ true)
  Grown-passes_admitted {kinds} {reg} ctx ev grown e p =
      let (t, r, c, offer, confirmed, name, mark) = (run-IsGrounded reg ctx ev e).on_pass p in
      (t, r, c, offer, sym (Grown-recheckers c.kind grown) ∙ ap is_some confirmed.has_rechecker)

  -- With no kind admitted, no tool is passed.
  pub Grown-dormant :
      {reg : ToolRegistry Ctx} (ctx : Ctx) (ev : ToolEvidence)
      → Grown [] reg
      → run reg ctx ≡ returned ev
      → ev.verdict ≢ pass
  Grown-dormant ctx ev grown e p =
      let (t, r, c, offer, h) = Grown-passes_admitted ctx ev grown e p in cc h
