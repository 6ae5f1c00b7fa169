-- ===== src/Tests/Chain.antt =====
-- A chain whose first reasoner is down and whose second answers with white space.
use leibniz_daemon.Common.{
  String, Bool, ◌≡◌, refl, ◌⊎◌, Option, none, some, [], ◌∷◌, All, Outcome, raised, returned, strip,
}
use leibniz_daemon.Providers.{
  Reasoner, FailoverProvider, is_available, answer, first_answer, try_call,
}
use leibniz_daemon.Providers.Failover.{IsSilent, IsFirst, try_call-IsFirst}

abbrev named : String → Option (Outcome Bool) → Outcome String → Reasoner
named name available out = record {
  name = name;
  available = available;
  call = λ method. some (λ args. out);
}

abbrev chain : FailoverProvider
chain = record {
  providers =
      named "down" none raised
      ∷ named "blank" none (returned "  ")
      ∷ named "backup" none (returned "by simp")
      ∷ [];
  last_used = none;
}

backup_answers :
    try_call chain "propose" [] ≡ (record chain { last_used = some "backup" }, returned "by simp")
unfolding try_call first_answer answer is_available strip
backup_answers = refl

try_call-IsFirst_example :
    ((try_call chain "propose" [] ≡ (chain, raised)) × All (IsSilent "propose" []) chain.providers)
    ⊎ ((p : Reasoner) × (out : String) × (try_call chain "propose" []
          ≡ (record chain { last_used = some p.name }, returned out))
        × IsFirst chain.providers "propose" [] p out)
try_call-IsFirst_example = try_call-IsFirst chain "propose" []
