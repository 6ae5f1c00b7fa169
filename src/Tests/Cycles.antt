-- ===== src/Tests/Cycles.antt =====
-- Two cycles of the small run: a survey of one edge, a pattern miner, a cost ceiling, a controller.
use leibniz_daemon.Common.{
  String, true, false, ◌≡◌, refl, none, some, List, [], ◌∷◌, length, returned, arith,
}
use leibniz_daemon.Cost.{CostBudget}
use leibniz_daemon.Frontier.{Frontier, update, jump}
use leibniz_daemon.Frontier.Tuned.{IsUpdated, update-IsUpdated}
use leibniz_daemon.Cycles.{Cycling}
use leibniz_daemon.Cycles.Seeds.{Seeding, blend_mined, length-blend_mined}
use leibniz_daemon.Tests.Data.{daemon}

abbrev seeding : Seeding
seeding = record {
  leonardo = record {
    survey_frontier = λ domain. returned ("edge" ∷ "gap" ∷ []);
    cross_domain_analogies = λ edge. returned [];
  };
  domain = "analysis_of_algorithms";
  domains = [];
  weaken_k = 2;
  miner = some (λ k. returned ("COMPUTED PATTERN" ∷ []));
  mine_k = 1;
}

abbrev cycling : Cycling
cycling = record {
  daemon = daemon;
  seeding = seeding;
  env_override = λ model. none;
  metered = λ before after. [];
  save_frontier = λ f. returned tt;
  save_notebook = λ nb. returned tt;
  fresh_per_cycle = 2;
  recombine_k = 4;
  stagnation_limit = 2;
}

abbrev ceiling : CostBudget
ceiling = record {
  cap = 1000000;
  per_call = 100000;
  spent = 0;
  calls = 0;
  input_tokens = 0;
  output_tokens = 0;
  real = false;
}

abbrev two_seeds : List String
two_seeds = "edge" ∷ "gap" ∷ []

abbrev blended : List String
blended = "COMPUTED PATTERN" ∷ "gap" ∷ []

length-blended : length blended ≡ length two_seeds
unfolding blend_mined
length-blended = length-blend_mined seeding two_seeds blended refl

-- On the floor, with one proof in four outcomes, for the third time.
abbrev frontier : Frontier
frontier = record {
  target = 150;
  window = 8;
  aim = 350;
  floor = 150;
  ceil = 850;
  pin_limit = 3;
  recent = true ∷ false ∷ false ∷ false ∷ [];
  jumps = 0;
  pinned = 2;
  off_aim = λ proofs outcomes. true;
  homed = λ target proofs outcomes. target;
}

jumps_off : (update frontier).target ≡ 730
unfolding update jump
jumps_off = refl

update-IsUpdated_example : IsUpdated frontier (update frontier)
update-IsUpdated_example =
    update-IsUpdated frontier (omega arith) (omega arith) (omega arith) (omega arith)
