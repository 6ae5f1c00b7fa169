-- ===== src/Frontier/Tuned.antt =====
-- The difficulty stays within its bounds, and the controller is never stuck against one.
use leibniz_daemon.Common.{
  ◌⊎◌, inl, inr, ◌+◌, ◌*◌, ◌/◌, ◌%◌, max, sym, subst, ltb, ℕ, ◌-◌, ◌≤◌, ◌<◌, Bool, true, false, ◌≡◌,
  refl, [], ◌∷◌, ◌++◌, arith, if◌then◌else◌, length, length-append, length-drop, either_branch,
}
use leibniz_daemon.Frontier.{
  Frontier, record_proved, clamp, jump, home, update, must_jump, proofs, at_floor, jittered,
}

-- The target lies between the bounds, the pin count below its limit, and the outcomes in the window.
pub record IsTuned (f : Frontier) : Type 0 where
  pub above_floor : f.floor ≤ f.target
  pub below_ceil : f.target ≤ f.ceil
  pub unpinned : f.pinned < f.pin_limit
  pub in_window : length f.recent ≤ f.window

pub record_proved-IsTuned :
    (b : Bool) (f : Frontier) → 0 < f.window → IsTuned f → IsTuned (record_proved b f)
unfolding record_proved
record_proved-IsTuned b f w h = record {
  above_floor = h.above_floor;
  below_ceil = h.below_ceil;
  unpinned = h.unpinned;
  in_window = ground (
    arith,
    h.in_window,
    length-append f.recent (b ∷ []),
    length-drop (length (f.recent ++ b ∷ []) - f.window) (f.recent ++ b ∷ []),
  );
}

clamped : (f : Frontier) (x : ℕ) → f.floor ≤ f.ceil → (f.floor ≤ clamp f x) × (clamp f x ≤ f.ceil)
clamped f x h = (omega (arith, h), omega (arith, h))

jump-IsTuned : (f : Frontier) → f.floor ≤ f.ceil → 0 < f.pin_limit → IsTuned (jump f)
unfolding jump
jump-IsTuned f h k = record {
  above_floor = (clamped f _ h).0;
  below_ceil = (clamped f _ h).1;
  unpinned = k;
  in_window = omega arith;
}

home-IsTuned :
    (f : Frontier) → f.floor ≤ f.ceil → must_jump f ≡ false → IsTuned f → IsTuned (home f)
unfolding home
home-IsTuned f h calm t =
    let (lo, hi) = clamped f (f.homed f.target (proofs f.recent) (length f.recent)) h in
    record {
      above_floor = either_branch (λ x. f.floor ≤ x) _ _ f.target lo t.above_floor;
      below_ceil = either_branch (λ x. x ≤ f.ceil) _ _ f.target hi t.below_ceil;
      unpinned = ground (arith, calm);
      in_window = t.in_window;
    }

moved-IsTuned :
    (f : Frontier) (b : Bool)
    → must_jump f ≡ b
    → f.floor ≤ f.ceil
    → IsTuned f
    → IsTuned (if b then jump f else home f)
moved-IsTuned f true e h t = jump-IsTuned f h (omega (arith, t.unpinned))
moved-IsTuned f false e h t = home-IsTuned f h e t

update-IsTuned : (f : Frontier) → f.floor ≤ f.ceil → IsTuned f → IsTuned (update f)
unfolding update
update-IsTuned f h t =
    either_branch IsTuned _ f (if must_jump f then jump f else home f) t
      (moved-IsTuned f (must_jump f) refl h t)

jump_up :
    (f : Frontier)
    → at_floor f ≡ true
    → f.floor < f.ceil
    → f.floor < 570
    → f.floor < (jump f).target
unfolding jump
jump_up f here h k =
    let far : 570 ≤ jittered 650 ((f.jumps + 1) % 5) = ground arith in
    rw here (omega (arith, far, h, k))

jump_down :
    (f : Frontier) → at_floor f ≡ false → f.floor < f.ceil → 430 < f.ceil → (jump f).target < f.ceil
unfolding jump
jump_down f off h k =
    let near : jittered 350 ((f.jumps + 1) % 5) ≤ 430 = ground arith in
    rw off (omega (arith, near, h, k))

-- There are enough outcomes for an update.
abbrev pub HasOutcomes : Frontier → Type 0
HasOutcomes f = max 3 (f.window / 2) ≤ length f.recent

jumps_now : (f : Frontier) → HasOutcomes f → must_jump f ≡ true → update f ≡ jump f
unfolding update
jumps_now f enough e =
    let full : ltb (length f.recent) (max 3 (f.window / 2)) ≡ false = ground arith in
    rw (full, e) refl

-- Nothing was proved at this bound, or the rate has been on the wrong side of the aim there for as
-- many updates as the limit says, this one included.
abbrev pub MustLeaveFloor : Frontier → Type 0
MustLeaveFloor f =
    (proofs f.recent ≡ 0)
    ⊎ ((1000 * proofs f.recent < f.aim * length f.recent) × (f.pin_limit ≤ f.pinned + 1))

abbrev pub MustLeaveCeil : Frontier → Type 0
MustLeaveCeil f =
    (proofs f.recent ≡ 0)
    ⊎ ((f.aim * length f.recent < 1000 * proofs f.recent) × (f.pin_limit ≤ f.pinned + 1))

must_jump_floor : (f : Frontier) → f.target ≡ f.floor → MustLeaveFloor f → must_jump f ≡ true
must_jump_floor f at (inl none1) = ground arith
must_jump_floor f at (inr (below, pinned)) = ground arith

must_jump_ceil : (f : Frontier) → f.target ≡ f.ceil → MustLeaveCeil f → must_jump f ≡ true
must_jump_ceil f at (inl none1) = ground arith
must_jump_ceil f at (inr (above, pinned)) = ground arith

-- What an update leaves behind: a tuned controller, off a bound that had to be left.
pub record IsUpdated (f after : Frontier) : Type 0 where
  pub tuned : IsTuned after
  pub off_floor : HasOutcomes f → f.target ≡ f.floor → MustLeaveFloor f → f.floor < after.target
  pub off_ceil : HasOutcomes f → f.target ≡ f.ceil → MustLeaveCeil f → after.target < f.ceil

-- With bounds apart, the lower one under 0.57 and the upper one over 0.43: whatever the outcomes and
-- whatever the homing step proposes, an update keeps the target between the bounds and the pin count
-- under its limit. With enough outcomes the target leaves a bound at which nothing was proved, or at
-- which the rate was on the wrong side of the aim for the limit's number of updates.
pub update-IsUpdated :
    (f : Frontier)
    → f.floor < f.ceil
    → f.floor < 570
    → 430 < f.ceil
    → IsTuned f
    → IsUpdated f (update f)
update-IsUpdated f apart low high t = record {
  tuned = update-IsTuned f (omega (arith, apart)) t;
  off_floor = λ enough at must.
      subst (λ (g : Frontier). f.floor < g.target)
        (sym (jumps_now f enough (must_jump_floor f at must))) (jump_up f (ground arith) apart low);
  off_ceil = λ enough at must.
      subst (λ (g : Frontier). g.target < f.ceil)
        (sym (jumps_now f enough (must_jump_ceil f at must)))
        (jump_down f (ground arith) apart high);
}
