-- ===== src/Frontier.antt =====
-- leibniz/discovery.py, the difficulty controller: a thermostat on the proof-success rate. A fraction
-- (the target, the aim, the bounds) is a number of thousandths, as the source rounds it. The sign
-- of the rate's error is exact. Whether the error passes the dead band, and the homing step
-- (`target - gain * err`, rounded), are fields, since they are float arithmetic; the source bounds
-- what the step gives.
pub mod Tuned
use leibniz_daemon.Common.{
  ℕ, zero, suc, ◌+◌, ◌-◌, ◌*◌, ◌/◌, ◌%◌, max, min, ◌==◌, String, Bool, true, false, not, ◌&&◌, ◌||◌,
  List, [], ◌∷◌, ◌++◌, leb, ltb, if◌then◌else◌, length, drop,
}

pub record Frontier : Type 0 where
  pub target : ℕ
  pub window : ℕ
  pub aim : ℕ
  pub floor : ℕ
  pub ceil : ℕ
  pub pin_limit : ℕ
  pub recent : List Bool
  pub jumps : ℕ
  pub pinned : ℕ
  -- `abs(err) > 0.05`, of the proofs and the outcomes of the window
  pub off_aim : ℕ → ℕ → Bool
  -- of the target, the proofs and the outcomes of the window
  pub homed : ℕ → ℕ → ℕ → ℕ

-- `del recent[:-window]`, which deletes nothing for a window of 0.
abbrev pub last_outcomes : ℕ → List Bool → List Bool
last_outcomes window recent = if window == 0 then recent else drop (length recent - window) recent

-- `FrontierController.record`
unfoldable pub record_proved : Bool → Frontier → Frontier
record_proved proved f = record f { recent = last_outcomes f.window (f.recent ++ proved ∷ []) }

-- `sum(recent)`
abbrev pub proofs : List Bool → ℕ
proofs [] = 0
proofs (true ∷ bs) = suc (proofs bs)
proofs (false ∷ bs) = proofs bs

abbrev pub clamp : Frontier → ℕ → ℕ
clamp f x = min f.ceil (max f.floor x)

-- `base + jitter`, by the number of the jump
abbrev pub jittered : ℕ → ℕ → ℕ
jittered base k =
    if k == 0
    then base
    else if k == 1
    then base + 80
    else if k == 2
    then base - 80
    else if k == 3
    then base + 40
    else base - 40

abbrev pub at_floor : Frontier → Bool
at_floor f = leb f.target f.floor

abbrev pub at_ceil : Frontier → Bool
at_ceil f = leb f.ceil f.target

-- The rate against the aim: below it (`err > 0`) and above it.
abbrev pub below_aim : Frontier → Bool
below_aim f = ltb (1000 * proofs f.recent) (f.aim * length f.recent)

abbrev pub above_aim : Frontier → Bool
above_aim f = ltb (f.aim * length f.recent) (1000 * proofs f.recent)

abbrev pub saturated : Frontier → Bool
saturated f = (at_floor f && below_aim f) || (at_ceil f && above_aim f)

abbrev pub pinned_next : Frontier → ℕ
pinned_next f = if saturated f then f.pinned + 1 else 0

-- Nothing proves at a bound, or the controller has been pinned against one for long.
abbrev pub must_jump : Frontier → Bool
must_jump f = (proofs f.recent == 0 && (at_floor f || at_ceil f)) || leb f.pin_limit (pinned_next f)

-- The opposite half, with a window that starts again.
unfoldable pub jump : Frontier → Frontier
jump f = record f {
  jumps = f.jumps + 1;
  target = clamp f (jittered (if at_floor f then 650 else 350) ((f.jumps + 1) % 5));
  recent = [];
  pinned = 0;
}

unfoldable pub home : Frontier → Frontier
home f = record f {
  pinned = pinned_next f;
  target =
      if f.off_aim (proofs f.recent) (length f.recent)
      then clamp f (f.homed f.target (proofs f.recent) (length f.recent))
      else f.target;
}

-- `FrontierController.update`
unfoldable pub update : Frontier → Frontier
update f =
    if ltb (length f.recent) (max 3 (f.window / 2))
    then f
    else if must_jump f
    then jump f
    else home f
