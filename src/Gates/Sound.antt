-- ===== src/Gates/Sound.antt =====
-- leibniz/gates/sound_backends.py: certificates, verdicts and the interface of a sound backend.
-- A certificate's payload, which only the re-checkers read, is a text. A `check` may raise.
use leibniz_daemon.Common.{ℕ, String, Bool, false, ◌&&◌, Option, none, some, Dict, Outcome}
use leibniz_daemon.Types.{Verdict, is_pass, Item}
use leibniz_daemon.Propositio.{Propositio}

pub record Certificate : Type 0 where
  pub kind : String
  pub rechecked : Bool
  pub payload : String
  pub details : Dict Item

pub record FaithfulnessVerdict : Type 0 where
  pub verdict : Verdict
  pub producer : String
  pub certificate : Option Certificate
  pub details : Dict Item

unfoldable pub is_pass_with_certificate : FaithfulnessVerdict → Bool
is_pass_with_certificate v =
    is_pass v.verdict && elim v.certificate [ none ↦ false | some c ↦ c.rechecked ]

pub record SoundBackend : Type 0 where
  pub name : String
  pub cost_rank : ℕ
  pub applies : Propositio → Bool
  pub check : Propositio → Outcome FaithfulnessVerdict
