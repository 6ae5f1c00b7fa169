-- ===== src/Daemon/Tasks.antt =====
-- The daemon's calls: a step from a state to a state, with a value or an exception. What a call has
-- written when it raises stays written.
use leibniz_daemon.Common.{Outcome, raised, returned, ◌≡◌, ap, returned-injective}

-- What follows a call: the rest, where it returned.
abbrev pub followed : {σ A B : Type 0} → σ × Outcome A → (A → σ → σ × Outcome B) → σ × Outcome B
followed (s, raised) f = (s, raised)
followed (s, returned a) f = f a s

infixl 5 ◌>>=◌ ◌>>◌
abbrev pub ◌>>=◌ :
    {σ A B : Type 0} → (σ → σ × Outcome A) → (A → σ → σ × Outcome B) → σ → σ × Outcome B
(m >>= f) s = followed (m s) f

abbrev pub ◌>>◌ :
    {σ B : Type 0} → (σ → σ × Outcome (Unit {0})) → (σ → σ × Outcome B) → σ → σ × Outcome B
(m >> k) s = followed (m s) (λ _. k)

abbrev pub lift : {σ A : Type 0} → Outcome A → σ → σ × Outcome A
lift o s = (s, o)

abbrev pub modify : {σ : Type 0} → (σ → σ) → σ → σ × Outcome (Unit {0})
modify f s = (f s, returned tt)

abbrev pub get : {σ : Type 0} → σ → σ × Outcome σ
get s = (s, returned s)

abbrev pub done : {σ : Type 0} → σ → σ × Outcome (Unit {0})
done s = (s, returned tt)

-- What follows a call that returned.
pub followed-returned :
    {σ A B : Type 0} (r : σ × Outcome A) (f : A → σ → σ × Outcome B) (a : A)
    → r.1 ≡ returned a
    → followed r f ≡ f a r.0
followed-returned (s, raised) f a e = cc
followed-returned (s, returned b) f a e = ap (λ x. f x s) (returned-injective e)
