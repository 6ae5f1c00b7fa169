-- ===== src/Providers/Failover.antt =====
-- The chain answers with its first reasoner that has a non-empty answer, and fails only with all.
use leibniz_daemon.Common.{
  arith, String, Bool, true, false, ◌≡◌, refl, ◌≢◌, ◌↔◌, ◌⊎◌, inl, inr, Option, none, some, List,
  [], ◌∷◌, ◌++◌, All, Option-cases, Bool-cases, ap, subst, Outcome, raised, returned, strip, str_eq,
  eq_iff,
}
use leibniz_daemon.Providers.{
  Reasoner, FailoverProvider, is_available, nonempty, answer, first_answer, try_call,
}

-- The reasoner has no `available`, or it answers that it is.
abbrev pub IsUp : Reasoner → Type 0
IsUp q = (q.available ≡ none) ⊎ (q.available ≡ some (returned true))

-- The reasoner is up, has the method, and returns a text that is not blank.
pub record Answers (q : Reasoner) (method : String) (args : List String) (out : String)
    : Type 0 where
  pub fn : List String → Outcome String
  pub has_method : q.call method ≡ some fn
  pub up : IsUp q
  pub says : fn args ≡ returned out
  pub not_blank : strip out ≢ ""

abbrev pub IsSilent : String → List String → Reasoner → Type 0
IsSilent method args q = (out : String) → ¬ Answers q method args out

-- The reasoner stands in the chain after others that have no answer.
pub record IsFirst (chain : List Reasoner) (method : String) (args : List String) (p : Reasoner)
    (out : String) : Type 0 where
  pub before : List Reasoner
  pub after : List Reasoner
  pub chain_is : chain ≡ before ++ p ∷ after
  pub silent : All (IsSilent method args) before
  pub answers : Answers p method args out

available_as :
    (q : Reasoner) (o : Option (Outcome Bool))
    → q.available ≡ o
    → (is_available q ≡ true) ↔ ((o ≡ none) ⊎ (o ≡ some (returned true)))
unfolding is_available
available_as q none e = ((λ h. inl refl), λ h. rw (e, is_available) refl)
available_as q (some raised) e =
    ((λ h. absurd (cc (rw (e, is_available) at h))), λ h. absurd (ground (arith, h)))
available_as q (some (returned true)) e = ((λ h. inr refl), λ h. rw (e, is_available) refl)
available_as q (some (returned false)) e =
    ((λ h. absurd (cc (rw (e, is_available) at h))), λ h. absurd (ground (arith, h)))

is_available_iff : (q : Reasoner) → (is_available q ≡ true) ↔ IsUp q
is_available_iff q = available_as q q.available refl

-- What a reasoner answers, by whether its text is blank.
said_text :
    (o : Outcome String) (out : String)
    → nonempty o ≡ some out
    → (o ≡ returned out) × (strip out ≢ "")
said_text raised out h = cc h
said_text (returned s) out h = elim (Bool-cases (str_eq (strip s) "")) [
  | inl blank ↦ absurd (cc (rw blank at h))
  | inr full ↦
      let same : s ≡ out = cc (rw full at h) in
      (ap returned same, subst (λ x. strip x ≢ "") same (λ e. cc ((eq_iff (strip s) "").1 e, full)))
]

answer-Answers :
    (q : Reasoner) (method : String) (args : List String) (out : String)
    → answer q method args ≡ some out
    → Answers q method args out
unfolding answer
answer-Answers q method args out h = elim (Option-cases (q.call method)) [
  | inl lacks ↦ absurd (cc (rw (lacks, answer) at h))
  | inr (fn, has) ↦ elim (Bool-cases (is_available q)) [
    | inr down ↦ absurd (cc (rw (has, down, answer) at h))
    | inl up ↦
        let (says, full) = said_text (fn args) out (rw (has, up, answer) at h) in
        record {
          fn = fn;
          has_method = has;
          up = (is_available_iff q).0 up;
          says = says;
          not_blank = full;
        }
  ]
]

Answers-answer :
    (q : Reasoner) (method : String) (args : List String) (out : String)
    → Answers q method args out
    → answer q method args ≡ some out
unfolding answer
Answers-answer q method args out h = elim (Bool-cases (str_eq (strip out) "")) [
  | inl blank ↦ absurd (h.not_blank ((eq_iff (strip out) "").0 blank))
  | inr full ↦ rw (h.has_method, (is_available_iff q).1 h.up, h.says, answer) (rw full refl)
]

none-IsSilent :
    (q : Reasoner) (method : String) (args : List String)
    → answer q method args ≡ none
    → IsSilent method args q
none-IsSilent q method args e out h = cc (e, Answers-answer q method args out h)

first_answer-IsFirst :
    (chain : List Reasoner) (method : String) (args : List String)
    → ((first_answer chain method args ≡ none) × All (IsSilent method args) chain)
      ⊎ ((p : Reasoner) × (out : String) × (first_answer chain method args ≡ some (p, out))
          × IsFirst chain method args p out)
unfolding first_answer
first_answer-IsFirst [] method args = inl (refl, tt)
first_answer-IsFirst (p ∷ ps) method args = elim (Option-cases (answer p method args)) [
  | inr (out, e) ↦ inr (
    p,
    out,
    rw (e, first_answer) refl,
    record {
      before = [];
      after = ps;
      chain_is = refl;
      silent = tt;
      answers = answer-Answers p method args out e;
    },
  )
  | inl e ↦ elim (first_answer-IsFirst ps method args) [
    | inl (none', all') ↦ inl (rw (e, first_answer) none', (none-IsSilent p method args e, all'))
    | inr (q, out, found, first) ↦ inr (
      q,
      out,
      rw (e, first_answer) found,
      record {
        before = p ∷ first.before;
        after = first.after;
        chain_is = ap (λ xs. p ∷ xs) first.chain_is;
        silent = (none-IsSilent p method args e, first.silent);
        answers = first.answers;
      },
    )
  ]
]

-- A call of the chain fails only where no reasoner is up, has the method and returns a text that is
-- not blank, and changes nothing then; otherwise it returns the text of the first that does, and
-- remembers its name.
pub try_call-IsFirst :
    (fp : FailoverProvider) (method : String) (args : List String)
    → ((try_call fp method args ≡ (fp, raised)) × All (IsSilent method args) fp.providers)
      ⊎ ((p : Reasoner) × (out : String) × (try_call fp method args
            ≡ (record fp { last_used = some p.name }, returned out))
          × IsFirst fp.providers method args p out)
unfolding try_call
try_call-IsFirst fp method args = elim (first_answer-IsFirst fp.providers method args) [
  | inl (e, all') ↦ inl (rw (e, try_call) refl, all')
  | inr (p, out, e, first) ↦ inr (p, out, rw (e, try_call) refl, first)
]
