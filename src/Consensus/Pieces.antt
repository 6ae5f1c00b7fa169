-- ===== src/Consensus/Pieces.antt =====
-- Normalizing a draft only cuts: the proof is a contiguous piece of what the prover wrote.
use Prim.Native.Char.{code}
use Prim.Native.String.{[], ◌∷◌, ◌++◌}
use Prim.Native.String.append
use text.Mathlib.TextLemmas.{append-nil, append_assoc}
use leibniz_daemon.Common.{
  String, true, ◌&&◌, ◌≡◌, refl, sym, ap, ◌∙◌, inl, inr, some, str_eq, strip, lstrip, rstrip,
  is_space, arith, Option-cases, subst, either_branch, eq_iff,
}
use leibniz_daemon.Consensus.Normalize.{
  split_once, after_prefix, drop_language, before_fence, unfence, drop_header, restates,
  normalize_proof,
}

-- A contiguous piece of a text.
pub record IsPiece (whole piece : String) : Type 0 where
  pub before : String
  pub after : String
  pub joined : whole ≡ before ++ (piece ++ after)

whole-IsPiece : (s : String) → IsPiece s s
whole-IsPiece s = record {
  before = "";
  after = "";
  joined = sym (append.nil (s ++ []) ∙ append-nil s);
}

suffix-IsPiece : (before s : String) → IsPiece (before ++ s) s
suffix-IsPiece before s = record {
  before = before;
  after = "";
  joined = ap (λ x. before ++ x) (sym (append-nil s));
}

prefix-IsPiece : (s after : String) → IsPiece (s ++ after) s
prefix-IsPiece s after = record {
  before = "";
  after = after;
  joined = sym (append.nil (s ++ after));
}

IsPiece-trans : {a b c : String} → IsPiece a b → IsPiece b c → IsPiece a c
IsPiece-trans {a} {b} {c} p q = record {
  before = p.before ++ q.before;
  after = q.after ++ p.after;
  joined =
      p.joined
      ∙ ap (λ x. p.before ++ (x ++ p.after)) q.joined
      ∙ ap (λ x. p.before ++ x) (append_assoc q.before (c ++ q.after) p.after)
      ∙ ap (λ x. p.before ++ (q.before ++ x)) (append_assoc c q.after p.after)
      ∙ sym (append_assoc p.before q.before (c ++ (q.after ++ p.after)));
}

after_char : (c : _) (s t : String) → IsPiece s t → IsPiece (c ∷ s) t
after_char c s t p = record {
  before = c ∷ p.before;
  after = p.after;
  joined = ap (λ x. c ∷ x) p.joined ∙ sym (append.cons c p.before (t ++ p.after));
}

lstrip-IsPiece : (s : String) → IsPiece s (lstrip s)
unfolding lstrip
lstrip-IsPiece [] = whole-IsPiece []
lstrip-IsPiece (c ∷ s) =
    either_branch (IsPiece (c ∷ s)) (is_space (code c)) (lstrip s) (c ∷ s)
      (after_char c s (lstrip s) (lstrip-IsPiece s)) (whole-IsPiece (c ∷ s))

rstrip_prefix : (s : String) → (after : String) × (s ≡ rstrip s ++ after)
unfolding rstrip
rstrip_prefix [] = ([], refl)
rstrip_prefix (c ∷ s) =
    let (after, e) = rstrip_prefix s in
    either_branch (λ x. (after' : String) × (c ∷ s ≡ x ++ after'))
      (is_space (code c) && str_eq (rstrip s) "") [] (c ∷ rstrip s)
      (c ∷ s, sym (append.nil (c ∷ s)))
      (after, ap (λ x. c ∷ x) e ∙ sym (append.cons c (rstrip s) after))

pub strip-IsPiece : (s : String) → IsPiece s (strip s)
unfolding strip
strip-IsPiece s =
    let (after, e) = rstrip_prefix (lstrip s) in
    IsPiece-trans (lstrip-IsPiece s) (
      subst (λ x. IsPiece x (rstrip (lstrip s))) (sym e) (prefix-IsPiece (rstrip (lstrip s)) after))

pub after_prefix_joined :
    (sep s after : String) → after_prefix sep s ≡ some after → s ≡ sep ++ after
unfolding after_prefix
after_prefix_joined [] s after e =
    let same : s ≡ after = ground arith in same ∙ sym (append.nil after)
after_prefix_joined (p ∷ sep) [] after e = cc
after_prefix_joined (p ∷ sep) (c ∷ s) after e =
    let test : str_eq (p ∷ "") (c ∷ "") ≡ true = ground arith in
    let same : (c ∷ "") ≡ (p ∷ "") = sym ((eq_iff (p ∷ "") (c ∷ "")).0 test) in
    let tail = after_prefix_joined sep s after (ground arith) in
    let head : c ≡ p = cc same in
    ap (λ x. c ∷ x) tail ∙ ap (λ x. x ∷ (sep ++ after)) head ∙ sym (append.cons p sep after)

-- The two parts of a split, with the separator between them, are the text.
pub split_once_joined :
    (sep s : String) (r : String × String) → split_once sep s ≡ some r → s ≡ r.0 ++ (sep ++ r.1)
unfolding split_once
split_once_joined sep [] r e = cc
split_once_joined sep (c ∷ s) r e = elim (Option-cases (after_prefix sep (c ∷ s))) [
  | inr (after, found) ↦
      let same : ("", after) ≡ r = cc (rw (found, split_once) at e) in
      subst (λ (x : String × String). c ∷ s ≡ x.0 ++ (sep ++ x.1)) same
        (after_prefix_joined sep (c ∷ s) after found ∙ sym (append.nil (sep ++ after)))
  | inl absent ↦ elim (Option-cases (split_once sep s)) [
    | inl none1 ↦ absurd (cc (rw (absent, none1, split_once) at e))
    | inr (q, found) ↦
        let same : (c ∷ q.0, q.1) ≡ r = cc (rw (absent, found, split_once) at e) in
        subst (λ (x : String × String). c ∷ s ≡ x.0 ++ (sep ++ x.1)) same
          (ap (λ x. c ∷ x) (split_once_joined sep s q found) ∙ sym (append.cons c q.0 (sep ++ q.1)))
  ]
]

-- Either part of a split is a piece of the text.
before-IsPiece : (sep s : String) (r : String × String) → split_once sep s ≡ some r → IsPiece s r.0
before-IsPiece sep s r e =
    subst (λ x. IsPiece x r.0) (sym (split_once_joined sep s r e)) (prefix-IsPiece r.0 (sep ++ r.1))

after-IsPiece : (sep s : String) (r : String × String) → split_once sep s ≡ some r → IsPiece s r.1
after-IsPiece sep s r e =
    subst (λ x. IsPiece x r.1) (append_assoc r.0 sep r.1 ∙ sym (split_once_joined sep s r e))
      (suffix-IsPiece (r.0 ++ sep) r.1)

before_fence-IsPiece : (s : String) → IsPiece s (before_fence s)
unfolding before_fence
before_fence-IsPiece s = elim (Option-cases (split_once "```" s)) [
  | inl whole ↦ rw (whole, before_fence) (whole-IsPiece s)
  | inr (r, split) ↦ rw (split, before_fence) (before-IsPiece "```" s r split)
]

drop_language-IsPiece : (lower : String → String) (s : String) → IsPiece s (drop_language lower s)
unfolding drop_language
drop_language-IsPiece lower s = elim (Option-cases (split_once "\n" s)) [
  | inl whole ↦ rw (whole, drop_language) (whole-IsPiece s)
  | inr (r, split) ↦
      rw (split, drop_language)
        (either_branch (IsPiece s) _ r.1 s (after-IsPiece "\n" s r split) (whole-IsPiece s))
]

unfence-IsPiece : (lower : String → String) (s : String) → IsPiece s (unfence lower s)
unfolding unfence
unfence-IsPiece lower s = elim (Option-cases (split_once "```" s)) [
  | inl whole ↦ rw (whole, unfence) (whole-IsPiece s)
  | inr (r, split) ↦
      rw (split, unfence)
        (IsPiece-trans (after-IsPiece "```" s r split) (
          IsPiece-trans (before_fence-IsPiece r.1) (
            IsPiece-trans (drop_language-IsPiece lower (before_fence r.1))
              (strip-IsPiece (drop_language lower (before_fence r.1))))))
]

drop_header-IsPiece : (s : String) → IsPiece s (drop_header s)
unfolding drop_header
drop_header-IsPiece s = elim (Option-cases (split_once ":=" s)) [
  | inl whole ↦ rw (whole, drop_header) (whole-IsPiece s)
  | inr (r, split) ↦
      rw (split, drop_header)
        (either_branch (IsPiece s) (restates r.0) (strip r.1) s
          (IsPiece-trans (after-IsPiece ":=" s r split) (strip-IsPiece r.1)) (whole-IsPiece s))
]

-- Whatever a prover writes, the normalized proof is a contiguous piece of it.
pub normalize_proof-IsPiece :
    (lower : String → String) (text : String) → IsPiece text (normalize_proof lower text)
unfolding normalize_proof
normalize_proof-IsPiece lower text = IsPiece-trans (strip-IsPiece text) (
    IsPiece-trans (unfence-IsPiece lower (strip text))
      (drop_header-IsPiece (unfence lower (strip text))))
