-- ===== src/Structural/Meaning.antt =====
-- What a claim says of the integers that its variables stand for, independently of any polynomial.
use leibniz_daemon.Common.{
  ℕ, ◌==◌, Bool, true, false, not, ◌&&◌, ◌||◌, Option, none, some, if◌then◌else◌,
}
use leibniz_daemon.Structural.Integer.{ℤ, pos, negsuc, ◌+ℤ◌, ◌*ℤ◌, neg_ℤ, pow, residue}
use leibniz_daemon.Structural.Value.{Env}
use leibniz_daemon.Structural.Syntax.{
  Node, Nodes, Connective, Relop, constant, name, usub, binop, boolop, negation, comparison,
  collection, no_nodes, nodes, plus, minus, times, power, modulo, conj, disj, equal, differs,
  member, not_member, const_int,
}
use leibniz_daemon.Structural.Degenerate.{is_biconditional}

abbrev pub same_int : ℤ → ℤ → Bool
same_int (pos m) (pos n) = m == n
same_int (negsuc m) (negsuc n) = m == n
same_int (pos m) (negsuc n) = false
same_int (negsuc m) (pos n) = false

abbrev pub lift2 : {A B C : Type 0} → (A → B → C) → Option A → Option B → Option C
lift2 f none b = none
lift2 f (some a) none = none
lift2 f (some a) (some b) = some (f a b)

abbrev pub lift1 : {A B : Type 0} → (A → B) → Option A → Option B
lift1 f none = none
lift1 f (some a) = some (f a)

-- A power has a literal exponent; `%` has a literal modulus, which is not 0.
abbrev pub power_value : Option ℕ → Option ℤ → Option ℤ
power_value none v = none
power_value (some k) v = lift1 (λ x. pow x k) v

abbrev pub modulo_value : Option ℕ → Option ℤ → Option ℤ
modulo_value none v = none
modulo_value (some m) v = if m == 0 then none else lift1 (λ x. pos (residue m x)) v

-- The value of a term.
unfoldable pub value : Env → Node → Option ℤ
value env (constant n) = some (pos n)
value env (name x) = some (env x)
value env (usub n) = lift1 neg_ℤ (value env n)
value env (binop plus l r) = lift2 (λ x y. x +ℤ y) (value env l) (value env r)
value env (binop minus l r) = lift2 (λ x y. x +ℤ neg_ℤ y) (value env l) (value env r)
value env (binop times l r) = lift2 (λ x y. x *ℤ y) (value env l) (value env r)
value env (binop power l r) = power_value (const_int r) (value env l)
value env (binop modulo l r) = modulo_value (const_int r) (value env l)
value env _ = none

-- Whether a value is among those of a list of terms.
unfoldable pub among : Env → ℤ → Nodes → Option Bool
among env v no_nodes = some false
among env v (nodes n ns) = lift2 (λ x b. same_int v x || b) (value env n) (among env v ns)

abbrev pub among_if : Env → Nodes → Option ℤ → Option Bool
among_if env ns none = none
among_if env ns (some v) = among env v ns

abbrev pub xnor : Bool → Bool → Bool
xnor a b = if a then b else not b

-- The truth of an atom.
unfoldable pub atom_truth : Env → Relop → Node → Node → Option Bool
atom_truth env equal l r = lift2 same_int (value env l) (value env r)
atom_truth env differs l r = lift2 (λ x y. not (same_int x y)) (value env l) (value env r)
atom_truth env member l (collection ns) = among_if env ns (value env l)
atom_truth env not_member l (collection ns) = lift1 not (among_if env ns (value env l))
atom_truth env _ l r = none

abbrev pub bool_relation : Relop → Bool → Bool → Bool
bool_relation differs a b = not (xnor a b)
bool_relation _ a b = xnor a b

abbrev pub connect : Connective → Bool → Bool → Bool
connect conj a b = a && b
connect disj a b = a || b

abbrev pub unit_of : Connective → Bool
unit_of conj = true
unit_of disj = false

-- The truth of a claim.
unfoldable mutual
  pub truth : Env → Node → Option Bool
  truth env (boolop c ns) = truth_of_all env c ns
  truth env (negation n) = lift1 not (truth env n)
  truth env (comparison rel l r) =
      let p = truth env l in
      let q = truth env r in
      if is_biconditional rel l r then lift2 (bool_relation rel) p q else atom_truth env rel l r
  truth env _ = none

  pub truth_of_all : Env → Connective → Nodes → Option Bool
  truth_of_all env c no_nodes = some (unit_of c)
  truth_of_all env c (nodes n ns) = lift2 (connect c) (truth env n) (truth_of_all env c ns)
