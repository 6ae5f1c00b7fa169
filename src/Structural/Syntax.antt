-- ===== src/Structural/Syntax.antt =====
-- The part of Python's syntax trees that leibniz/structural.py reads. An integer literal is not
-- negative; a comparison has one operator; `other` is any tree of another shape.
use leibniz_daemon.Common.{ℕ, String, Bool, true, false, Option, none, some}

pub data Op : Type 0 where
  plus minus times power modulo : Op

pub data Connective : Type 0 where
  conj disj : Connective

pub data Relop : Type 0 where
  equal differs member not_member : Relop

mutual
  pub data Node : Type 0 where
    constant : ℕ → Node
    name : String → Node
    usub : Node → Node
    binop : Op → Node → Node → Node
    boolop : Connective → Nodes → Node
    negation : Node → Node
    comparison : Relop → Node → Node → Node
    collection : Nodes → Node
    other : Node

  pub data Nodes : Type 0 where
    no_nodes : Nodes
    nodes : Node → Nodes → Nodes

-- `_const_int`
unfoldable pub const_int : Node → Option ℕ
const_int (constant n) = some n
const_int _ = none

-- `_mod`
unfoldable pub mod_of : Node → Option (Node × ℕ)
unfolding const_int
mod_of (binop modulo l r) = elim (const_int r) [ none ↦ none | some m ↦ some (l, m) ]
mod_of _ = none

-- `_is_bool_node`
unfoldable pub is_bool_node : Node → Bool
is_bool_node (boolop c ns) = true
is_bool_node (negation n) = true
is_bool_node (comparison r l k) = true
is_bool_node _ = false
