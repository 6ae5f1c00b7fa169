-- ===== src/Structural.antt =====
-- leibniz/structural.py: the check that a modular claim says nothing of its variables
-- (`is_coefficient_degenerate`), the residues of a polynomial (`_residue_set`) and the signature of
-- a congruence (`_atom_signature`). Meaning says independently what a claim states of the integers.
pub mod Integer
pub mod Residue
pub mod Poly
pub mod Value
pub mod Syntax
pub mod Degenerate
pub mod Meaning
pub mod Expansion
pub mod Atoms
pub mod Vacuous
pub mod Members
pub mod Claims
pub mod Residues
pub mod Period
pub mod Names
pub mod Exact
pub mod Signature
pub mod Normalized
pub mod Equation
pub mod Same
pub mod Prime
