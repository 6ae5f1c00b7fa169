-- ===== src/Lib.antt =====
-- Leibniz, a daemon that conjectures mathematical statements and promulgates those that the Lean
-- kernel has proved.
--
-- A seed becomes a candidate (`Propositio`), and the candidate passes through the stages of
-- leibniz/pipeline.py: a provider proposes a claim and its formal statement; cheap refutation, the
-- novelty gate and the faithfulness gate decide whether a proof is worth its cost; the proof stage, one
-- draft or an ensemble under consensus, asks the kernel; the verification gate and the trust budget
-- decide the promotion. The daemon (leibniz/daemon.py) runs the stages over its seeds, counts, and hands
-- each settled candidate to the archive, the ledger and the notebook. Publication is a separate act.
--
-- Files, by the code they model:
--   Types, Types/Values       leibniz/types.py: the enumerations with their values, and the evidence
--   Trust, Trust/Path         leibniz/trust.py: validate_edge, validate_path, the judged fraction
--   Propositio                leibniz/propositio.py: the record of a candidate and its methods
--   Budget, Budget/Bound      leibniz/budget.py: try_admit
--   Verifiers/*               leibniz/verifiers.py: validate_statement, discharge, cheap_refute
--   Gates/Sound               leibniz/gates/sound_backends.py: certificates and verdicts
--   Gates/Faithfulness/*      leibniz/gates/faithfulness.py: check, with its certificates and its retry
--   Gates/Novelty/*           leibniz/gates/novelty.py: check, revalidate
--   Gates/Verification/*      leibniz/gates/verification.py: is_promotable, finalize
--   Consensus/*               leibniz/consensus.py: prove, normalize_proof, the provers' identities, the
--                             two stages
--   Decomposition/*           leibniz/lemma_decomposition.py: helper lemmas as hints, and its stage
--   Repair/*                  leibniz/proof_repair.py: the repair loop, its panel, and its stage
--   Tools/*                   leibniz/tools: registry.py and protocol.py
--   Pipeline/*                leibniz/pipeline.py: Drafts (parsers), Repair (compilation), Steering (the
--                             contract), Survivors (what a survivor is)
--   Selection/*               leibniz/selection.py: the descriptor, the archive, the policy over it
--   Notebook/*                leibniz/discovery.py: DiscoveryNotebook.record and its families
--   Frontier/*                leibniz/discovery.py: FrontierController.record and update
--   Daemon/*                  leibniz/daemon.py: the loop over a cycle's seeds; Tasks is its state and
--                             exceptions
--   Cycles/*                  leibniz/daemon.py: run_cycles; Seeds is the choice of a cycle's seeds
--   Structural/*              leibniz/structural.py: is_coefficient_degenerate, _residue_set and
--                             _atom_signature; Meaning is what a claim states
--   Cost/*                    leibniz/cost.py and leibniz/pricing.py: the ceiling on spending
--   Providers/*               leibniz/providers: failover_provider.py and router.py
--   Runtime/*                 leibniz/runtime.py: the ledger, its write barrier, the replay of a row
--   Calculemus/*              leibniz/calculemus.py: the Codex and its published part
--   Common/*                  exceptions, lists, dictionaries and texts
--   Tests/*                   a small run, and the theorems at its inputs
--
-- A method that writes to an object returns the object after the call. A call that may raise returns an
-- `Outcome`; the daemon's calls, whose writes outlive an exception, are functions from a state to a
-- state and an outcome. A dictionary is a list of pairs in insertion order.
--
-- Numbers are natural, but for the integers of Structural/Integer. A float is a fraction or a number of
-- fixed units: the bound 0.15 is 3/20, a confidence is in parts per million, a quality in thousandths,
-- a descriptor's coordinate a fraction.
-- The loops with a limit (the repairs of a statement, of a contract and of a proof, and the cycles of a
-- run) recurse on that limit, which is the source's own, so that no fuel is chosen there. The rounds
-- of the trial division are bounded by the number itself, which is enough (Structural/Prime).
--
-- Parameters, since they stand for code outside the program or not modelled: the Lean and SMT backends,
-- the providers, the sound backends with their re-checkers and statement templates, the corpus, JSON,
-- SHA-256, the clock, the metered usage, and of this program the generators of canonical laws, the
-- pattern miner, the family of a claim, the quality of a candidate and the steering text. The novelty
-- gate calls is_coefficient_degenerate by a field.
-- Backends of Lean and of the solver's searches answer and do not raise, nor do the probes, the judge,
-- the re-checkers and the templates. The fields of a contract are texts or absent: what a provider
-- writes there otherwise is turned into text when it is read.
--
-- Not modelled: the decision procedures of the fast paths, the signatures of memberships and of Boolean
-- combinations, the observatory, feeds and reports. The last two only read and print.
pub mod Common
pub mod Types
pub mod Trust
pub mod Propositio
pub mod Budget
pub mod Verifiers
pub mod Gates
pub mod Consensus
pub mod Pipeline
pub mod Decomposition
pub mod Repair
pub mod Tools
pub mod Selection
pub mod Notebook
pub mod Frontier
pub mod Cost
pub mod Providers
pub mod Runtime
pub mod Calculemus
pub mod Daemon
pub mod Cycles
pub mod Structural
pub mod Tests
