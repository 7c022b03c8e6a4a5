-- ===== src/Reasoning.antt =====
-- crates/core/nova-reasoning: datalog rules over triples of term ids, run to a fixpoint by leapfrog
-- joins.
pub mod Row
pub mod Keys
pub mod SortedVec
pub mod Trie
pub mod Join
pub mod Rule
pub mod Fixpoint
mod Tests
