-- ===== src/Lib.antt =====
-- Verification of Oxigraph Nova, an RDF store with several storage engines, a rule reasoner and
-- query front ends: two engines behind the trait `QuadStore`, the write-ahead log, with which an
-- engine survives a crash, the dictionary's keys and its ids of graphs and terms, and the rule
-- reasoner, from its iterators to the fixpoint.
--
-- A quad is stored in an engine. The memory engine keeps a vector of quads. The LOUDS engine gives
-- the terms ids, packs the ids of a quad into a key of 128 bits, keeps the writes since the last
-- compaction in a delta of keys, over one immutable ring of triples for each graph, and merges the
-- delta into new rings when it is compacted. An engine with a file writes a record to the log before
-- it changes its state, and after a crash opens the file again and applies what `replay` reads from
-- it. The reasoner evaluates rules over the triples of a store: in each round the rules whose
-- predicates occur among the newest facts are joined with the facts so far, each join scans sources
-- of triples through trie iterators, and the new facts are the input of the next round, until there
-- are none.
--
-- Rdf: the terms of the third-party crate `oxrdf`, whose constructors and parsers are the fields of
--   the record `Oxrdf`, and the laws relied on those of `OxrdfLaws`.
-- Dictionary: crates/core/nova-core/src/dict.rs. Keys: `TermId`, `pack_quad` and `unpack_quad`.
--   Graphs: `new` and `intern_graph`, with `GraphName` of `oxrdf` as a parameter. Terms: `intern`,
--   `get_id` and `get_term_arc` of a dictionary that has not been compacted, which is what a store in
--   memory has until it is compacted; its compacted tier is empty, and `get_id` of it gives none
--   (dict_compact.rs). Tables, Quoted, Calls and Interned are its tables and its calls. Varint is about
--   dict_compact.rs, `write_varint` and `read_varint`: the fuel of the writer is ten bytes, and ten
--   times seven bits are more than 64.
-- Store: Vec is the standard library's `Vec` as the engines use it. Memory is the memory engine,
--   crates/engines/nova-engine-memory/src/lib.rs, with `apply_batch` of the trait `QuadStore` in
--   crates/core/nova-core/src/store.rs; Laws, Refines and Patterns relate it to a set of
--   quads.
-- Louds: crates/engines/nova-engine-louds/src.
--   Delta: delta.rs, with Range about the keys of a pattern and Laws about the buffer as a map.
--   Parts: what the store calls of the dictionary's terms, as operations with laws, which Engine
--     fills with Dictionary/Terms, and the calls of the rings (ring.rs), of which nothing is assumed.
--     Engine has what the operations of a store do.
--   Store: the state of `LoudsStoreInner`, `apply_insert`, `apply_remove` and `contains` of store.rs.
--     Live is about keys, Ids and Interning about the ids of a quad, Held has the invariant, and
--     Writes and Applied are the two writes.
--   Compact: the part of `compact_locked` that merges the delta into the rings' triples, and
--     `build_graphs_from_triples`. Groups, Merge and Rings are the steps, Rebuilt the whole.
--   Pattern: the scan of a graph in `quads_for_pattern`, up to the decoding of the ids that it finds.
--   Batch: `apply_batch`, `len` and `apply_register_graph`; Agree compares the two engines.
-- Storage/Wal: crates/core/nova-storage/src/wal.rs.
--   Codec: `WalRecord`, `write_*`, `read_*`, `encode_record` and `decode_record`; the fuel of
--     `read_nested` for quoted triples is the length of the input, of which every level takes a byte.
--   Log: `WalWriter` (`append`, `append_batch`, `append_no_sync`, `sync`, `frame_record`) and
--     `replay` with `fill_or_eof`; the file is its synced and its unsynced bytes, and the checksum of
--     the third-party crate `crc32fast` is a parameter. The fuel of `replay_loop` is the length of
--     the file, of which each round takes at least the eight bytes of a frame's header.
--   RoundTrip, Records: encoding and decoding. Frames, Replay, Recovery, Crash: runs of a writer, and
--     crashes that keep a prefix of the file with all that is synced. Faults: damaged files.
-- Reasoning: crates/core/nova-reasoning/src.
--   Row: triples of term ids, and the standard library's sorting, deduplication and sets.
--   SortedVec: `SortedVecTrie` and `join_scan` of sorted_vec_trie.rs.
--   Trie: `TrieIterator` of crates/core/nova-core/src/trie.rs, with a constructor for each of the
--     iterators that the reasoner boxes, `UnionTrieIter` of join.rs among them. View has the keys that
--     an iterator has in front of it; Scan is the iterator of `join_scan`.
--   Join: join.rs, with `AtomSource` as a function. Each loop takes its fuel from `limit`, and more
--     than the number of keys that all scans of a step can have is enough. Sync, Least, Loop, Scans
--     and Correct go from one pass of `leapfrog_sync` up to `leapfrog_join`; Source is the contract of
--     a source, Binding and Instance are the bindings and the rows that an atom stands for.
--   Rule: rule.rs; Rule/Active is about the index of rules.
--   Fixpoint: fixpoint.rs. Round and Derives are about `eval_rule_round`, Fired and Rounds about one
--     round of all active rules, Derived is what follows from the rules, with the rows of a store or
--     without, Loop and Grid are about
--     `fixpoint_loop`, whose fuel is a parameter: each round but the last adds a fact over the ids in
--     use, so more fuel than there are such facts is enough. Correct and Transitive are about the
--     results.
--
-- Indices and lengths are natural numbers. Not modelled: errors of the file system other than the
-- crash itself, and the opening and cloning of files; locks, and a persistent LOUDS store, which
-- joins the log to the engine; the rule's name; the compaction of the dictionary, whose lookups can
-- lose literals of equal value and panic on quoted triples that it never had, and with it the commit
-- of a compaction; the succinct tries of the rings, the other engines, the query evaluator, the front
-- ends and the servers.
pub mod Prelude
pub mod Rdf
pub mod Storage
pub mod Reasoning
pub mod Dictionary
pub mod Store
pub mod Louds
