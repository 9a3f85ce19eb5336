-- ===== src/Lib.antt =====
-- Verification library of pangs: its global-disposition policy, and parts of its solvers.
--
-- The policy decides, for every global of an analysed C program, whether it can be represented as
-- an immutable, a once-lock, an atomic, a mutex or a localized variable. It reads the facts that
-- the analyses computed from a manifest, runs a cascade of strategies over each global, resolves
-- coupling groups that share one representation, applies overrides of a user, and reports what it
-- did. The library models that policy and the part of the manifest that it stands on. Of the
-- analyses below, it models the arithmetic of field regions and the callee queries over the
-- assignment graph.
--
-- Parts, and the files that model them:
--   Manifest/Strategy, Key, Facts, Records, Document, Canonical: the records, keys, validation of
--     facts and canonical order of crates/pangs-manifest/src/lib.rs. `Key::parse`, `Key::validate`
--     and `Display` are `parse`, `key_validate` and `display`; `Facts::validate` is
--     `facts_validate`; `Manifest::canonicalize` is `canonicalize`.
--   Dispose/Config: `CascadeConfig` and its validation, of crates/pangs-dispose/src/lib.rs.
--   Dispose/Guards: `evaluate`, the guard of a strategy, and what it calls.
--   Dispose/Cascade: `cascade`, the choice of one global.
--   Dispose/Overrides: `apply_global_override`, `unavailable_outcome`, the report entries, their
--     witnesses and the counters.
--   Dispose/Groups: `group_failures`, `group_availability`, `independent_joint_group_strategy`,
--     and in Groups/Resolve `resolve_groups`.
--   Dispose/Policy: `apply_independent_cascade`, and `apply_policy` up to the projection of the
--     context rewrite, as `decide_policy`.
--   Dispose/Demotion: `demote_and_reproject` up to the projection, as `demote_choices`.
--   Solve/Lane: `GepLane` and `gcd_u64` of crates/pangs-pir/src/lib.rs (crates/pangs-solve/src/lib.rs
--     has the same loop), with congruence and the common divisor in its children.
--   Solve/Field: `FieldLocation` and `FieldRegion` of crates/pangs-solve/src/lib.rs.
--   Solve/Pag: the graph's records of crates/pangs-pag/src/lib.rs that the queries read, and the
--     signatures of crates/pangs-pir/src/lib.rs with `fsa_compatible`.
--   Solve/Cfl: crates/pangs-solve/src/cfl.rs. Graph and Bindings make `QueryGraph`; Search is the
--     work-list loop that `query_function` and `query_function_mhs` share, with one file for each
--     of its laws; Query has the states, steps and records of both; Report and Fallback are the
--     reports, the fallback for truncated queries and the summary of the visits.
-- Child modules hold the proofs, named for what they prove; Samples and Tests hold inputs.
--
-- Conventions. Mutated arguments are passed and returned: the globals, the groups, and as a `Log`
-- the report entries and the ledger. `Result` is the source's, and `Fault` adds panics, so that
-- `expect` and `unreachable!` are values and their absence is a theorem. Loops over lists are
-- structural recursion. `gcd_u64` has fuel for one round more than its right argument, which
-- falls in each round; a callee query has fuel for one round and, for each state of the budget,
-- one for each edge and one more: a round that adds states visits a new one, and adds no more
-- than that. Maps are lists of entries in the order of their keys. `V` is `serde_json::Value`: a
-- type parameter with an instance of `Json` for the two operations that the code takes from that
-- library. In the solvers `ℤ` stands for `i64` and `i128`, with the checks and saturation of
-- `i64` written out, and a panic is an error with its message. Sets and hash maps are lists, of
-- which only the members or the entry of a key are stated. Counters are natural numbers; each is
-- at most the number of entries, and so within 64 bits.
--
-- Not modelled: file input and output, JSON and TOML codecs, audit ids (SHA-256), the validation
-- of a whole manifest, source edits, markers, the projection of the context rewrite and the
-- measurement report; in crates/pangs-solve the points-to solvers and the fixpoint of the callee
-- queries; the construction of the assignment graph and the IR; crates/pangs-clients, pangs-api
-- and pangs-source; and the command lines.
pub mod Base
pub mod Manifest
pub mod Dispose
pub mod Solve
