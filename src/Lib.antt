-- ===== src/Lib.antt =====
-- Git Slop reads a repository and its git history, scores how hard each file and folder is to work
-- on, writes a report, and compares two reports; an advisor may then ask a local model for a plan
-- under policy packs. This library models the parts of it that decide something: what git's output
-- means, which changes between two reports count, which packs and machines are accepted, and what
-- text may reach an annotation or a document.
--
-- The parts, and the code that they are about:
--
-- * Advisor models src/advice/release_gate.rs (`release_gate`, the floors) and
--   src/advice/resources.rs (`validate_capacity`, `RuntimeResourceMonitor`). Gate and Capacity are
--   functions into a result; Monitor is the sampling thread as a step relation on its shared state,
--   with `enforce` as the check that a request makes of it. Safety and Enforcement are about the
--   accepted gate, the preflight and the check together.
-- * Artifact models src/advice/artifact/persistence.rs: Disk is the directory of the artifacts with
--   the calls of the file system, each of which succeeds, fails or is cut off, and Write is
--   `write_artifacts` with its recovery. Calls, Staging, Atomic and Published are what each part
--   leaves behind on every path, Safety the whole of it, Writers many writers in turn.
-- * Escape models src/text.rs; Replace, Commands, Markdown and Fence have readers that are
--   independent of the escapes.
-- * History models src/history.rs, src/history/parsing.rs, src/history/git_log.rs and
--   src/history/lineage.rs: Parsing, Status and Numstat are the parsers of `git log -z`, Stream is
--   `stream_git_log`, Lineage follows renames from the newest commit to the oldest. Renames reads
--   its maps as functions of a name, Names follows one file by its name. Tokens and StatusRoundTrip
--   write the logs that the parsers read back, and Samples runs the parsers.
-- * Inventory models `line_counts` of src/inventory.rs in Lines; Counts is what its counts say.
-- * Compare models src/report_ops/compare/model.rs and src/report_ops/compare/delta.rs: Model reads
--   records, Delta builds the deltas with the renames, Regression tests them and counts them, Queue
--   is the movement of the action queue.
-- * Context models src/advice/context/budget.rs, with `truncate_utf8` of
--   src/advice/context/excerpts.rs: Input and Compact are what the loop of `fit_token_budget` reads
--   and writes, Budget the loop, Rounds what its rounds keep, Fits its result and its rounds, Traced
--   what became of the excerpts.
-- * Policy models src/policy/model.rs, src/policy/validate.rs, src/policy/store.rs and
--   src/policy/lifecycle.rs: Manifest is the validation of one pack, Compile the union of packs into
--   one set with its conflicts, Store the cache of installed packs, Lifecycle the commands on it and
--   on the selection and the lock, Resolve the policies of an advice. Commands has the commands as
--   steps of one state.
-- * Readiness models src/report_ops/readiness.rs: Report is what is read of a report, Evaluate is
--   `evaluate_report_readiness`, Sections and Ready what stands in a report without blockers.
-- * Retention models `retained_directory_size` and `enforce_retention` of
--   src/report/write/storage.rs in Enforce; Kept and Newest are what is left of the runs.
-- * Response models src/advice/validate.rs: Checks and Validate are `validate_response`, Citations,
--   Grounded and Evaluated what its citations, rules and candidates are when they pass, Complete the
--   whole response. Policy's compiled set says which rules apply.
-- * Freshness models src/freshness.rs: Evaluate is `evaluate`, with what git, the configuration, the
--   digests and the clock answer as arguments, and Current says when its result is current.
-- * Baseline models src/baseline.rs: `safe_revision`, and `create` and `drop` of
--   `MaterializedBaseline` as what they leave of the temporary directory and the worktree.
-- * Overlays models src/overlays/clusters.rs with `stable_id` of src/overlays/common/mod.rs and
--   `top_level_root` of src/model.rs: Clusters is `build_clusters`, Graph its adjacency, Front and
--   Traversal its stack of paths, Components and Partition the sets that it finds.
-- * Base has what they share: Boolean tests, lists over the native numbers, strings as lists of code
--   points, sorted maps as association lists, results with their early returns, machine words.
-- * Examples applies each theorem to concrete inputs.
--
-- The parts meet where the program's do: the parsers' commits are what the lineage follows, the
-- capacity check reads the accepted gate, the monitor keeps the limits of the preflight, and a
-- compiled set is made of packs that were validated when they were loaded.
--
-- Numbers are natural numbers and integers; 64-bit additions that the code checks are checked. The
-- `f64` scores, which the code reads through `round6`, are integers of millionths, and differences
-- of them are exact. Loops are structural, but for those that run on fuel: the two parsers and the
-- stream, on the number of tokens, of which each round takes at least one; the search for
-- duplicate sets, on the number of paths, each of which is pushed once; and the cutting of an input
-- to its budget, on the 256 rounds of the code.
--
-- Not modelled: git and other processes, the file system, HTTP, serde, SHA-256 and the clock, which
-- are arguments where a definition needs their result; the weights of the overlays, the
-- reading and the classification of files, the rendering of reports, the publication of a run, and
-- the command line. Reads and writes of the policy store succeed.
pub mod Base
pub mod Advisor
pub mod Artifact
pub mod Escape
pub mod History
pub mod Inventory
pub mod Compare
pub mod Context
pub mod Overlays
pub mod Policy
pub mod Readiness
pub mod Retention
pub mod Response
pub mod Freshness
pub mod Baseline
pub mod Examples
