-- ===== src/Lib.antt =====
-- A model of the Aerospike Python SDK (aerospike_sdk/), with the theorems that make its parts
-- correct.
--
-- The parts and their files:
--   Batch      aerospike_sdk/query_shared.py. A builder collects a chain of segments
--              (`_OperationSpec`: Batch/Spec). Batch/Runs is `_specs_overlap_on_a_key`,
--              `_specs_require_sequential_run` and `_spec_batch_runs`, which decide what shares a
--              batch. Batch/Builder is the state of `_QueryBuilderBase` and its `limit`,
--              `chunk_size` and `on_partition_range` (Range); its children are the end of a
--              segment (Finalize), `_select_keys` (Select) and `_finalize_chain` (Chain), which every
--              terminal calls. Batch/Native is what this code uses of aerospike_native, as a
--              parameter with laws.
--   Policy     aerospike_sdk/policy/behavior_settings.py (Settings) and behavior.py (Behavior): a
--              tree of behaviors whose caches (Caches) hold resolved settings, with the live
--              sessions that a reload refreshes, and the predefined behaviors (Predefined).
--              Registry is behavior_registry.py, and Mapper is policy_mapper.py, which makes
--              native policies of settings.
--   Txn        aerospike_sdk/txn_shared.py (Errors, Plan), implicit_txn.py (Implicit), and
--              transactional_session_shared.py, txn_status.py and aio/transactional_session.py
--              (Session).
--   Stream     aerospike_sdk/record_stream.py: streams of one result and streams in chunks.
--   Exceptions aerospike_sdk/exceptions.py: the classes of errors, the guidance (Guidance) and the
--              conversion of native exceptions (Convert).
--   Results    aerospike_sdk/record_result.py (Results, Rows), and error_strategy.py with the methods
--              of query_shared.py that keep a row, raise its exception or hand it to a handler
--              (Filter).
--   Metrics    aerospike_sdk/metrics/export.py (Departures, Health, Timer) and usage.py (Usage).
--   Pool       aerospike_sdk/aio/pool.py: the lifecycle of a pool of event loops, and its dispatch.
--   Config     aerospike_sdk/policy/system_settings.py with the layers of sdk_config_loader.py (Config,
--              Fields, Equality), the order in which the behaviors of a file are applied (Topo),
--              and of sdk_config_monitor.py the reload (Poller) and the block of a name that the
--              server reports (Adopt).
--   Session    aerospike_sdk/aio/session.py: single reads and writes that a session gathers in one
--              tick of the event loop and sends together (Coalesce), and `do_in_transaction`
--              (Transact), with that of aio/transactional_session.py, which joins.
--   Dispatch   the policies of batch rows and the rows of a segment in query_shared.py (Policies,
--              Ops); of aio/operations/query.py, the one call that it makes of a run of segments
--              (Ops), how it resolves the consistency modes of a batch (Modes, with the gate of
--              implicit_txn.py), its batch of UDF calls over several modes (Apply), and `execute`
--              of a chain of two segments or more (Execute), which puts the split of Batch/Runs, the
--              rows of Ops and the dispositions of Results/Filter together.
--   Info       aerospike_sdk/info_shared.py (Bodies) and index_list.py (Indexes): what nodes answer
--              to info commands, as texts of code points.
--   Base       shared names, Boolean tests, lists, dictionaries and Python's integers.
--   Tests      the theorems at concrete inputs.
--
-- The async dispatchers run a chain through `_finalize_chain`, send it as one batch or batch by
-- batch as `_specs_require_sequential_run` says, inside an implicit transaction where one is due,
-- and hand the rows on as a stream; the settings of each call come from a behavior. A native
-- exception is converted where it leaves the client, and the disposition of the call decides
-- whether it is raised, handed to the caller's handler or set in the stream as a row.
--
-- State is passed explicitly: a method is a function from the record of its object to an outcome
-- that holds the record it leaves, raised exceptions included. The native client is a parameter
-- everywhere: its answers are arbitrary functions of the transaction (Session), of everything
-- that happened before (Implicit), or of the recordset (Stream). So are the caller's error handler
-- (a function of the calls before and this one, which may raise), the connects of a pool, and the
-- snapshots and exporters of a cycle; an exporter is its `id`, and a thread of the counters a
-- number. A session of a behavior is the policies it built last, `refresh` stands for building them
-- and may raise. The parent chain of a behavior is the list of patches above it. A set of keys is a list without repeats and a dict an
-- association list in the order of insertion.
--
-- The loop of a coalescing session is a sequence of events: a caller's call up to its `await`, a
-- flush that is armed, the completion of a future. What callers await and what becomes of it are
-- kept beside the session's own fields. An operation that runs in a transaction may use the session
-- it is given in any way, and the client may be another one at each attempt.
--
-- Loops are structural recursion on the list they walk. The loops of the implicit transaction and of
-- `do_in_transaction` are recursion on the attempts that their range has left, the number that the
-- retry plan gives. A drain of a stream has two units of fuel more than its chunk has items, one for
-- each call of `__anext__`. The order of behaviors is given one turn for each spec of the file: a
-- turn that is followed by another has emitted one.
--
-- Not modelled: the wrappers that build one native operation or expression each, the definition of
-- a cluster and background tasks, which mostly call the native client; the cache of the nodes'
-- capabilities; the fast paths of single keys and queries of a data set; streams that deliver in
-- completion order; the float arithmetic of pauses, locks, threads and event loops,
-- logging, the blocking twins of the async classes, the writer of metrics files and the reading of
-- YAML.
pub mod Base
pub mod Exceptions
pub mod Results
pub mod Metrics
pub mod Pool
pub mod Config
pub mod Batch
pub mod Policy
pub mod Session
pub mod Dispatch
pub mod Info
pub mod Txn
pub mod Stream
pub mod Tests
