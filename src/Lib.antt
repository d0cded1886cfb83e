-- ===== src/Lib.antt =====
-- sigil-pi: a host that runs a language model as an agent whose tools are sandboxed forges, and a
-- multi-tenant service around it. The host keeps each session's messages and an audit log, the
-- service adds tenants with quotas.
--
-- How the parts interact: the service admits a request and a turn (product_service.py,
-- DurableQuotaStore), the agent runs the turn (agent.py, PiAgent._turn_locked): it compacts the
-- messages, forges the call of the model, decodes the frames of the reply (decode_frames),
-- dispatches the authorized tools (_dispatch), whose results are clipped (clip_tool_result); each
-- forge (_forge) goes to the supervised compiler (runtime_client.py) and is appended to the session's
-- audit chain (AuditLog.append_or_raise). After the turn the service
-- settles the lease with what the turn used.
--
-- Files:
--   Prelude/         shared names: Boolean tests, lists with native lengths, dictionaries (Dict), and
--                    the SQL statements of the quota store as operations on lists of rows (Table)
--   Agent/Json       JSON values; Agent/PyInt is Python's int(), Agent/Decimal is str() on numbers
--   Agent/Transcript history_bytes, segment_starts, compact of agent.py
--   Agent/Clip       clip_tool_result of agent.py
--   Agent/Frames     decode_frames of agent.py, and in Frames/RoundTrip the stream that the guest
--                    writes by the format that agent.py documents
--   Agent/Turn       PiAgent._turn_locked of agent.py
--   Agent/Forge      PiAgent._forge of agent.py
--   Agent/Tools      PiAgent._dispatch of agent.py; Tools/Wire has its wire formats, and the reader that
--                    the len8 format is for, Tools/Placeholders what the grants stand for,
--                    Tools/Arguments a description of the arguments that a guest gets
--   Agent/Schedules  ScheduleStore and Scheduler.tick of agent.py
--   Agent/Front      bind_is_loopback, check_auth and the handler of serve of agent.py
--   Agent/Memory     PiMemory._call of agent.py, with its callbacks; Memory/Buffer is record,
--                    Memory/Recall recall
--   Agent/Retry      the retry loop of PiAgent._llm of agent.py
--   Audit/Redact     redact_grants of agent.py
--   Audit/Chain      entry_hash, sign_entry, verify_chain of agent.py; Chain/Append is
--                    AuditLog.append_or_raise
--   Audit/Reader     AuditLog._read_path, AuditLog._last_entry and verify_audit_dir of agent.py, and
--                    AuditVerificationMonitor.check of product_service.py
--   Product/Quota    DurableQuotaStore.admit_request of product_service.py; Quota/Turns has
--                    acquire_turn, settle_turn, remove_session_usage, Quota/Registry the sums
--                    and the removal of registered sessions, Quota/Reconcile their repair at start-up
--   Product/Auth     AuthRegistry of product_service.py
--   Product/RateLimit FixedWindowRateLimiter of product_service.py
--   Product/Metrics  ServiceMetrics, Product/Concurrency TenantConcurrency of product_service.py
--   Product/Service  ProductService of product_service.py: Service/Paths has its routes, Service/Chat
--                    the turn of a chat request, Service/Dispatch the rest of dispatch
--   Product/Scheduler ProductScheduler.tick of product_service.py
--   Product/Data     ProductDataManager, Product/Retention ProductRetentionMonitor.tick of
--                    product_service.py
--   Backup           state_tool.py: Backup/Validation and Backup/Registry what it checks of a state,
--                    Create, Restore and Managed the commands backup, restore and backup-cycle
--   Runtime          SupervisedRuntime, Runtime/Client ProductionSigilMCP of runtime_client.py
--   Product/Requests the checks of a chat request in ProductService of product_service.py
--   Product/Schedules ProductScheduleStore of product_service.py
--   Modules named Tests hold runs of the code and the theorems at concrete inputs.
--
-- Conventions. A text is the list of its UTF-8 bytes, an identifier is a String. A clock reading is a
-- natural number of microseconds; the source has float seconds. json.dumps, json.loads, decoding,
-- SHA-256 and HMAC are parameters, with what a theorem needs of them as hypotheses. An SQL statement
-- is an operation on a list of rows, a transaction is a function from the database to an answer and
-- the database after it, so a rollback returns the old database. Token counts and sizes are natural
-- numbers: max(0, ...) in the source leaves nothing below 0. A number with a fraction in a JSON
-- value is kept by its literal, and int() is that of ASCII text.
--
-- Fuel. decode_frames runs on one unit per byte, which is enough since each frame takes its tag byte.
-- The loop of a turn recurs on max_steps, as the source's range does, the retries on those left, and
-- a call of the memory on the callbacks that it may still answer. All else recurs on its data.
--
-- A turn acts on a world W that only its callbacks see: the forges of the model, the dispatch of a
-- tool, the caller's abort and progress, the clock, and memory are operations of a record Host.
--
-- The service answers one request at a time, and the runtime has one caller at a time. What other
-- threads do is there where it matters to the code: while a session's lock is awaited and while a
-- turn runs, a scheduler's stores may change in any way (Product/Scheduler, Agent/Schedules). Database
-- failures are modelled at admission, where the code handles them; other failures of files and of the
-- database are not.
--
-- Not modelled: threads beyond that, the totals that a turn publishes at its end, sockets, the
-- schedule surface and the event stream of the agent's HTTP front, start-up and configuration, the
-- memory's child process, its consolidation and administration, the lock and the permissions of the
-- backup directory, the text of metrics and logs, and the scripts. Where the model is simpler than the
-- code: the memory's child and its untimed lock answer each call (a silent child blocks the code for
-- ever); AuditLog.record drops its call
-- where auditing is off and where writing fails, so Agent/Forge has the calls and not the files; the
-- cut-off of a retention sweep is at least 0; removing a backup's files does not fail; and a line
-- end of two characters counts as two in the number of a torn line.
pub mod Prelude
pub mod Agent
pub mod Audit
pub mod Product
pub mod Runtime
pub mod Backup
