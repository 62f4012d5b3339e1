-- ===== src/Lib.antt =====
-- snulbug is a policy gateway between MCP clients and tool servers. This library models sixteen parts
-- of its core, with the theorems that make them correct:
--
-- State: snulbug/state.py, the stores in which a Lua policy keeps its state.
--   State.antt has the protocol PolicyStateStore as a record of operations, and the calls of a
--   policy. State/Memory, State/Sqlite, State/Snapshot and State/DryRun are the classes
--   MemoryStateStore, SQLiteStateStore, SnapshotStateStore and DryRunStateStore; an operation has the
--   name of its method. State/Bounded is BoundedPolicyState, the limits that every store is behind.
-- Lease: snulbug/leases.py, the leases that permit tool calls for one task.
--   Lease.antt has the data: a Lease is the dictionary that create_lease makes, a File is what
--   _load_store finds. Lease/Store has the operation create_lease, Lease/Change has revoke_lease,
--   revoke_invite_renewal, reactivate_lease and cleanup_inactive_leases, Lease/Renew has renew_lease,
--   Lease/Enforce has _resolve_presented_lease, enforce_mcp_lease_policy and
--   preview_mcp_lease_policy. Lease/Denial, Lease/Auth and Lease/Arguments are _lease_denial_reason
--   and what it calls, Lease/View is _find_lease, _lease_view, _renewal_view and list_leases,
--   Lease/Coverage has the previews of catalogs and of coverage.
-- Subscriptions: snulbug/mcp_subscriptions.py, what the stream of a subscription lets through.
-- Tunnel: snulbug/share_runtime.py, the supervisor of the tunnel process of a share.
--   Tunnel.antt has the fields of ShareRuntime and _record_exit_locked, Tunnel/Launch has
--   _spawn_locked, Tunnel/Supervise has _reconcile_locked, _monitor and the public operations. The
--   clock, the exit code of the process, the plan and the host's answers are arguments.
-- Tasks: snulbug/mcp_tasks.py, the metadata of the tasks that messages name.
-- Fabric: snulbug/fabric_members.py, the registry of the gateways that form one fabric.
--   A member is the dictionary in the registry. Fabric/Values has the helpers on JSON values and
--   _normalize_registry, Fabric/Members the lists, member_upstreams and summarize_fabric_members,
--   Fabric/Changes the update functions of register_fabric_member, heartbeat_fabric_member and
--   unregister_fabric_member, Fabric/Update the loop of _update_registry. An attempt reads at one
--   moment and exchanges at a later one; what others do to the store in between is any function.
-- Backoff: snulbug/policy_backoff.py, the waiting time of clients whose requests are denied.
--   Backoff/Keys has _backoff_context and _key, Backoff/Deny has preflight, Backoff/Record has
--   record_deny, Backoff/Reply has the decision and the headers of an active backoff.
-- Progress: snulbug/mcp_progress.py, the progress and the cancellation of requests.
--   Progress/Track has the records of requests, tokens and tasks, Progress/Check has
--   _check_progress_notification and _check_cancelled_notification, Progress/Enforce has the policies
--   on requests and on the messages of a response that was read.
-- Confirm: snulbug/confirm.py, the broker that asks a person whether a request may pass.
--   Confirm/Prompt has the text of _write_prompt, Confirm/Decide has decide: look is its lookup of the
--   session's approvals and conclude the rest, two steps, since the lock is not held while the person
--   is asked. Confirm/Consent runs the steps of several decisions in any order.
-- Schema: snulbug/json_schema.py, the boundary in front of a JSON Schema validator.
--   Schema.antt has the values as _check_size sees them, Schema/Size has _check_size and its loop,
--   Schema/Issues has validate_schema. The validator is a parameter, Library.
-- Origin: snulbug/public_origin.py, the origin under which the public reaches the gateway.
--   public_origin, captured_origin_matches and PublicOriginMiddleware, in one file.
-- Mounts: snulbug/http_routes.py, the HTTP mounts beside the MCP endpoint.
--   Mounts.antt has path_matches, Mounts/Contract has _normalize_contract and http_route_contract,
--   Mounts/Normalize has normalize_http_routes, Mounts/Headers has _end_to_end_headers and
--   _request_headers, Mounts/Serve has HttpRoutesMiddleware. What the upstream answers is a function of the request, and the moment at which the client leaves is an argument.
-- Cache: snulbug/mcp_cache.py, the cache hints of results at the response boundary.
--   Cache/Results has private_result, Cache/Boundary has McpCacheMiddleware: what the application of
--   one request receives and sends are the events of a run.
-- Continuations: snulbug/mcp_mrtr.py, requests that go on over several round trips.
--   Continuations.antt has continuation_issue and the bounds, Continuations/Inputs has
--   input_required_issue and the metadata of a result.
-- Activation: snulbug/policy_activation.py, the activation of approved policy bundles.
--   Activation.antt has the helpers and Bundles, the interface to snulbug/bundle.py,
--   Activation/Reports has the reports, and Activation/Reconcile has reconcile_policy_activation for a
--   configuration that was loaded.
-- Redaction: snulbug/redaction.py, the redaction of secrets in records.
-- Base: shared types, a stable sort, and lemmas on lists, dictionaries, integers and JSON values.
--
-- The gateway asks a lease before it forwards a tool call, a policy keeps counts in a store behind the
-- limits, and the stream of a subscription is judged message by message. Backoff, Progress and Fabric
-- keep their records in a policy state store and use it through the protocol of State, so a store of
-- State is an argument of their operations; their theorems are about the memory store. Progress reads
-- the metadata of Tasks, and Mounts the public origin. A call that reads the clock is given its time,
-- in microseconds, and reads it once. The file lock of leases.py and the locks of the stores make each
-- call one step, so a run is a list of calls. A loop over a list is structural recursion. Three loops
-- have fuel: that of _update_registry has the eight attempts of the source, and that of _check_size
-- one turn for each value that it allows and one more, which is shown to be enough; the redaction of
-- texts in texts has a depth, for which the bytes of the texts are enough where json.loads raises
-- nothing that the source does not catch. A reconciliation of the
-- tunnel recurs over the moments that it is given.
--
-- Parameters: Lease.Platform stands for the functions of Python's library that leases.py calls (times
-- as texts, hashes, paths, URLs), with the laws that a time that is written is read back in whole
-- seconds and is no empty text. State.IntText stands for int and str, with the laws that a printed
-- integer is read back and that "0" is zero. Backoff.Platform, Confirm.Platform, Fabric.Platform,
-- Progress.Platform, Origin.Library, Activation.Platform, Mounts.Platform, Cache.Platform and
-- Redaction.Platform stand for what those files call (JSON texts, times as texts, hashes, conversions,
-- the pattern of a safe name, the power in a delay, the parsing of URLs, the patterns of secrets); a
-- theorem names the laws that it needs. State/Sqlite models the SQL statements of the source on a
-- table with one row for each key.
--
-- Not modelled: RedisStateStore, whose store is a server; the metadata of decisions in leases.py and
-- mcp_progress.py; texts such as "1h" for durations; the bodies of HTTP responses; the audit events of
-- redaction.py; and the rest of the package, the gateway's input and output, the Lua interpreter, the
-- tunnel providers and the command line.
pub mod Base
pub mod State
pub mod Subscriptions
pub mod Lease
pub mod Activation
pub mod Backoff
pub mod Cache
pub mod Confirm
pub mod Continuations
pub mod Fabric
pub mod Mounts
pub mod Origin
pub mod Progress
pub mod Redaction
pub mod Schema
pub mod Tasks
pub mod Tunnel
