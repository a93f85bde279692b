-- ===== src/Lib.antt =====
-- GE360 Universal Bridge: the bridge that opens local services of a PC to phones over WireGuard.
--
-- The program keeps JSON registries of resources (local services), devices (phones) and groups,
-- decides which device reaches which resource, makes devices out of one-time invitations, and
-- restarts the units of resources that are down. A relay forwards the packets of phones that do not
-- reach the bridge, and an attempt to reach them directly comes before. Each part has a module:
--
-- - Base: Boolean tests on numbers, lists, Python's `str` as a list of code points, and
--   `sorted(set(xs))`.
-- - Core, for ge360_bridge/core.py: Data (the records and the errors), Validate and Date (the
--   `validate_` functions and `normalize_tags`), Normalize (the `_normalize_` functions), Store (the
--   files, `list_`, `save_`, `find_` and `_audit_acl`), Resources, Devices, Groups and Access (the
--   operations), Integrity (that they keep the registries consistent).
-- - SelfHeal, for ge360_bridge/self_healing.py: State (the restart history), Heal
--   (`heal_resource`), Run (`run_self_heal`, `self_heal_status`), Limit and Outcomes (the theorems).
-- - Pairing, for ge360_bridge/pairing.py: Enrollments (the file and its clean-up), Create, Consume,
--   and the theorems in Sound and SingleUse.
-- - Relay, for ge360_bridge/relay_server.py: Registry (devices.json and the two authentications),
--   Sessions (`RelaySession`, `create_session`, `cleanup_sessions`), Handlers (`do_GET`, `do_POST`,
--   and the events that reach the server), and the theorems in Invariant, Steps, Ports,
--   Authentication and Admission.
-- - P2p, for ge360_bridge/p2p.py: Sessions (the two dictionaries, `_cleanup`, `_rate_limit`), Prepare
--   (`prepare_traversal`, `traversal_status`), WireGuard (the `wg` commands), Traversal
--   (`attempt_traversal`: five tries, counted down), and the theorems in Endpoint, RateLimit and
--   Grants.
-- - Update, for ge360_bridge/update_engine.py: Paths and Version (`_safe_logical_path`, `target_for`,
--   `_version_tuple`), Package (`_read_package`, `verify_update`), Disk (the files of the system and
--   the writes, each of which may raise `OSError`), Rollback and Restore (the snapshots), Runtime (the
--   preflight, the restarts, the health check), Apply (`apply_update`); Encoding stands in for JSON in
--   the tests.
-- - MultiServer, for ge360_bridge/multi_server.py: Servers (the registry of other servers and its
--   operations), Snapshot (`sanitize_agent_snapshot`), Catalog (`build_catalog`).
-- - Health, for ge360_bridge/health.py: Check (`check_resource` without the cache, each `_finish`
--   with its "checks"), Online (when it says ONLINE), Cache (`_cached`, `_store_cache`,
--   `check_resource`), Many (`check_resources`), Summary (`health_summary`). A result `none` is
--   an exception that leaves `check_resource`.
-- - Stun, for ge360_bridge/nat_discovery.py: Bits (`^`), Message (`_stun_request`,
--   `_decode_address`, `parse_stun_response`), Mapping (`classify_nat`), Probe
--   (`probe_stun_servers`), and the theorems in Total, Answer, Mapping/Described and
--   Probe/Unique. The loop over the attributes has the number of bytes as fuel.
--
-- A call of core.py is an `Action`: it takes the files, and gives them back with an answer or a
-- `BridgeError`; what was written before an error stays written. Pairing's calls run on the
-- registries and the enrollment file together. A function of Python keeps its name; a loop over a
-- list or a range is recursion on it; only the attributes of a STUN answer are read with fuel.
-- Where a `BridgeError` has a message, the model has a constructor of `Error`.
--
-- Numbers: ports, times and counts are natural numbers. Timeouts and the times of self-healing are
-- whole milliseconds where the program has floats; enrollments count whole seconds, as the program
-- does.
--
-- Outside the model: JSON whose values have a wrong type, and keys that the program does not name;
-- negative ports; `str.lower` and `str.upper` beyond ASCII; errors of the file system, except that
-- the audit database may refuse a row and that each write of an update may fail; the locks, which
-- make the calls follow one another. SHA-256, `urlsplit`, Base64, the keyed hash of tokens, random
-- values, the clock, `systemctl` and the sockets are arguments, and so is the health check for
-- self-healing. The other files of ge360_bridge (the relay's client, the servers, the command line,
-- the web pages, the backups) and the Android client are not modelled.
pub mod Base
pub mod Core
pub mod SelfHeal
pub mod Pairing
pub mod Relay
pub mod P2p
pub mod Update
pub mod Health
pub mod Stun
pub mod MultiServer
