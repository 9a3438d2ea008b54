-- ===== src/Lib.antt =====
-- mini-sb-agent: a proxy agent that takes its users from a panel, counts and limits their traffic,
-- and reports it, and the panel server that books the reports.
--
-- The parts and the files that model them:
-- * Counter, of counter/counter.go: the traffic counters. Connections hold pointers to the storages,
--   which lie in a heap of addresses; `snapshot_delta`, `commit_snapshot` and `remove_absent` are
--   `SnapshotDelta`, `CommitSnapshot` and `RemoveAbsent`. Counter/Conn has the connection wrappers,
--   Counter/Accounts the invariant, Counter/Rounds the rounds of reports, Counter/Pruning the
--   removal of users and Counter/Moved the bytes that connections move.
-- * RateLimit, of counter/ratelimit.go: the token bucket, with `allow`, `reserve` and `set_rate`;
--   RateLimit/Wait has `Wait`, RateLimit/Conn and RateLimit/Packets the wrappers, and
--   RateLimit/Bounds, RateLimit/Throughput and RateLimit/Writing what holds of them.
-- * Topology, of panelapi/topology.go: nodes, keys, tags and `Validate`.
-- * PanelServer/Store, of panelserver/store.go, with the accounts and the batches seen, and
--   PanelServer/Server, of panelserver/server.go, with the handlers; PanelServer/Access says who
--   reaches what. PanelServer/Routes has the router, PanelServer/AdminOnly what it guards,
--   PanelServer/Store/Published the topologies that the store holds.
-- * ControlPlane, of panelapi/control_plane.go: the client of the panel server.
--   ControlPlane/Wire joins both by a wire that may lose a request or its answer, over which
--   ControlPlane/Delivery and ControlPlane/Retries refine pushes to the calls of the store,
--   ControlPlane/ExactlyOnce repeats a push, and ControlPlane/Fetch fetches. Http has the requests
--   and answers that both see.
-- * Http/Client, of panelapi/minhttp.go: the reading of an answer from the stream of bytes that
--   arrives, with Http/Reading for what it uses of Go's library and Http/Digits for numbers;
--   Http/Exchange has the writing of a request and `do`, Http/Chunks and Http/Bounds what holds.
-- * Stats, of cmd/mini-sb-agent/main.go: the local statistics API, `readHTTPRequest` and what
--   `serveStats` answers; Stats/Bounds has its bound.
-- * Sync, of panelapi/sync.go with the callbacks of main.go: a round of users and traffic, which
--   joins Hook, Users and Panel; Sync/Report, Sync/Settled and Sync/Shutdown say what it leaves of the
--   report. Sync/Run is the whole run of the agent in topology mode, with the traffic between the
--   rounds and during the pushes; Sync/Pruned, Sync/Flow and Sync/Run/Bills follow the bytes of one
--   user through it.
-- * Panel, of panelapi/sync.go, client.go and multi.go and cmd/mini-sb-agent/topology_panel.go: the
--   way of a report from a snapshot to the commit. Panel/Commit, Panel/Push, Panel/Payload,
--   Panel/Posted, Panel/Requests and Panel/Flushed have its properties. Hook, of cmd/mini-sb-agent/main.go, has one
--   counter for each inbound and joins Counter and Panel; Hook/Traffic has the traffic of its
--   connections, Hook/Routed and Hook/RoutedPackets a user's connection
--   under its counter and limiters.
-- * Users, of panelapi/types.go, cmd/mini-sb-agent/user_delta.go and user_manager.go:
--   Users/Manager has the manager of users and limiters, Users/Manager/Inbounds the application of
--   users to the inbounds (user_apply_vless_enabled.go, user_apply_hy2_enabled.go, node_runtime.go),
--   Users/Merge the merge of the nodes' lists, Users/Fetch where lists come
--   from (client.go, local.go). Users/Delta, Users/Manager/Limits, Users/Manager/Rates,
--   Users/Manager/Secrets and Users/Manager/Groups have their properties; Users/Manager/Logins,
--   Users/Manager/Accepts, Users/Manager/InStep and Users/Manager/Rounds say who can log in.
-- * Config, of cmd/mini-sb-agent/xboard_config.go: the inbounds of a configuration. Config/Generate
--   has the configuration that is generated for a topology, Config/Routes its routes, and
--   Config/Capabilities, of capabilities.go, the check of a topology against the build. Config/Start,
--   of main.go and panelapi/topology.go, is the start of topology mode.
--   Config/NodeApi, of panelapi/node_config.go, fetches a node's configuration, Config/Xboard has the
--   configuration of one or two nodes, Config/Reported who reports their traffic, and Config/Tuning,
--   of main.go, the tuning of Hysteria2 inbounds.
-- * Base, with numbers, 64-bit patterns, integers, texts and maps, and Tests, with concrete inputs.
--
-- Conventions. An `int` or `int64` is its 64-bit pattern, a number below 2^64, and the arithmetic
-- wraps. A Go map is an association list in the order in which a loop visits it; the statements hold
-- for every order. An error is a value of `Result`, or `none`. A function that runs under a lock is
-- one step. The tokens of a limiter are exact multiples of 1e-9 bytes where the source has floats,
-- so that the rounding of sums of tokens is not modelled, and times are nanoseconds; the duration
-- that `reserve` answers is rounded and cut off as the source does it. Texts are bytes, and
-- `strings.ToLower` is modelled on the letters of ASCII. `Wait` and the loop of a limited `Write` run on fuel, one more than the
-- bytes asked for, or their number: each turn takes at least one byte. The loop over the chunks of a
-- body runs on the length of the stream, and that over the lines of a request on the 16 KiB it may
-- have, for the same reason.
--
-- Parameters: the clock, the random revisions and the digest of an entity tag; the network, as the
-- answer to a request, or as the stream of bytes that a connection answers with; the wrapped
-- connections; the methods of sing-box's inbounds; the build tags; the directory part and the joining
-- of paths, and the making of a certificate; encoding/json, and the reading of a path from a URL.
--
-- Not modelled: the command line, signals, the ticker and the start of the data path, dialing, TLS and
-- the server below the mux, JSON, files, the dashboard's text, the runtime's statistics
-- (runtime_debug.go), and the copy of sing-box under fork. A run of the agent is a sequence of rounds,
-- whatever the time between them.
mod Base
pub mod Counter
pub mod RateLimit
pub mod Topology
pub mod PanelServer
pub mod Users
pub mod Panel
pub mod Hook
pub mod Http
pub mod ControlPlane
pub mod Stats
pub mod Sync
pub mod Config
mod Tests
