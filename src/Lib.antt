-- ===== src/Lib.antt =====
-- A model of the server core of rustunnel, a reverse tunnel: clients keep a control connection to the
-- server and register tunnels on it, and the server's edge routes public connections to them.
--
-- Parts, and the files that model them (paths from the repository's root):
-- * crates/rustunnel-server/src/core/tunnel.rs and error.rs, the data: Core/Types. The operations on
--   a tunnel, a member or a group, and on the health timeline: Core/Members, with proofs in
--   Core/Members/Transfer and Core/Members/Ring.
-- * crates/rustunnel-server/src/core/router.rs, `TunnelCore`: the state, sessions, pending
--   connections and the limit on tunnels in Core/Router; `register_*_tunnel` in Core/Router/Register,
--   `remove_tunnel` and `remove_session` in Core/Router/Unregister, the health bits, events and
--   alerts in Core/Router/Health, `resolve_*`, `dispatch_member`, the counters and
--   `classify_nat_pair` in Core/Router/Dispatch, the labels in Core/Subdomain. Core/Routes has the
--   part that the routing tables of subdomains and ports share.
-- * crates/rustunnel-server/src/core/limiter.rs, core/ip_limiter.rs and auth.rs, the limiters:
--   Limits/TokenBucket, Limits/IpRate, Limits/AuthFailure; the deque of instants that the last two
--   prune is in Limits/Window.
-- * crates/rustunnel-protocol/src/frame.rs, the frames of the control connection: Protocol.
-- * crates/rustunnel-server/src/control/session.rs, a client's connection: what it reads and its effects
--   in Control/Session, `RegisterTunnel` in Control/Register, `P2pConnect` in Control/Connect,
--   `handle_client_message` with the other frames and the end of `run_session` in Control/Handle,
--   `auth_handshake` in Control/Auth with `secret_eq` of auth.rs, `heartbeat_task` in
--   Control/Heartbeat, a turn of `main_loop` in Control/Loop. Control/Server has the runs of sessions
--   side by side. The child modules have the proofs.
-- * crates/rustunnel-server/src/billing.rs, the limits of the free plan: Control/Billing, with proofs
--   in Control/Billing/Gate.
-- * crates/rustunnel-server/src/edge, the public side: what is read from a Host header in Edge/Hosts;
--   edge/http.rs with edge/capture.rs in Edge/Http, where `redirect_to_https` is in Edge/Http/Redirect,
--   the forwarded headers in Edge/Http/Headers, `forward_http` with its meter and its captures in
--   Edge/Http/Proxy and `proxy_request` with the two listeners' services in Edge/Http/Requests;
--   edge/tcp.rs in Edge/Tcp, with the managers of listeners, which edge/udp.rs has too, in
--   Edge/Listeners; edge/udp.rs in Edge/Udp, Edge/Udp/Session and Edge/Udp/Ports. Edge/Streams has
--   what the edges share: the permits, the meter and the wait for a stream. Proofs: Edge/Hosts/Laws,
--   Edge/Http/Requests/Settled and Edge/Http/Requests/Reaches, Edge/Listeners/Follow to
--   Edge/Listeners/Tidy, Edge/Streams/Permits and Edge/Streams/Clean, Edge/Http/Headers/Sent,
--   Edge/Tcp/Pending, Edge/Udp/Framing, Edge/Udp/Whole, Edge/Udp/Clean and Edge/Udp/Delivers.
-- * crates/rustunnel-server/src/db/metering.rs with `log_tunnel_registered` of db/mod.rs, the counters
--   in the database: Metering, where a statement is a function on the rows of `tunnel_log`, with proofs
--   in Metering/Grows, Metering/Closes and Metering/Swap.
-- * crates/rustunnel-client/src/reconnect.rs, the loop that connects again: Client/Reconnect, with proofs
--   in Client/Reconnect/Delays.
-- * crates/rustunnel-client/src/stun.rs, the probe for the kind of NAT: Client/Stun, with proofs in
--   Client/Stun/Mapped and Client/Stun/Kinds.
-- * crates/rustunnel-client/src/health.rs, the probe loop of a tunnel with a health check: Client/Health.
--   Its reports are what `set_tunnel_healthy` and `set_tunnel_unhealthy` are called for.
-- * crates/rustunnel-client/src/version.rs, the version that the server reports: Client/Version.
-- * crates/rustunnel-client/src/inspect/tap.rs, the observer of a proxied connection, with `Body` of
--   inspect/mod.rs: bodies and chunks in Client/Tap, heads in Client/Tap/Head, the connection in
--   Client/Tap/State with `feed_request` in Client/Tap/Requests and `feed_response` in
--   Client/Tap/Answers. Proofs: Client/Tap/Captured on bodies, Client/Tap/Bytes and
--   Client/Tap/Splits on the scanner, Client/Tap/Whole and Client/Tap/Returns on the loops.
-- A session's frames end in the methods of `TunnelCore`, after the token's and the plan's checks.
-- The registrations call the session limit, the labels, the members and the tables; the edge resolves
-- through the same tables; the limiters share no state with the tables.
--
-- Correspondence. A `DashMap` is a keyed table with one value for each key, a broadcast channel the
-- list of the events sent, a pool of ports a stack, an atomic or a lock a plain field; a method is one
-- step, so what two calls inside a method may see of a third task is not covered. An id that
-- `Uuid::new_v4` draws, the clock and the random pick are arguments. An error message is the data that
-- it is built from. Texts are lists of UTF-8 bytes. u64 and u32 counters wrap. The token bucket counts
-- exactly, in 10 ^ -9 tokens, where the source uses f64; instants are nanoseconds.
--
-- Core/Invariant and its children say what the operations do to the index, the owners and the
-- sessions; Core/Ports accounts for ports and Core/Groups for the index of TCP groups; Core/Valid puts
-- them together and Core/Valid/Steps has the step relation. Core/Access is on who may share a route,
-- Core/Quota on the limit, Core/Dispatching on resolution, Core/Reporting on health reports and
-- Core/Labels on labels; Witness has concrete states. The loops of
-- the tap run on fuel: as many turns as twice the bytes and two for a connection, since each turn
-- uses up a byte or leaves a body, and as many as the bytes and two for the scanner; the loop over the
-- attributes of a STUN response runs on 256 rounds, each of four bytes at least. Every other loop is
-- over a list; only the decimal text of a number takes a bound on its digits, five for a port, which
-- is below 65536, and ten for a part of a version, which is below 2 ^ 32.
--
-- A handler of a frame is one step: a sent frame is taken to arrive, and no other task runs between
-- its awaits. What the database answers, the ids that a handler draws, the channels that it makes and
-- SHA-256 are arguments.
--
-- A connection at the edge waits for the client to open a stream: what the other tasks do to the state
-- meanwhile, and while the connection is served, is a function that the connection is given, and how
-- the wait ends is an argument.
--
-- Not modelled: the yamux driver and the data connection of a session, the sockets and the TLS of the
-- edges, the daily rollup of usage and the other queries of the database, the dashboard, the probes
-- themselves and the rest of the client.
pub mod Prelude
pub mod Core
pub mod Limits
pub mod Protocol
pub mod Control
pub mod Client
pub mod Edge
pub mod Metering
pub mod Witness
