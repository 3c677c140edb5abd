-- ===== src/Lib.antt =====
-- A verification library for realm, a relay for TCP and UDP: the control of its endpoints and the
-- copy of its streams.
--
-- The parts and how they interact. A control plane submits generations, over the control
-- interface (src/control/api.rs), to a reconciler (realm_core/src/lifecycle/reconcile.rs): the
-- whole desired set of endpoints with a number. The reconciler decides a plan for each endpoint,
-- stops the listeners whose addresses are contended, and carries the plans out on an endpoint
-- manager (realm_core/src/lifecycle/manager.rs). The manager holds for each endpoint one slot for
-- each protocol, a state machine that binds, moves, replaces and stops a listener, and hands the
-- connections of a superseded listener, a cohort (realm_core/src/lifecycle/cohort.rs), to a task
-- that drains it under a deadline. What was applied is written as a snapshot
-- (realm_core/src/lifecycle/snapshot.rs). A connection of a listener
-- (realm_core/src/tcp/middle.rs) chooses its remote by a balancer (realm_lb/src), connects to it,
-- accepts and sends the header of the PROXY protocol, and copies the streams through buffers
-- (realm_io/src/buf.rs and bidi_copy.rs). Datagrams come in batches (realm_core/src/udp/middle.rs),
-- are grouped by their clients, and go out through the sockets of the associations, which are kept
-- in a map (sockmap.rs beside it). Options come from files, the command line and the control plane
-- (src/conf), are merged, and are built to the endpoints that the reconciler is given.
--
-- The files.
--   Base, Base/*: names of the libraries passed on; Boolean tests, lists measured by native
--     numbers, ordered maps as association lists (std's BTreeMap) with the lookup laws
--     (Base/Map) and sums over them (Base/Map/Distinct), 16-bit signed numbers (Base/Int).
--   Endpoint, Endpoint/Display: realm_core/src/endpoint.rs, its data and printed form.
--   Lb, Lb/Rotation: realm_lb/src/balancer.rs and round_robin.rs (sums of weights wrap as i16).
--   Lb/Ring: realm_lb/src/ip_hash.rs. Ring/Overflow takes the unchecked arithmetic at its word:
--     its overflow is undefined, and a ring of two peers or more is not built.
--   Lb/Choice: Balancer::next of balancer.rs.
--   Lb/Text: a balancer as text (parse_from_str of balancer.rs), with what it uses of the strings
--     of the standard library, on lists of characters.
--   Lifecycle/Cohort: cohort.rs.
--   Lifecycle/Manager: the data of manager.rs. Manager/Table: the slots of an entry, refresh and
--     prune. Manager/Start: start_endpoint, stop_active. Manager/Replace: apply_slot, on one slot
--     (slot_step), with what it keeps in Replace/*. Manager/Apply: apply, remove, stop_accept of
--     EndpointManager, with what they keep in Apply/*. Manager/Status: status and wait_drained.
--   Lifecycle/Store: the file of the snapshot (snapshot.rs), with Store/Names about the name of its
--     temporary file and Store/Atomic about what a crash or an error leaves.
--   Lifecycle/Reconcile: the data of reconcile.rs. Reconcile/Planning: the decisions before
--     anything is applied. Reconcile/Release: release_contended_addresses. Reconcile/Apply:
--     apply_generation. Reconcile/Submit: reconcile, with what it keeps in Submit/*.
--     Reconcile/Restore: restore, shutdown and status.
--   Lifecycle/Reconcile/Reach: the states that a reconciler reaches by its calls, by calls of its
--     manager and by tasks that end on their own, and what holds in all of them.
--   Lifecycle/Reconcile/Converge: what a generation answered `applied` comes to. Converge/Drafts and
--     Converge/Plans are about the planning, Converge/Released about the release of addresses,
--     Converge/Carried about the loop over the plans; Converge/Outcome and Converge/Submitted put
--     them together. They rest on Manager/Apply/Everywhere (a property of slots under every call),
--     Runs (which planes serve), Serves (what an application leaves) and Same (what it leaves to
--     other ids).
--   Conf, Conf/Net, Conf/Log, Conf/Dns: the macros of src/conf/mod.rs, and net.rs, log.rs and
--     dns.rs of src/conf. Conf/Full: FullConf of src/conf/mod.rs and EndpointConf of
--     src/conf/endpoint.rs. Conf/Precedence: which options take effect.
--     Conf/Balance: build_balancer of endpoint.rs.
--     Conf/Build: the rest of endpoint.rs; Build/Remote is about the text of a remote, Build/Peers
--     about the remotes and the balancer together; Build/Spec and Build/Material are its description
--     for the reconciler and the digest of its certificates. Conf/Legacy: legacy/mod.rs of src/conf, with
--     Legacy/Ports and Legacy/Pairs. Conf/Decimal: numbers in texts.
--   Control, Control/Api: src/control/api.rs, with Api/Report on the endpoints in a status report,
--     Api/Answers on every request and Api/Serves on a submission that is answered `applied`.
--   Tcp, Tcp/Proxy: realm_core/src/tcp/proxy.rs; Proxy/Header is about the headers, Proxy/Taken
--     about what is taken and written, Proxy/Stream about panics, Proxy/Relay about two relays in
--     a row. Tcp/Connect: connect of realm_core/src/tcp/socket.rs with resolve_addr of
--     realm_core/src/dns/mod.rs. Tcp/Middle: connect_and_relay of realm_core/src/tcp/middle.rs;
--     Middle/Configured is about endpoints that the configuration builds.
--   Udp, Udp/SockMap: realm_core/src/udp/sockmap.rs, with SockMap/Table about it as a function.
--     Udp/Registry: the batch of realm_core/src/udp/middle.rs and its grouping (Registry/Swap,
--     Blocks and Grouped carry the loops). Udp/Middle: associate_and_relay, with
--     Middle/Delivery and Middle/Batch about it.
--   Io, Io/CopyBuffer: CopyBuffer::poll_copy; CopyBuffer/Transfer and CopyBuffer/Total are about it.
--   Io/BidiCopy: realm_io/src/bidi_copy.rs, two directions of it (transfer, transfer2 and
--     BidiCopy::poll), with BidiCopy/Delivers and BidiCopy/Returns about them.
--   Tests modules hold the runs at concrete inputs.
--
-- The state. Code that changes self is a function from state to state. A manager carries, beside
-- its entries, the record of what it did to the listeners (Os): the number of attempts to bind,
-- the events (a listener bound, its serving task joined or found ended), latest first, and the
-- drain tasks whose handles were dropped. What the operating system answers to the n-th attempt,
-- how addresses and numbers are printed, the build and refresh of a description, its serialized
-- bytes and their hash are parameters (System, Printer, Source): code of other crates or of the
-- configuration. Errors of input and output are their texts.
--
-- Fuel. The loop of poll_copy runs on fuel; two rounds more than the reader has answers are
-- enough. The search for a free name of a temporary file has one round more than there are such
-- files; the grouping of a batch one more than it has packets; a number of n is printed on n +
-- 1. A copy in both directions is polled a given number of times. All other loops are over
-- lists.
--
-- Not modelled: clocks and the running of drain tasks, how long a udp socket is held by its
-- associations, the process settings in status reports, HTTP and JSON, the queue in front of the
-- reconciler, sockets and their options, the set-up of name resolution, the parsing of
-- configuration files, the task that routes the answers of an association back, batched system
-- calls, transports and their certificates, and the command line but for the network options.
pub mod Base
pub mod Lb
pub mod Endpoint
pub mod Io
pub mod Conf
pub mod Lifecycle
pub mod Control
pub mod Tcp
pub mod Udp
