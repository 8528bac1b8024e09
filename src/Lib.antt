-- ===== src/Lib.antt =====
-- round_robin carries TCP connections and UDP associations over several TCP tunnels at once: the
-- splitter (src/splitter.rs) takes SOCKS5 clients, cuts what they send into frames (src/frame.rs),
-- numbers them, and gives each to one of the tunnels of its pool (src/tunnel.rs); the reassembler
-- (src/reassembler.rs) puts the frames of each connection back in order with a window
-- (src/reorder.rs) and forwards them. Answers take the same way back.
--
-- The modules, and the code that each is about:
--   Common: names of the library that all modules use, tests on numbers, lists, maps as
--     association lists, results with an error. It is about no code.
--   Wire: the buffers of the `bytes` crate as the interface `BufMut`, big-endian numbers, and
--     UTF-8, as src/frame.rs uses them.
--   Frame: src/frame.rs. Frame/New has the constructors `Frame::data`, `syn`, `fin` and `rst`,
--     Frame/Syn the codec of `SynTarget`, Frame/Decoder `FrameDecoder::try_next` and the loop of
--     `tunnel_read_loop` (src/splitter.rs). Frame/Encode, Frame/Decoder/Parse,
--     Frame/Decoder/Total, Frame/Stream and Frame/SynRoundTrip hold what is shown about them.
--   Reorder: src/reorder.rs, `ReorderBuf` with `with_limit`, `new`, `push` and
--     `is_complete_through`. Its `BTreeMap` is an association list. Reorder/Push is about one
--     push, Reorder/Order and Reorder/Stream about a sequence of pushes, Reorder/Skew about how
--     far tunnels may drift apart.
--   Config: src/config.rs, the splitter's settings and their validation; Config/Defaults has the
--     reassembler's, and the defaults, Config/Ports `parse_ports`; its children hold what is shown
--     about it, Config/Ports/Text about the texts that it reads and Config/Ports/Outcome about its
--     results.
--   Pool: src/tunnel.rs, `TunnelPool` with `add`, `send`, `compact`, `sweep_idle` and the counts,
--     in Pool/Rates and Pool/Schedule `ewma_rate`, `weighted_pick` and `send_async`, in Pool/Drain
--     `drain_frames`. tokio's bounded channel is the interface `Mpsc`, and Pool/Queue is one that
--     implements it, for runs.
--   Socks5: src/socks5.rs, addresses, in Socks5/Datagram `decode_udp_datagram` with
--     `parse_udp_address`, in Socks5/Encode `encode_udp_datagram` with `encode_address`, in
--     Socks5/Handshake `socks5_server_accept`, with the reply that the caller writes, and
--     `socks5_client_connect`, as reads and writes of Socks5/Dialog. Socks5/RoundTrip and
--     Socks5/Meeting hold what is shown about them.
--   Reassembler: src/reassembler.rs, the connections and maps of `ReadLoopCtx`, with connections
--     on a heap as in Splitter. Reassembler/Pending is the buffer of early frames
--     (`remove_pending`, `fail_pending_conn`, `try_reserve_pending`, `sweep_stale_pending`),
--     Reassembler/HalfClose `start_half_close`, `close_write_half` and `finish_if_done`,
--     Reassembler/Handler `handle_frame` for DATA, FIN and RST, Reassembler/Handshake the same for
--     SYN, cut where the handler waits, Reassembler/Heartbeat the heartbeat, Reassembler/Egress
--     `read_from_egress`, Reassembler/Writer `write_to_egress`, Reassembler/Answers the task in
--     `handle_frame` that sends the answers of an association, Reassembler/Links the links of
--     `run_tunnel_listener` and `dispatch_frame`. Reassembler/Steps lets the handlers, the timers,
--     the heartbeat and the ends of the reader follow each other in any order. Reassembler/Budget,
--     Reassembler/Wired, Reassembler/Reserve, Reassembler/Waiting, Reassembler/Early,
--     Reassembler/Kinds, Reassembler/Invariant and Reassembler/Setup hold what is shown about the
--     state, Reassembler/Served and Reassembler/Delivery what is shown about the bytes for a
--     target, Reassembler/Closing and Reassembler/InTime what is shown about the half-close,
--     Reassembler/Abort what is shown about a handshake that is given up.
--   Splitter: src/splitter.rs, the connections, `handle_inbound_frame`, `VirtConn::on_frame` and
--     `reset_conn` over an explicit heap: a connection is shared by the map and its handler, so
--     the map leads from a conn_id to an address. Splitter/Client is the loop of
--     `handle_tcp_client` over a list of events, Splitter/Sweep the heartbeat's sweep with
--     `fin_sweep_decision`, Splitter/Recovery the frames lost with a dead tunnel and the pause
--     before it connects again, Splitter/ConnId `alloc_conn_id`, Splitter/Opening the start of
--     `handle_tcp_client` and `handle_udp_client` up to the reply, and their end, Splitter/Grace
--     the wait for the rest of an answer, with its bounds in Splitter/Grace/Bound, Splitter/Relay
--     the loop of `handle_udp_client`, Splitter/Slots the limit on clients in `run_splitter` and
--     `handle_client`, Splitter/Heartbeat the heartbeat. Splitter/Started holds what is shown
--     about the start and the end of a handler. Splitter/Inbound, Splitter/Delivery,
--     Splitter/Reset and Splitter/Isolation hold what is shown about the frames that come back.
--   Transfer: the loop of a client's handler and the reorder window together. Transfer/Download:
--     the reader of a target and the reorder window. Transfer/Setup: the SYN of a client and its
--     handler.
--
-- Numbers are natural numbers, with `% 2 ^ 64` where a u64 wraps around; conn_ids are not bounded.
-- Each `Examples` module has runs on concrete inputs.
--
-- Loops: the drain of the window runs on as many rounds as the window has entries, since each
-- round takes one out; the loop of `send` runs once per link, and that of `send_async` up to a
-- wait at most once more than there are links; the read loop runs on fuel, and more rounds than
-- there are bytes are enough. The loop of `try_reserve_pending` runs at most once more than there
-- are entries. The others recur on a list.
--
-- Parameters: the growth of a byte buffer (`BufMut`), a bounded channel (`Mpsc`), the parsers of
-- IP addresses of std (`AddrParser`), the arithmetic of `f64` (`Float`), of which nothing is
-- assumed, and what comes from outside as a list: the reads of a transport with its errors, the
-- events of a client, the draws of the random numbers, the answer of a target or of a socket for
-- which a handler waits, the ends of tasks, the clock; the holders of an `Arc`, which the sweep
-- counts, are a function of the address. Locks, atomics and tasks do not appear: each operation
-- runs whole, and a sequence of operations is a sequence of calls. The counters and the time stamp
-- that the client loop keeps are left out there. A write that fails has written nothing.
--
-- Not modelled: the sockets of an association with `normalize_ip`, which print and look up
-- addresses; the task that writes to a TCP client's socket; the loop that connects a tunnel of the
-- splitter again and runs its tasks, but for the pause and the recovery in it; the start of both
-- programs; the text of the configuration, which serde and clap read; the log; the command line
-- and the signals.
pub mod Common
pub mod Wire
pub mod Frame
pub mod Reorder
pub mod Config
pub mod Pool
pub mod Socks5
pub mod Reassembler
pub mod Splitter
pub mod Transfer
