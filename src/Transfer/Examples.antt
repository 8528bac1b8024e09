-- ===== src/Transfer/Examples.antt =====
-- An upload and a download over tunnels that reorder and repeat their frames, and the theorems at these
-- inputs.
use round_robin.Common.{
  ℕ, ◌≡◌, zero, suc, ◌*◌, refl, true, false, some, List, [], ◌∷◌, get_elem?, concat, arith, All,
}
use round_robin.Frame.{Frame}
use round_robin.Frame.New.{data_frame}
use round_robin.Reorder.{push, new_window, is_complete_through}
use round_robin.Wire.{list_buf}
use round_robin.Wire.Utf8.{is_utf8}
use round_robin.Frame.Syn.{IsSynTarget}
use round_robin.Pool.{new_pool}
use round_robin.Pool.Queue.{Queue, queue}
use round_robin.Socks5.{TargetAddr}
use round_robin.Socks5.Handshake.{rep_success, bare_reply}
use round_robin.Splitter.{VirtConn, State}
use round_robin.Splitter.Opening.{new_vconn, syn_target, open_tcp}
use round_robin.Reassembler.{ReadLoopCtx}
use round_robin.Reassembler.Links.{accept_link}
use round_robin.Transfer.Setup.{IsNew, Reaches, open_tcp-syn_start}
use round_robin.Splitter.Client.{Event, end_of_input, bytes_read, woken, client_loop, chunks}
use round_robin.Reassembler.Egress.{EgressEvent, target_sends, taken, target_closes, egress_loop}
use round_robin.Transfer.Download.{taken_chunks, download_arrives}
use round_robin.Transfer.{push_frames, IsOneOf, StaysNear, upload_arrives}

abbrev events : List Event
events =
    bytes_read (71 ∷ 69 ∷ []) true
    ∷ woken false false
    ∷ bytes_read (84 ∷ []) true
    ∷ end_of_input
    ∷ []

abbrev first : Frame
first = data_frame 42 1 (71 ∷ 69 ∷ [])

abbrev second : Frame
second = data_frame 42 2 (84 ∷ [])

abbrev arrivals : List Frame
arrivals = second ∷ first ∷ second ∷ []

all_sent : (client_loop 42 1 events).frames ≡ first ∷ second ∷ []
unfolding client_loop
all_sent = refl

All-theirs : All (IsOneOf (client_loop 42 1 events).frames) arrivals
unfolding client_loop
All-theirs = ((1, refl), ((0, refl), ((1, refl), tt)))

each_arrives :
    (i : ℕ) (f : Frame) → get_elem? (client_loop 42 1 events).frames i ≡ some f → IsOneOf arrivals f
unfolding client_loop
each_arrives zero f e = (1, e)
each_arrives (suc zero) f e = (0, e)
each_arrives (suc (suc i)) f e = cc

all_near : StaysNear (8 * 128) new_window arrivals
unfolding push new_window data_frame
all_near = (omega arith, (omega arith, (omega arith, tt)))

upload_arrives_example :
    let r = push_frames new_window arrivals in
    (r.2 ≡ false)
    × (is_complete_through r.0 (client_loop 42 1 events).next_seq ≡ true)
    × (concat r.1 ≡ concat (chunks events))
upload_arrives_example =
    upload_arrives 42 events (omega arith) (omega arith) arrivals All-theirs each_arrives all_near

abbrev answers : List EgressEvent
answers = target_sends (71 ∷ 69 ∷ []) taken ∷ target_sends (84 ∷ []) taken ∷ target_closes ∷ []

answers_theirs : All (IsOneOf (egress_loop 42 1 answers).frames) arrivals
unfolding egress_loop
answers_theirs = ((1, refl), ((0, refl), ((1, refl), tt)))

each_answer_arrives :
    (i : ℕ) (f : Frame)
    → get_elem? (egress_loop 42 1 answers).frames i ≡ some f
    → IsOneOf arrivals f
unfolding egress_loop
each_answer_arrives zero f e = (1, e)
each_answer_arrives (suc zero) f e = (0, e)
each_answer_arrives (suc (suc i)) f e = cc

download_arrives_example :
    let r = push_frames new_window arrivals in
    (r.2 ≡ false)
    × (is_complete_through r.0 (egress_loop 42 1 answers).next_seq ≡ true)
    × (concat r.1 ≡ concat (taken_chunks answers))
download_arrives_example =
    download_arrives 42 answers arrivals (omega arith) (omega arith) answers_theirs
      each_answer_arrives all_near

-- A splitter without clients, with one link.
abbrev near : State (Queue (List ℕ)) (Queue Frame)
near = record {
  heap = [];
  conns = [];
  time_wait = [];
  pool = (accept_link new_pool (record { is_open = true; size = 8; items = [] }) 5).0;
  resets = 0;
}

abbrev client : VirtConn (Queue (List ℕ))
client = new_vconn (record { is_open = true; size = 8; items = [] }) 1000 false 5

abbrev far : ReadLoopCtx (Queue (List ℕ)) (Queue Frame)
far = record {
  heap = [];
  next = 3;
  fired = [];
  timers = [];
  conns = [];
  pending = [];
  pending_bytes = 0;
  closed = [];
  handshaking = [];
  pool = new_pool;
  resets = 0;
  reorder_window_bytes = 1000;
}

-- The name "a" at port 80.
abbrev web : TargetAddr
web = record { address = 97 ∷ []; port = 80 }

web-IsSynTarget : IsSynTarget (syn_target web)
unfolding is_utf8
web-IsSynTarget = record { proto_fits = omega arith; port_fits = omega arith; address_utf8 = refl }

far-IsNew : IsNew (queue Frame) far 42
far-IsNew = record { unmapped = refl; no_handshake = refl; not_closed = refl }

open_tcp-syn_start_example :
    Reaches list_buf
      (queue (List ℕ))
      (queue Frame)
      (queue Frame)
      near
      42
      web
      (bare_reply rep_success)
      (open_tcp list_buf
        (queue (List ℕ))
        (queue Frame)
        near
        42
        0
        web
        (bare_reply rep_success)
        client)
      far
      6
open_tcp-syn_start_example =
    open_tcp-syn_start list_buf (queue (List ℕ)) (queue Frame) (queue Frame) near 42 0 web
      (bare_reply rep_success) client far 6 web-IsSynTarget (omega arith) far-IsNew
