-- ===== src/Splitter/Client.antt =====
-- src/splitter.rs, `handle_tcp_client`: the loop that reads from a client and the end of its stream.
-- What the client, the tunnels and the other tasks do is a list of events.
use round_robin.Common.{
  ℕ, suc, ◌+◌, ◌%◌, ◌^◌, ◌<◌, ◌≡◌, refl, ap, Bool, true, false, Option, none, some, List, [], ◌∷◌,
  length, arith, if◌then◌else◌,
}
use round_robin.Frame.{Frame}
use round_robin.Frame.New.{data_frame, fin_frame, rst_frame}

-- One turn of `select!`: the end of input, bytes with the answer of `send_async` within its timeout,
-- a read error, or a wake-up with the flags `closed` and `rst` of the connection.
pub data Event : Type 0 where
  end_of_input read_fails : Event
  bytes_read : List ℕ → Bool → Event
  woken : Bool → Bool → Event

pub data CloseReason : Type 0 where
  eof no_tunnel read_error rst timeout : CloseReason

-- The DATA frames that the tunnels took, the next number, and the reason for which the loop ended;
-- `none` is a loop that still runs.
pub record Upload : Type 0 where
  pub frames : List Frame
  pub next_seq : ℕ
  pub reason : Option CloseReason

unfoldable pub client_loop : ℕ → ℕ → List Event → Upload
client_loop cid seq [] = record { frames = []; next_seq = seq; reason = none }
client_loop cid seq (end_of_input ∷ es) = record { frames = []; next_seq = seq; reason = some eof }
client_loop cid seq (read_fails ∷ es) = record {
  frames = [];
  next_seq = seq;
  reason = some read_error;
}
client_loop cid seq (bytes_read bytes false ∷ es) = record {
  frames = [];
  next_seq = seq;
  reason = some no_tunnel;
}
client_loop cid seq (bytes_read bytes true ∷ es) =
    let rest = client_loop cid ((seq + 1) % 2 ^ 64) es in
    record rest { frames = data_frame cid seq bytes ∷ rest.frames }
client_loop cid seq (woken true reset ∷ es) = record {
  frames = [];
  next_seq = seq;
  reason = some (if reset then rst else timeout);
}
client_loop cid seq (woken false reset ∷ es) = client_loop cid seq es

-- The frames at the end: `fin_taken` is the answer of `send_async` for the FIN.
unfoldable pub close_frames : ℕ → ℕ → CloseReason → Bool → List Frame
close_frames cid seq rst fin_taken = []
close_frames cid seq no_tunnel fin_taken = rst_frame cid ∷ []
close_frames cid seq eof fin_taken =
    if fin_taken then fin_frame cid seq ∷ [] else rst_frame cid ∷ []
close_frames cid seq read_error fin_taken =
    if fin_taken then fin_frame cid seq ∷ [] else rst_frame cid ∷ []
close_frames cid seq timeout fin_taken =
    if fin_taken then fin_frame cid seq ∷ [] else rst_frame cid ∷ []

-- The chunks that the tunnels took before the loop ended.
abbrev pub chunks : List Event → List (List ℕ)
chunks [] = []
chunks (end_of_input ∷ es) = []
chunks (read_fails ∷ es) = []
chunks (bytes_read bytes false ∷ es) = []
chunks (bytes_read bytes true ∷ es) = bytes ∷ chunks es
chunks (woken true reset ∷ es) = []
chunks (woken false reset ∷ es) = chunks es

abbrev pub numbered : ℕ → ℕ → List (List ℕ) → List Frame
numbered cid seq [] = []
numbered cid seq (c ∷ cs) = data_frame cid seq c ∷ numbered cid (suc seq) cs

-- The frames of an upload are its chunks, numbered without a gap, and the next number stands behind
-- the last, as long as the numbers do not run out.
pub client_loop_lem :
    (cid seq : ℕ) (es : List Event)
    → seq + length (chunks es) < 2 ^ 64
    → let u = client_loop cid seq es in
      (u.frames ≡ numbered cid seq (chunks es)) × (u.next_seq ≡ seq + length (chunks es))
unfolding client_loop
client_loop_lem cid seq [] h = (refl, omega arith)
client_loop_lem cid seq (end_of_input ∷ es) h = (refl, omega arith)
client_loop_lem cid seq (read_fails ∷ es) h = (refl, omega arith)
client_loop_lem cid seq (bytes_read bytes false ∷ es) h = (refl, omega arith)
client_loop_lem cid seq (bytes_read bytes true ∷ es) h =
    let step : (seq + 1) % 2 ^ 64 ≡ suc seq = omega arith in
    let (frames, next) = client_loop_lem cid (suc seq) es (omega arith) in
    rw step (ap (◌∷◌ (data_frame cid seq bytes)) frames, omega arith)
client_loop_lem cid seq (woken true reset ∷ es) h = (refl, omega arith)
client_loop_lem cid seq (woken false reset ∷ es) h = client_loop_lem cid seq es h
