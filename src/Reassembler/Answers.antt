-- ===== src/Reassembler/Answers.antt =====
-- src/reassembler.rs, `handle_frame`: the task of a UDP association that sends the answers of its targets to the
-- splitter. The source of a datagram is the printed address of `normalize_ip`, which undoes IPv4 in IPv6.
use round_robin.Common.{
  ℕ, suc, ◌+◌, ◌^◌, ◌≤◌, ◌<◌, ◌≡◌, refl, sym, ap, ◌⊎◌, inl, inr, Option-cases, Bool, true, false,
  none, some, List, [], ◌∷◌, length, add_u64, ltb, if◌then◌else◌, ok, err, Bool-cases,
  wrapping_succ, arith,
}
use round_robin.Wire.{BufMut}
use round_robin.Wire.Utf8.{is_utf8}
use round_robin.Frame.{Frame, max_payload}
use round_robin.Frame.New.{data_frame}
use round_robin.Pool.{Mpsc, send}
use round_robin.Socks5.{TargetAddr}
use round_robin.Socks5.Datagram.{decode_udp_datagram}
use round_robin.Socks5.Encode.{AddrParser, encode_udp_datagram}
use round_robin.Socks5.RoundTrip.{printed, decode-encode_udp_datagram}
use round_robin.Splitter.Client.{numbered}
use round_robin.Reassembler.{ReadLoopCtx, find_vconn, write_vconn}

-- A turn of `select!`: `cancel`, an error of a socket, or a datagram with its source.
pub data AnswerEvent : Type 0 where
  cancelled recv_fails : AnswerEvent
  answered : TargetAddr → List ℕ → AnswerEvent

-- The addresses that a datagram may come from.
pub record IsSource (t : TargetAddr) : Type 0 where
  pub port_fits : t.port < 2 ^ 16
  pub not_empty : 1 ≤ length t.address
  pub fits : length t.address ≤ 255
  pub text : is_utf8 t.address ≡ true

module _ (E : Type 0) (parser : AddrParser) (buf : BufMut) (tunnel : Mpsc Frame) where
  abbrev pub Ctx : Type 0
  Ctx = ReadLoopCtx E tunnel.Sender

  -- A turn: what the other tasks did before it, the clock, and the event.
  pub data AnswerTurn : Type 0 where
    turn : (Ctx → Ctx) → ℕ → AnswerEvent → AnswerTurn

  -- The frames that the tunnels took, and whether the task has ended.
  pub record Answers : Type 0 where
    pub state : Ctx
    pub seq : ℕ
    pub frames : List Frame
    pub ended : Bool

  -- The counters of the connection, if it is still in the map.
  unfoldable pub note_answer : Ctx → ℕ → ℕ → ℕ → Ctx
  note_answer ctx cid n now = elim (find_vconn ctx cid) [
    | none ↦ ctx
    | some (at, vc) ↦ write_vconn ctx at (record vc {
      bytes_sent = add_u64 vc.bytes_sent n;
      frames_sent = add_u64 vc.frames_sent 1;
      last_active = now;
    })
  ]

  unfoldable pub udp_answers : ℕ → Ctx → ℕ → List AnswerTurn → Answers
  unfolding note_answer
  udp_answers cid ctx seq [] = record { state = ctx; seq = seq; frames = []; ended = false }
  udp_answers cid ctx seq (turn others now cancelled ∷ ts) = record {
    state = others ctx;
    seq = seq;
    frames = [];
    ended = true;
  }
  udp_answers cid ctx seq (turn others now recv_fails ∷ ts) = record {
    state = others ctx;
    seq = seq;
    frames = [];
    ended = true;
  }
  udp_answers cid ctx seq (turn others now (answered src payload) ∷ ts) =
      let found = others ctx in
      let dropped = udp_answers cid found seq ts in
      elim (encode_udp_datagram parser buf src payload) [
        | err e ↦ dropped
        | ok dgram ↦
            let f = data_frame cid seq dgram in
            let (pool, sent) = send tunnel found.pool f in
            let tried : Ctx = record found { pool = pool } in
            let unsent = udp_answers cid tried seq ts in
            let rest =
              udp_answers cid (note_answer tried cid (length dgram) now) (wrapping_succ seq) ts in
            if ltb max_payload (length dgram)
            then dropped
            else if sent
            then record rest { frames = f ∷ rest.frames }
            else unsent
      ]

  -- All sources of the turns are addresses that a datagram may come from.
  abbrev pub AllSources : List AnswerTurn → Type 0
  AllSources [] = Unit
  AllSources (turn others now cancelled ∷ ts) = AllSources ts
  AllSources (turn others now recv_fails ∷ ts) = AllSources ts
  AllSources (turn others now (answered src payload) ∷ ts) = IsSource src × AllSources ts

  -- A datagram for the client with the answer of `src`: the decoder of the other side reads both from it.
  pub record Wraps (src : TargetAddr) (payload : List ℕ) (p : List ℕ) : Type 0 where
    pub encoded : encode_udp_datagram parser buf src payload ≡ ok p
    pub decoded :
        decode_udp_datagram p
        ≡ ok (record { address = printed parser src.address; port = src.port }, payload)

  -- The payloads that went out over the turns, with the state before them and the next number. An answer that
  -- does not go out is too long for a frame, or refused by all tunnels at its turn.
  pub data Carried (cid : ℕ) : Ctx → ℕ → List AnswerTurn → List (List ℕ) → Type 0 where
    nothing : (ctx : Ctx) (seq : ℕ) → Carried cid ctx seq [] []
    stops :
        (ctx : Ctx) (seq : ℕ) (others : Ctx → Ctx) (now : ℕ) (e : AnswerEvent)
        (ts : List AnswerTurn)
        → (e ≡ cancelled) ⊎ (e ≡ recv_fails)
        → Carried cid ctx seq (turn others now e ∷ ts) []
    too_long :
        (ctx : Ctx) (seq : ℕ) (others : Ctx → Ctx) (now : ℕ) (src : TargetAddr) (payload : List ℕ)
        (ts : List AnswerTurn) (p : List ℕ) (ps : List (List ℕ))
        → Wraps src payload p
        → 65535 < length p
        → Carried cid (others ctx) seq ts ps
        → Carried cid ctx seq (turn others now (answered src payload) ∷ ts) ps
    refused :
        (ctx ctx' : Ctx) (seq : ℕ) (others : Ctx → Ctx) (now : ℕ) (src : TargetAddr)
        (payload : List ℕ) (ts : List AnswerTurn) (p : List ℕ) (ps : List (List ℕ))
        → Wraps src payload p
        → send tunnel (others ctx).pool (data_frame cid seq p) ≡ (ctx'.pool, false)
        → Carried cid ctx' seq ts ps
        → Carried cid ctx seq (turn others now (answered src payload) ∷ ts) ps
    takes :
        (ctx ctx' : Ctx) (seq : ℕ) (others : Ctx → Ctx) (now : ℕ) (src : TargetAddr)
        (payload : List ℕ) (ts : List AnswerTurn) (p : List ℕ) (ps : List (List ℕ))
        → Wraps src payload p
        → length p ≤ 65535
        → send tunnel (others ctx).pool (data_frame cid seq p) ≡ (ctx'.pool, true)
        → Carried cid ctx' (suc seq) ts ps
        → Carried cid ctx seq (turn others now (answered src payload) ∷ ts) (p ∷ ps)

  -- The frames that went out, from the number `seq` on.
  pub record Carries (ctx : Ctx) (ts : List AnswerTurn) (cid seq : ℕ) (r : Answers) : Type 0 where
    pub payloads : List (List ℕ)
    pub frames : r.frames ≡ numbered cid seq payloads
    pub next : r.seq ≡ seq + length payloads
    pub carried : Carried cid ctx seq ts payloads

  -- The counters do not touch the tunnels.
  note_answer-pool : (ctx : Ctx) (cid n now : ℕ) → (note_answer ctx cid n now).pool ≡ ctx.pool
  unfolding note_answer
  note_answer-pool ctx cid n now = elim (Option-cases (find_vconn ctx cid)) [
    | inl e ↦ rw (e, note_answer) refl
    | inr ((at, vc), e) ↦ rw (e, note_answer) refl
  ]

  -- The answers of an association go to the tunnels as frames that are numbered without a gap in the order of
  -- the answers, and the decoder of datagrams reads from each of them the source, an IP address printed from
  -- the octets that std parsed, and the bytes of its answer. Until the task ends, an answer is left out only if
  -- its datagram is longer than 65535 bytes, or if no tunnel takes its frame; it leaves no gap.
  pub udp_answers-Carries :
      (cid : ℕ) (ctx : Ctx) (seq : ℕ) (ts : List AnswerTurn)
      → seq + length ts < 2 ^ 64
      → AllSources ts
      → Carries ctx ts cid seq (udp_answers cid ctx seq ts)
  unfolding udp_answers
  udp_answers-Carries cid ctx seq [] h s = record {
    payloads = [];
    frames = refl;
    next = omega arith;
    carried = nothing ctx seq;
  }
  udp_answers-Carries cid ctx seq (turn others now cancelled ∷ ts) h s = record {
    payloads = [];
    frames = refl;
    next = omega arith;
    carried = stops ctx seq others now cancelled ts (inl refl);
  }
  udp_answers-Carries cid ctx seq (turn others now recv_fails ∷ ts) h s = record {
    payloads = [];
    frames = refl;
    next = omega arith;
    carried = stops ctx seq others now recv_fails ts (inr refl);
  }
  udp_answers-Carries cid ctx seq (turn others now (answered src payload) ∷ ts) h (v, s) =
      let (dgram, e, d) =
        decode-encode_udp_datagram parser buf src payload v.port_fits v.not_empty v.fits v.text in
      let wraps : Wraps src payload dgram = record { encoded = e; decoded = d } in
      let step : wrapping_succ seq ≡ suc seq = omega arith in
      let (pool, took) = send tunnel (others ctx).pool (data_frame cid seq dgram) in
      elim (Bool-cases (ltb max_payload (length dgram))) [
        | inl big ↦
            let r = udp_answers-Carries cid (others ctx) seq ts (omega arith) s in
            rw (e, big, udp_answers)
              (record {
                payloads = r.payloads;
                frames = r.frames;
                next = r.next;
                carried =
                    too_long ctx seq others now src payload ts dgram r.payloads wraps (ground arith)
                      r.carried;
              })
        | inr fits ↦
            elim (Bool-cases (send tunnel (others ctx).pool (data_frame cid seq dgram)).1) [
              | inr unsent ↦
                  let ctx' : Ctx = record (others ctx) { pool = pool } in
                  let r = udp_answers-Carries cid ctx' seq ts (omega arith) s in
                  rw (e, fits, unsent, udp_answers)
                    (record {
                      payloads = r.payloads;
                      frames = r.frames;
                      next = r.next;
                      carried =
                          refused ctx ctx' seq others now src payload ts dgram r.payloads wraps
                            (ap (λ b. (pool, b)) unsent) r.carried;
                    })
              | inl sent ↦
                  let ctx' =
                    note_answer (record (others ctx) { pool = pool }) cid (length dgram) now in
                  let same : pool ≡ ctx'.pool = sym (
                    note_answer-pool (record (others ctx) { pool = pool }) cid (length dgram)
                      now) in
                  let r = udp_answers-Carries cid ctx' (suc seq) ts (omega arith) s in
                  rw (e, fits, sent, step, udp_answers)
                    (record {
                      payloads = dgram ∷ r.payloads;
                      frames = ap (◌∷◌ (data_frame cid seq dgram)) r.frames;
                      next = omega (arith, r.next);
                      carried =
                          takes ctx ctx' seq others now src payload ts dgram r.payloads wraps
                            (ground arith) (λ i. (same i, sent i)) r.carried;
                    })
            ]
      ]
