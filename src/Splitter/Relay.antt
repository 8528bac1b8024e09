-- ===== src/Splitter/Relay.antt =====
-- src/splitter.rs, `handle_udp_client`: the loop that relays the datagrams of a client, and the task that hands
-- the answers to it.
use round_robin.Common.{
  ℕ, zero, suc, ◌+◌, ◌%◌, ◌^◌, ◌<◌, ◌≡◌, refl, sym, ap, subst, inl, inr, Bool, true, false, ◌&&◌,
  Option, none, some, some-injective, List, [], ◌∷◌, length, lookup, add_u64, ◌==◌, if◌then◌else◌,
  Bool-cases, arith,
}
use round_robin.Frame.{Frame}
use round_robin.Frame.New.{data_frame}
use round_robin.Pool.{Mpsc, send}
use round_robin.Socks5.Handshake.{SocketAddr, v4, v6}
use round_robin.Splitter.{State, write_conn}
use round_robin.Splitter.Client.{numbered}

-- `known == client`
abbrev pub same_octets : List ℕ → List ℕ → Bool
same_octets [] [] = true
same_octets [] (y ∷ ys) = false
same_octets (x ∷ xs) [] = false
same_octets (x ∷ xs) (y ∷ ys) = (x == y) && same_octets xs ys

abbrev pub same_addr : SocketAddr → SocketAddr → Bool
same_addr (v4 octets port) (v4 octets' port') = same_octets octets octets' && (port == port')
same_addr (v4 octets port) (v6 octets' port') = false
same_addr (v6 octets port) (v4 octets' port') = false
same_addr (v6 octets port) (v6 octets' port') = same_octets octets octets' && (port == port')

same_octets-eq : (xs ys : List ℕ) → same_octets xs ys ≡ true → xs ≡ ys
same_octets-eq [] [] h = refl
same_octets-eq [] (y ∷ ys) h = cc
same_octets-eq (x ∷ xs) [] h = cc
same_octets-eq (x ∷ xs) (y ∷ ys) h = ground (arith, same_octets-eq xs ys)

same_addr-eq : (a b : SocketAddr) → same_addr a b ≡ true → a ≡ b
same_addr-eq (v4 octets port) (v4 octets' port') h = ground (arith, same_octets-eq octets octets')
same_addr-eq (v4 octets port) (v6 octets' port') h = cc
same_addr-eq (v6 octets port) (v4 octets' port') h = cc
same_addr-eq (v6 octets port) (v6 octets' port') h = ground (arith, same_octets-eq octets octets')

-- One turn of `select!`: an error of the socket, a datagram with its sender, the end of the control
-- connection, or a wake-up.
pub data RelayEvent : Type 0 where
  recv_fails keepalive_closed notified : RelayEvent
  received : List ℕ → SocketAddr → RelayEvent

-- The client that is known now, and whether its datagram is relayed.
unfoldable pub pin_client : Option SocketAddr → SocketAddr → Option SocketAddr × Bool
pin_client none client = (some client, true)
pin_client (some known) client = (some known, same_addr known client)

-- Whether the loop has ended, the frames that the tunnels took, and the number of relayed datagrams.
pub record Relayed (X : Type 0) : Type 0 where
  pub state : X
  pub client_addr : Option SocketAddr
  pub seq : ℕ
  pub frames : List Frame
  pub udp_sent : ℕ
  pub ended : Bool

-- The datagrams for the client with the results of `send_to`, and the client as the task finds it: what the
-- client is sent.
unfoldable pub answer_client : List (List ℕ × Option SocketAddr × Bool) → List (List ℕ × SocketAddr)
answer_client [] = []
answer_client ((dgram, none, works) ∷ more) = answer_client more
answer_client ((dgram, some addr, true) ∷ more) = (dgram, addr) ∷ answer_client more
answer_client ((dgram, some addr, false) ∷ more) = []

module _ (client : Mpsc (List ℕ)) (tunnel : Mpsc Frame) where
  -- The loop of three attempts; `others` is what the other tasks do at `yield_now`.
  unfoldable pub send_tries :
      ℕ
      → State client.Sender tunnel.Sender
      → (State client.Sender tunnel.Sender → State client.Sender tunnel.Sender)
      → Frame
      → State client.Sender tunnel.Sender × Bool
  send_tries zero st others f = (st, false)
  send_tries (suc n) st others f =
      let (pool, sent) = send tunnel st.pool f in
      let st' : State client.Sender tunnel.Sender = record st { pool = pool } in
      let rest = send_tries n (others st') others f in if sent then (st', true) else rest

  -- The counters of the connection after a datagram of `n` bytes.
  unfoldable pub note_datagram :
      State client.Sender tunnel.Sender → ℕ → ℕ → ℕ → State client.Sender tunnel.Sender
  note_datagram st at n now = elim (lookup at st.heap) [
    | none ↦ st
    | some vc ↦ write_conn st at (record vc {
      bytes_sent = add_u64 vc.bytes_sent n;
      frames_sent = add_u64 vc.frames_sent 1;
      last_active = now;
    })
  ]

  -- `vconn.closed`
  abbrev pub is_closed : State client.Sender tunnel.Sender → ℕ → Bool
  is_closed st at = elim (lookup at st.heap) [ none ↦ false | some vc ↦ vc.closed ]

  abbrev pub Others : Type 0
  Others = State client.Sender tunnel.Sender → State client.Sender tunnel.Sender

  -- A turn: what the other tasks did before it, what they do at a `yield_now`, the clock, and the event.
  pub data Turn : Type 0 where
    turn : Others → Others → ℕ → RelayEvent → Turn

  abbrev pub Running : Type 0
  Running = Relayed (State client.Sender tunnel.Sender)

  abbrev pub stopped :
      State client.Sender tunnel.Sender → Option SocketAddr → ℕ → ℕ → Bool → Running
  stopped st ca seq udp_sent ended = record {
    state = st;
    client_addr = ca;
    seq = seq;
    frames = [];
    udp_sent = udp_sent;
    ended = ended;
  }

  unfoldable pub udp_loop :
      ℕ → ℕ → State client.Sender tunnel.Sender → Option SocketAddr → ℕ → ℕ → List Turn → Running
  unfolding pin_client send_tries note_datagram
  udp_loop cid at st ca seq udp_sent [] = stopped st ca seq udp_sent false
  udp_loop cid at st ca seq udp_sent (turn before yielding now recv_fails ∷ ts) =
      stopped (before st) ca seq udp_sent true
  udp_loop cid at st ca seq udp_sent (turn before yielding now keepalive_closed ∷ ts) =
      stopped (before st) ca seq udp_sent true
  udp_loop cid at st ca seq udp_sent (turn before yielding now notified ∷ ts) =
      let rest = udp_loop cid at (before st) ca seq udp_sent ts in
      if is_closed (before st) at then stopped (before st) ca seq udp_sent true else rest
  udp_loop cid at st ca seq udp_sent (turn before yielding now (received bytes from) ∷ ts) =
      let (ca', known) = pin_client ca from in
      let f = data_frame cid seq bytes in
      let (st', sent) = send_tries 3 (before st) yielding f in
      let sent_more = add_u64 udp_sent 1 in
      let dropped = udp_loop cid at (before st) ca' seq udp_sent ts in
      let unsent = udp_loop cid at st' ca' seq sent_more ts in
      let noted = note_datagram st' at (length bytes) now in
      let rest = udp_loop cid at noted ca' ((seq + 1) % 2 ^ 64) sent_more ts in
      if known then (if sent then record rest { frames = f ∷ rest.frames } else unsent) else dropped

  -- The client of an association: the one of the request, and else the first sender.
  abbrev pub client_of : Option SocketAddr → List Turn → Option SocketAddr
  client_of (some known) ts = some known
  client_of none [] = none
  client_of none (turn before yielding now recv_fails ∷ ts) = none
  client_of none (turn before yielding now keepalive_closed ∷ ts) = none
  client_of none (turn before yielding now notified ∷ ts) = client_of none ts
  client_of none (turn before yielding now (received bytes from) ∷ ts) = some from

  -- The payloads are those of some of the client's datagrams, in order.
  pub data SentBy (k : SocketAddr) : List Turn → List (List ℕ) → Type 0 where
    nothing : (ts : List Turn) → SentBy k ts []
    skips : (t : Turn) (ts : List Turn) (ps : List (List ℕ)) → SentBy k ts ps → SentBy k (t ∷ ts) ps
    takes :
        (before yielding : Others) (now : ℕ) (ts : List Turn) (bytes : List ℕ) (ps : List (List ℕ))
        → SentBy k ts ps
        → SentBy k (turn before yielding now (received bytes k) ∷ ts) (bytes ∷ ps)

  -- The frames that went out are numbered payloads of the client `k`.
  pub record Relays (k : SocketAddr) (ts : List Turn) (cid seq : ℕ) (r : Running) : Type 0 where
    pub payloads : List (List ℕ)
    pub frames : r.frames ≡ numbered cid seq payloads
    pub next : r.seq ≡ seq + length payloads
    pub sent_by : SentBy k ts payloads

  stopped-Relays :
      (k : SocketAddr) (ts : List Turn) (cid seq : ℕ) (st : State client.Sender tunnel.Sender)
      (ca : Option SocketAddr) (udp_sent : ℕ) (ended : Bool)
      → Relays k ts cid seq (stopped st ca seq udp_sent ended)
  stopped-Relays k ts cid seq st ca udp_sent ended = record {
    payloads = [];
    frames = refl;
    next = omega arith;
    sent_by = nothing ts;
  }

  Relays-skip :
      (k : SocketAddr) (t : Turn) (ts : List Turn) (cid seq : ℕ) (r : Running)
      → Relays k ts cid seq r
      → Relays k (t ∷ ts) cid seq r
  Relays-skip k t ts cid seq r v = record {
    payloads = v.payloads;
    frames = v.frames;
    next = v.next;
    sent_by = skips t ts v.payloads v.sent_by;
  }

  Relays-take :
      (k from : SocketAddr) (before yielding : Others) (now : ℕ) (ts : List Turn) (bytes : List ℕ)
      (cid seq : ℕ) (r : Running)
      → k ≡ from
      → Relays k ts cid (suc seq) r
      → Relays k
          (turn before yielding now (received bytes from) ∷ ts)
          cid
          seq
          (record r { frames = data_frame cid seq bytes ∷ r.frames })
  Relays-take k from before yielding now ts bytes cid seq r e v = record {
    payloads = bytes ∷ v.payloads;
    frames = ap (◌∷◌ (data_frame cid seq bytes)) v.frames;
    next = omega (arith, v.next);
    sent_by =
        subst
          (λ src.
            SentBy k (turn before yielding now (received bytes src) ∷ ts) (bytes ∷ v.payloads))
          e (takes before yielding now ts bytes v.payloads v.sent_by);
  }

  udp_loop-known :
      (cid at : ℕ) (st : State client.Sender tunnel.Sender) (k : SocketAddr) (seq udp_sent : ℕ)
      (ts : List Turn)
      → seq + length ts < 2 ^ 64
      → Relays k ts cid seq (udp_loop cid at st (some k) seq udp_sent ts)
  unfolding udp_loop pin_client
  udp_loop-known cid at st k seq udp_sent [] h =
      stopped-Relays k [] cid seq st (some k) udp_sent false
  udp_loop-known cid at st k seq udp_sent (turn before yielding now recv_fails ∷ ts) h =
      stopped-Relays k _ cid seq (before st) (some k) udp_sent true
  udp_loop-known cid at st k seq udp_sent (turn before yielding now keepalive_closed ∷ ts) h =
      stopped-Relays k _ cid seq (before st) (some k) udp_sent true
  udp_loop-known cid at st k seq udp_sent (turn before yielding now notified ∷ ts) h =
      elim (Bool-cases (is_closed (before st) at)) [
        | inl c ↦ rw c (stopped-Relays k _ cid seq (before st) (some k) udp_sent true)
        | inr c ↦ rw c (
            Relays-skip k _ ts cid seq _
              (udp_loop-known cid at (before st) k seq udp_sent ts (omega arith)))
      ]
  udp_loop-known cid at st k seq udp_sent (turn before yielding now (received bytes from) ∷ ts) h =
      elim (Bool-cases (same_addr k from)) [
        | inr other ↦ rw other (
            Relays-skip k _ ts cid seq _
              (udp_loop-known cid at (before st) k seq udp_sent ts (omega arith)))
        | inl same ↦
            let step : (seq + 1) % 2 ^ 64 ≡ suc seq = omega arith in
            elim (Bool-cases (send_tries 3 (before st) yielding (data_frame cid seq bytes)).1) [
              | inr unsent ↦
                  rw (same, unsent)
                    (Relays-skip k _ ts cid seq _
                      (udp_loop-known cid at _ k seq _ ts (omega arith)))
              | inl sent ↦
                  rw (same, sent, step)
                    (Relays-take k from before yielding now ts bytes cid seq _
                      (same_addr-eq k from same)
                      (udp_loop-known cid at _ k (suc seq) _ ts (omega arith)))
            ]
      ]

  -- The frames of an association are datagrams of one client: of the client of the request, and if that named
  -- none, of the first sender. They are numbered without a gap in their order, and the next number stands
  -- behind the last. Datagrams of others, and those that no tunnel takes, leave no gap.
  pub udp_loop-Relays :
      (cid at : ℕ) (st : State client.Sender tunnel.Sender) (ca : Option SocketAddr)
      (seq udp_sent : ℕ) (ts : List Turn)
      → seq + length ts < 2 ^ 64
      → (k : SocketAddr) → client_of ca ts ≡ some k
      → Relays k ts cid seq (udp_loop cid at st ca seq udp_sent ts)
  unfolding udp_loop pin_client
  udp_loop-Relays cid at st (some known) seq udp_sent ts h k e =
      subst (λ c. Relays k ts cid seq (udp_loop cid at st c seq udp_sent ts)) (sym e)
        (udp_loop-known cid at st k seq udp_sent ts h)
  udp_loop-Relays cid at st none seq udp_sent [] h k e = cc
  udp_loop-Relays cid at st none seq udp_sent (turn before yielding now recv_fails ∷ ts) h k e = cc
  udp_loop-Relays cid at st none seq udp_sent (turn before yielding now keepalive_closed ∷ ts) h k
        e =
      cc
  udp_loop-Relays cid at st none seq udp_sent (turn before yielding now notified ∷ ts) h k e =
      elim (Bool-cases (is_closed (before st) at)) [
        | inl c ↦ rw c (stopped-Relays k _ cid seq (before st) none udp_sent true)
        | inr c ↦ rw c (
            Relays-skip k _ ts cid seq _
              (udp_loop-Relays cid at (before st) none seq udp_sent ts (omega arith) k e))
      ]
  udp_loop-Relays cid at st none seq udp_sent (turn before yielding now (received bytes from) ∷ ts)
        h k e =
      let first : k ≡ from = sym (some-injective e) in
      let step : (seq + 1) % 2 ^ 64 ≡ suc seq = omega arith in
      let rest : (s : State client.Sender tunnel.Sender) (n u : ℕ)
          → n + length ts < 2 ^ 64
          → Relays k ts cid n (udp_loop cid at s (some from) n u ts) =
        λ s n u lt. udp_loop-Relays cid at s (some from) n u ts lt k e in
      elim (Bool-cases (send_tries 3 (before st) yielding (data_frame cid seq bytes)).1) [
        | inr unsent ↦ rw unsent (Relays-skip k _ ts cid seq _ (rest _ seq _ (omega arith)))
        | inl sent ↦
            rw (sent, step)
              (Relays-take k from before yielding now ts bytes cid seq _ first
                (rest _ (suc seq) _ (omega arith)))
      ]
