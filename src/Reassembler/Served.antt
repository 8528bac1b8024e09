-- ===== src/Reassembler/Served.antt =====
-- What a TCP connection does with one DATA frame, and what the frames after it see.
use round_robin.Common.{
  ℕ, ◌≡◌, refl, sym, ap, subst, ◌∙◌, ◌⊎◌, inl, inr, Bool, true, false, Option, none, some, List, [],
  ◌∷◌, some-injective, if◌then◌else◌, Bool-cases, Option-cases, All, arith,
}
use round_robin.Frame.{Frame, flag_data, flag_fin, has_flag}
use round_robin.Reorder.{ReorderBuf, push}
use round_robin.Reorder.Order.{push_all}
use round_robin.Pool.{Mpsc, TrySend, sent, closed, full}
use round_robin.Splitter.Inbound.{Takes, push_refused}
use round_robin.Splitter.Delivery.{Takes-append}
use round_robin.Reassembler.{VirtConnDe}
use round_robin.Reassembler.HalfClose.{close_write_half, start_half_close}
use round_robin.Reassembler.Handler.{write_chunks, take_data, settle, goes_on, breaks, delivered}
use round_robin.Reassembler.Handshake.{Replay}

-- The numbers of the DATA frames.
abbrev pub data_seqs : List Frame → List ℕ
data_seqs [] = []
data_seqs (f ∷ fs) = if has_flag f.flags flag_data then f.seq ∷ data_seqs fs else data_seqs fs

-- The DATA frames carry the chunks of the stream `src`.
abbrev pub CarriesStream : (ℕ → List ℕ) → List Frame → Type 0
CarriesStream src fs = All (λ f. (has_flag f.flags flag_data ≡ false) ⊎ (f.payload ≡ src f.seq)) fs

pub carried :
    (src : ℕ → List ℕ) (f : Frame)
    → (has_flag f.flags flag_data ≡ false) ⊎ (f.payload ≡ src f.seq)
    → has_flag f.flags flag_data ≡ true
    → f.payload ≡ src f.seq
carried src f (inl n) d = absurd (differs (sym d ∙ n))
  where
    differs : ¬ (true ≡ false)
    differs c = cc
carried src f (inr e) d = e

module _ (egress : Mpsc (List ℕ)) where
  open egress use {Sender, try_send}

  -- The connection after the frames that waited, with the last FIN among them, as `drain_pending` does.
  abbrev pub after_replay : Replay Sender → VirtConnDe Sender
  after_replay r = elim r.fin [ none ↦ r.conn | some seq ↦ start_half_close r.conn seq ]

  -- DATA and FIN that find the connection, and whether one of them broke it, as `on_tcp_data` and `on_fin`
  -- do.
  unfoldable pub feed : VirtConnDe Sender → List Frame → ℕ → VirtConnDe Sender × Bool
  unfolding take_data settle start_half_close
  feed vc [] now = (vc, false)
  feed vc (f ∷ fs) now = elim (has_flag f.flags flag_data) [
    | true ↦
        let (vc', fate) = take_data egress vc f.seq f.payload in
        elim fate [
          | goes_on ↦ feed vc' fs now
          | breaks ↦ (vc', true)
          | delivered ↦ feed (settle vc' f.payload now) fs now
        ]
    | false ↦ feed (if has_flag f.flags flag_fin then start_half_close vc f.seq else vc) fs now
  ]

  write_chunks-Takes :
      (tx : Sender) (cs : List (List ℕ))
      → (write_chunks egress tx cs).1 ≡ true
      → Takes egress tx cs (write_chunks egress tx cs).0
  unfolding write_chunks
  write_chunks-Takes tx [] h = refl
  write_chunks-Takes tx (c ∷ cs) h =
      go (try_send tx c) refl h (λ tx' h'. write_chunks-Takes tx' cs h')
    where
      go :
          (t : TrySend Sender)
          → try_send tx c ≡ t
          → (elim t as (λ u. Sender × Bool) [
            | sent tx' ↦ write_chunks egress tx' cs
            | refused ↦ (tx, false)
          ]).1
            ≡ true
          → ((tx' : Sender)
              → (write_chunks egress tx' cs).1 ≡ true
              → Takes egress tx' cs (write_chunks egress tx' cs).0)
          → Takes egress tx
              (c ∷ cs)
              (elim t as (λ u. Sender × Bool) [
                | sent tx' ↦ write_chunks egress tx' cs
                | refused ↦ (tx, false)
              ]).0
      go (sent next) e h ih = (next, e, ih next h)
      go closed e h ih = cc
      go full e h ih = cc

  -- The connection took the frames `ss` of a stream: its window is the one after their pushes, and its
  -- channel took just the chunks that these released.
  pub record Serves (src : ℕ → List ℕ) (vc vc' : VirtConnDe Sender) (ss : List ℕ) : Type 0 where
    pub window : vc'.reorder ≡ (push_all vc.reorder src ss).0
    pub channel :
        (tx : Sender)
        → vc.egress ≡ some tx
        → (tx' : Sender) × (vc'.egress ≡ some tx')
          × Takes egress tx (push_all vc.reorder src ss).1 tx'

  pub Serves-none : (src : ℕ → List ℕ) (vc : VirtConnDe Sender) → Serves src vc vc []
  unfolding push_all
  Serves-none src vc = record { window = refl; channel = λ tx e. (tx, e, refl) }

  -- One frame.
  pub record Served (vc vc' : VirtConnDe Sender) (seq : ℕ) (payload : List ℕ) : Type 0 where
    pub stepped : vc'.reorder ≡ (push vc.reorder seq payload).0
    pub wrote :
        (tx : Sender)
        → vc.egress ≡ some tx
        → (tx' : Sender) × (vc'.egress ≡ some tx')
          × Takes egress tx (push vc.reorder seq payload).1.ready tx'

  pub Serves-more :
      (src : ℕ → List ℕ) (vc mid last : VirtConnDe Sender) (s : ℕ) (ss : List ℕ)
      → Served vc mid s (src s)
      → Serves src mid last ss
      → Serves src vc last (s ∷ ss)
  unfolding push_all
  Serves-more src vc mid last s ss p q = record {
    window = q.window ∙ ap (λ b. (push_all b src ss).0) p.stepped;
    channel = λ tx e.
        let (tx1, e1, t1) = p.wrote tx e in
        let (tx2, e2, t2) = q.channel tx1 e1 in
        (
          tx2,
          e2,
          Takes-append egress tx tx1 tx2 (push vc.reorder s (src s)).1.ready
              (push_all (push vc.reorder s (src s)).0 src ss).1 t1
              (subst (λ (b : ReorderBuf). Takes egress tx1 (push_all b src ss).1 tx2) p.stepped t2),
        );
  }

  accepted_none :
      (vc : VirtConnDe Sender) (seq : ℕ) (payload : List ℕ)
      → (push vc.reorder seq payload).1.accepted ≡ false
      → (tx : Sender) → Takes egress tx (push vc.reorder seq payload).1.ready tx
  accepted_none vc seq payload a tx =
      subst (λ cs. Takes egress tx cs tx) (sym (push_refused vc.reorder seq payload a)) refl

  pub take_data-Served :
      (vc : VirtConnDe Sender) (seq : ℕ) (payload : List ℕ)
      → ((take_data egress vc seq payload).1 ≡ breaks)
        ⊎ Served vc (take_data egress vc seq payload).0 seq payload
  unfolding take_data
  take_data-Served vc seq payload = elim (Bool-cases (push vc.reorder seq payload).1.accepted) [
    | inr a ↦ elim (Bool-cases (push vc.reorder seq payload).1.overflow) [
      | inl o ↦ inl (rw (a, o, take_data) refl)
      | inr o ↦ inr (
          rw (a, take_data)
            (record { stepped = refl; wrote = λ tx e. (tx, e, accepted_none vc seq payload a tx) }))
    ]
    | inl a ↦ elim (Option-cases vc.egress) [
      | inl e ↦ inr (record {
        stepped = rw (a, e, take_data) refl;
        wrote = λ tx h. absurd (absent tx (sym e ∙ h));
      })
      | inr (tx0, e) ↦
          elim (Bool-cases (write_chunks egress tx0 (push vc.reorder seq payload).1.ready).1) [
            | inr w ↦ inl (rw (a, e, w, take_data) refl)
            | inl w ↦ inr (record {
              stepped = rw (a, e, take_data) refl;
              wrote = λ tx h. (
                (write_chunks egress tx0 (push vc.reorder seq payload).1.ready).0,
                rw (a, e, take_data) refl,
                subst
                    (λ t.
                      Takes egress t (push vc.reorder seq payload).1.ready
                        (write_chunks egress tx0 (push vc.reorder seq payload).1.ready).0)
                    (some-injective (sym e ∙ h))
                    (write_chunks-Takes tx0 (push vc.reorder seq payload).1.ready w),
              );
            })
          ]
    ]
  ]
    where
      absent : (tx : Sender) → ¬ (none ≡ some tx)
      absent tx c = cc

  -- A change that leaves window and channel alone.
  pub Served-after :
      (vc mid last : VirtConnDe Sender) (seq : ℕ) (payload : List ℕ)
      → last.reorder ≡ mid.reorder
      → last.egress ≡ mid.egress
      → Served vc mid seq payload
      → Served vc last seq payload
  Served-after vc mid last seq payload w c p = record {
    stepped = w ∙ p.stepped;
    wrote = λ tx e. let (tx', e', t) = p.wrote tx e in (tx', c ∙ e', t);
  }

  pub close_keeps :
      (vc : VirtConnDe Sender)
      → ((close_write_half vc false).reorder ≡ vc.reorder)
        × ((close_write_half vc false).egress ≡ vc.egress)
  unfolding close_write_half
  close_keeps vc = (ground arith, ground arith)

  pub settle_keeps :
      (vc : VirtConnDe Sender) (payload : List ℕ) (now : ℕ)
      → ((settle vc payload now).reorder ≡ vc.reorder)
        × ((settle vc payload now).egress ≡ vc.egress)
  unfolding settle
  settle_keeps vc payload now = (ground arith, ground arith)

  pub start_half_close_keeps :
      (vc : VirtConnDe Sender) (seq : ℕ)
      → ((start_half_close vc seq).reorder ≡ vc.reorder)
        × ((start_half_close vc seq).egress ≡ vc.egress)
  unfolding start_half_close
  start_half_close_keeps vc seq = (ground arith, ground arith)

  pub Serves-before :
      (src : ℕ → List ℕ) (vc mid last : VirtConnDe Sender) (ss : List ℕ)
      → (mid.reorder ≡ vc.reorder) × (mid.egress ≡ vc.egress)
      → Serves src mid last ss
      → Serves src vc last ss
  Serves-before src vc mid last ss (w, c) p = record {
    window = p.window ∙ ap (λ b. (push_all b src ss).0) w;
    channel = λ tx e.
        let (tx', e', t) = p.channel tx (c ∙ e) in
        (tx', e', subst (λ (b : ReorderBuf). Takes egress tx (push_all b src ss).1 tx') w t);
  }

  pub Serves-after :
      (src : ℕ → List ℕ) (vc mid last : VirtConnDe Sender) (ss : List ℕ)
      → (last.reorder ≡ mid.reorder) × (last.egress ≡ mid.egress)
      → Serves src vc mid ss
      → Serves src vc last ss
  Serves-after src vc mid last ss (w, c) p = record {
    window = w ∙ p.window;
    channel = λ tx e. let (tx', e', t) = p.channel tx e in (tx', c ∙ e', t);
  }

  pub after_replay_keeps :
      (r : Replay Sender)
      → ((after_replay r).reorder ≡ r.conn.reorder) × ((after_replay r).egress ≡ r.conn.egress)
  after_replay_keeps r = go r.fin
    where
      go :
          (fin : Option ℕ)
          → let vc = elim fin as (λ o. VirtConnDe Sender) [
            | none ↦ r.conn
            | some seq ↦ start_half_close r.conn seq
          ] in
            (vc.reorder ≡ r.conn.reorder) × (vc.egress ≡ r.conn.egress)
      go none = (refl, refl)
      go (some seq) = start_half_close_keeps r.conn seq
