-- ===== src/Reassembler/Delivery.antt =====
-- What the target of a TCP connection receives: the frames that waited for the connection, and then
-- those that find it.
use round_robin.Common.{
  append_assoc, ℕ, ◌-◌, ◌^◌, ◌<◌, ◌≡◌, refl, sym, ap, subst, ◌∙◌, ◌⊎◌, inl, inr, Bool, true, false,
  Option, none, some, List, [], ◌∷◌, ◌++◌, if◌then◌else◌, Bool-cases,
}
use round_robin.Frame.{Frame, flag_data, flag_fin, has_flag}
use round_robin.Reorder.{ReorderBuf, push}
use round_robin.Reorder.Order.{push_all, segment}
use round_robin.Reorder.Stream.{Arrives, push_all-in_order}
use round_robin.Pool.{Mpsc}
use round_robin.Splitter.Inbound.{Takes}
use round_robin.Splitter.Delivery.{Takes-append}
use round_robin.Reassembler.Served.{
  data_seqs, CarriesStream, carried, after_replay, feed, Serves, Serves-none, Serves-more, Served,
  take_data-Served, Served-after, close_keeps, settle_keeps, start_half_close_keeps, Serves-before,
  Serves-after, after_replay_keeps,
}
use round_robin.Reassembler.{VirtConnDe, new_conn}
use round_robin.Reassembler.HalfClose.{close_write_half, start_half_close}
use round_robin.Reassembler.Handler.{take_data, settle, Fate, goes_on, breaks, delivered}
use round_robin.Reassembler.Handshake.{Replay, replay}

module _ (egress : Mpsc (List ℕ)) where
  open egress use {Sender}

  feed-Serves :
      (src : ℕ → List ℕ) (vc : VirtConnDe Sender) (fs : List Frame) (now : ℕ)
      → CarriesStream src fs
      → (feed egress vc fs now).1 ≡ false
      → Serves egress src vc (feed egress vc fs now).0 (data_seqs fs)
  unfolding feed
  feed-Serves src vc [] now c = λ fine. Serves-none egress src vc
  feed-Serves src vc (f ∷ fs) now c = elim (Bool-cases (has_flag f.flags flag_data)) [
    | inr h ↦
        rw (h, feed)
          (λ fine.
            Serves-before egress src vc
              (if has_flag f.flags flag_fin then start_half_close vc f.seq else vc) _ (data_seqs fs)
              (told (has_flag f.flags flag_fin)) (feed-Serves src _ fs now c.1 fine))
    | inl h ↦
        rw (h, feed)
          (go h (take_data egress vc f.seq f.payload) (take_data-Served egress vc f.seq f.payload)
            (λ w. feed-Serves src w fs now c.1))
  ]
    where
      told :
          (b : Bool)
          → let w = if b then start_half_close vc f.seq else vc in
            (w.reorder ≡ vc.reorder) × (w.egress ≡ vc.egress)
      told true = start_half_close_keeps egress vc f.seq
      told false = (refl, refl)

      go :
          has_flag f.flags flag_data ≡ true
          → (r : VirtConnDe Sender × Fate) → (r.1 ≡ breaks) ⊎ Served egress vc r.0 f.seq f.payload
          → ((w : VirtConnDe Sender)
              → (feed egress w fs now).1 ≡ false
              → Serves egress src w (feed egress w fs now).0 (data_seqs fs))
          → (elim r.1 as (λ fate. VirtConnDe Sender × Bool) [
            | goes_on ↦ feed egress r.0 fs now
            | breaks ↦ (r.0, true)
            | delivered ↦ feed egress (settle r.0 f.payload now) fs now
          ]).1
            ≡ false
          → Serves egress src vc
              (elim r.1 as (λ fate. VirtConnDe Sender × Bool) [
                | goes_on ↦ feed egress r.0 fs now
                | breaks ↦ (r.0, true)
                | delivered ↦ feed egress (settle r.0 f.payload now) fs now
              ]).0
              (f.seq ∷ data_seqs fs)
      go d (w, breaks) s more fine = cc
      go d (w, goes_on) (inl b) more fine = cc
      go d (w, delivered) (inl b) more fine = cc
      go d (w, goes_on) (inr s) more fine =
          Serves-more egress src vc w _ f.seq (data_seqs fs)
            (subst (Served egress vc w f.seq) (carried src f c.0 d) s) (more w fine)
      go d (w, delivered) (inr s) more fine =
          let k = settle_keeps egress w f.payload now in
          Serves-more egress src vc (settle w f.payload now) _ f.seq (data_seqs fs)
            (subst (Served egress vc (settle w f.payload now) f.seq) (carried src f c.0 d)
              (Served-after egress vc w (settle w f.payload now) f.seq f.payload k.0 k.1 s))
            (more (settle w f.payload now) fine)

  replay-Serves :
      (src : ℕ → List ℕ) (vc : VirtConnDe Sender) (fin : Option ℕ) (fs : List Frame)
      → CarriesStream src fs
      → (replay egress vc fin fs).reset ≡ false
      → Serves egress src vc (replay egress vc fin fs).conn (data_seqs fs)
  unfolding replay
  replay-Serves src vc fin [] c = λ fine. Serves-none egress src vc
  replay-Serves src vc fin (f ∷ fs) c = elim (Bool-cases (has_flag f.flags flag_data)) [
    | inr h ↦ rw (h, replay) (replay-Serves src vc _ fs c.1)
    | inl h ↦
        rw (h, replay)
          (go h (take_data egress vc f.seq f.payload) (take_data-Served egress vc f.seq f.payload)
            (λ w. replay-Serves src w fin fs c.1))
  ]
    where
      closed_keeps :
          (b : Bool) (w : VirtConnDe Sender)
          → ((if b then close_write_half w false else w).reorder ≡ w.reorder)
            × ((if b then close_write_half w false else w).egress ≡ w.egress)
      closed_keeps true w = close_keeps egress w
      closed_keeps false w = (refl, refl)

      go :
          has_flag f.flags flag_data ≡ true
          → (r : VirtConnDe Sender × Fate) → (r.1 ≡ breaks) ⊎ Served egress vc r.0 f.seq f.payload
          → ((w : VirtConnDe Sender)
              → (replay egress w fin fs).reset ≡ false
              → Serves egress src w (replay egress w fin fs).conn (data_seqs fs))
          → (elim r.1 as (λ fate. Replay Sender) [
            | goes_on ↦ replay egress r.0 fin fs
            | breaks ↦ record { conn = r.0; fin = fin; reset = true }
            | delivered ↦
                replay egress (if r.0.fin_received then close_write_half r.0 false else r.0) fin fs
          ]).reset
            ≡ false
          → Serves egress src vc
              (elim r.1 as (λ fate. Replay Sender) [
                | goes_on ↦ replay egress r.0 fin fs
                | breaks ↦ record { conn = r.0; fin = fin; reset = true }
                | delivered ↦
                    replay egress
                      (if r.0.fin_received then close_write_half r.0 false else r.0)
                      fin
                      fs
              ]).conn
              (f.seq ∷ data_seqs fs)
      go d (w, breaks) s more fine = cc
      go d (w, goes_on) (inl b) more fine = cc
      go d (w, delivered) (inl b) more fine = cc
      go d (w, goes_on) (inr s) more fine =
          Serves-more egress src vc w _ f.seq (data_seqs fs)
            (subst (Served egress vc w f.seq) (carried src f c.0 d) s) (more w fine)
      go d (w, delivered) (inr s) more fine =
          let w' = if w.fin_received then close_write_half w false else w in
          let k = closed_keeps w.fin_received w in
          Serves-more egress src vc w' _ f.seq (data_seqs fs)
            (subst (Served egress vc w' f.seq) (carried src f c.0 d)
              (Served-after egress vc w w' f.seq f.payload k.0 k.1 s))
            (more w' fine)

push_all-append :
    (b : ReorderBuf) (src : ℕ → List ℕ) (ss ts : List ℕ)
    → ((push_all b src (ss ++ ts)).0 ≡ (push_all (push_all b src ss).0 src ts).0)
      × ((push_all b src (ss ++ ts)).1
          ≡ (push_all b src ss).1 ++ (push_all (push_all b src ss).0 src ts).1)
unfolding push_all
push_all-append b src [] ts = (refl, refl)
push_all-append b src (s ∷ ss) ts =
    let (window, out) = push_all-append (push b s (src s)).0 src ss ts in
    (
      window,
      ap (◌++◌ (push b s (src s)).1.ready) out ∙ sym (append_assoc (push b s (src s)).1.ready _ _),
    )

module _ (egress : Mpsc (List ℕ)) where
  open egress use {Sender, try_send}

  Serves-append :
      (src : ℕ → List ℕ) (vc mid last : VirtConnDe Sender) (ss ts : List ℕ)
      → Serves egress src vc mid ss
      → Serves egress src mid last ts
      → Serves egress src vc last (ss ++ ts)
  Serves-append src vc mid last ss ts p q =
      let (window, out) = push_all-append vc.reorder src ss ts in
      record {
        window = q.window ∙ ap (λ b. (push_all b src ts).0) p.window ∙ sym window;
        channel = λ tx e.
            let (tx1, e1, t1) = p.channel tx e in
            let (tx2, e2, t2) = q.channel tx1 e1 in
            (
              tx2,
              e2,
              subst (λ cs. Takes egress tx cs tx2) (sym out)
                  (Takes-append egress tx tx1 tx2 (push_all vc.reorder src ss).1
                    (push_all (push_all vc.reorder src ss).0 src ts).1 t1
                    (subst (λ (b : ReorderBuf). Takes egress tx1 (push_all b src ts).1 tx2) p.window
                      t2)),
            );
      }

  -- DATA and FIN frames `ws` of a stream waited for a connection and are replayed to it when it is there,
  -- and then more of them, `gs`, find it. While none of them breaks the connection, the channel to the
  -- target takes exactly the start of the stream, in order and without a gap, in whatever order the
  -- frames came and however often.
  pub egress_in_order :
      (src : ℕ → List ℕ) (tx : Sender) (window now later : ℕ) (ws gs : List Frame)
      → window < 2 ^ 63
      → CarriesStream src ws
      → CarriesStream src gs
      → Arrives src (data_seqs ws ++ data_seqs gs)
      → (replay egress (new_conn (some tx) false window now) none ws).reset ≡ false
      → (feed egress
          (after_replay egress (replay egress (new_conn (some tx) false window now) none ws))
          gs
          later).1
        ≡ false
      → let vc =
          (feed egress
            (after_replay egress (replay egress (new_conn (some tx) false window now) none ws))
            gs
            later).0 in
        (tx' : Sender) × (vc.egress ≡ some tx')
        × Takes egress tx (segment src 1 (vc.reorder.expected - 1)) tx'
  egress_in_order src tx window now later ws gs h cw cg a fine fine' =
      let vc0 = new_conn (some tx) false window now in
      let r = replay egress vc0 none ws in
      let vc = (feed egress (after_replay egress r) gs later).0 in
      let s =
        Serves-append src vc0 (after_replay egress r) vc (data_seqs ws) (data_seqs gs)
          (Serves-after egress src vc0 r.conn (after_replay egress r) (data_seqs ws)
            (after_replay_keeps egress r) (replay-Serves egress src vc0 none ws cw fine))
          (feed-Serves egress src (after_replay egress r) gs later cg fine') in
      let (tx', e, t) = s.channel tx refl in
      (
        tx',
        e,
        subst (λ cs. Takes egress tx cs tx')
            (push_all-in_order src window (data_seqs ws ++ data_seqs gs) h a
              ∙ ap (λ (b : ReorderBuf). segment src 1 (b.expected - 1)) (sym s.window))
            t,
      )
