-- ===== src/Pool/Drain.antt =====
-- src/tunnel.rs: `drain_frames`, the task that writes the frames of a link's channel to its tunnel, and what
-- becomes of each frame.
use round_robin.Common.{
  ℕ, ◌≡◌, refl, ap, ◌∙◌, ◌⊎◌, inl, inr, Bool, true, false, some, List, [], ◌∷◌, ◌++◌, append_assoc,
  length, get_elem?, add_u64, ltb, ltb→lt, if◌then◌else◌, Bool-cases, ok, err, arith, All,
}
use round_robin.Wire.{BufMut}
use round_robin.Frame.{Frame, Error, IsFrame, encode_into, max_payload}
use round_robin.Frame.Encode.{wire, encode_into_branches}
use round_robin.Pool.{TunnelLink}
use round_robin.Pool.Rates.{Float, ewma_rate}

-- The answer of `write_all` within its timeout, raced against `stop`. A write that is done comes with the
-- clock and the seconds since the last one.
pub data Writing (F : Type 0) : Type 0 where
  stops_first fails : Writing F
  done : ℕ → F → Writing F

-- A turn of the loop: `stop`, or the next of the channel; a channel that is empty then was closed.
pub data Turn (F : Type 0) : Type 0 where
  stops : Turn F
  receives : Writing F → Turn F

-- The link, the bytes on the tunnel, the frames that they are, and whether the task has ended. What a write
-- puts on the tunnel before it fails is left out.
pub record Drained (S : Type 0) : Type 0 where
  pub link : TunnelLink S
  pub bytes : List ℕ
  pub written : List Frame
  pub ended : Bool

module _ {S : Type 0} where
  abbrev pub lose : TunnelLink S → Frame → TunnelLink S
  lose l f = record l { lost_frames = l.lost_frames ++ f ∷ [] }

  -- After the loop: what is left in the channel is lost, and the read loop is told.
  abbrev pub end_drain : TunnelLink S → List Frame → Drained S
  end_drain l queue = record {
    link = record l { lost_frames = l.lost_frames ++ queue; writer_died = true };
    bytes = [];
    written = [];
    ended = true;
  }

module _ (float : Float) (buf : BufMut) where
  open float use {F, of_nat, div, less, to_bits}

  module _ {S : Type 0} where
    -- What a write that is done leaves on the link, and the rate.
    unfoldable pub note_write : TunnelLink S → F → ℕ → ℕ → F → TunnelLink S × F
    unfolding ewma_rate
    note_write l rate n now dt =
        let sent_more = record l {
          bytes_sent = add_u64 l.bytes_sent n;
          frames_sent = add_u64 l.frames_sent 1;
          last_active_ms = now;
        } in
        if less (of_nat 0) dt
        then (let r = ewma_rate float rate (div (of_nat n) dt) dt in
            (record sent_more { rate_bps = to_bits r }, r))
        else (sent_more, rate)

    unfoldable pub drain_loop : TunnelLink S → F → List Frame → List (Turn F) → Drained S
    unfolding note_write
    drain_loop l rate queue [] = record { link = l; bytes = []; written = []; ended = false }
    drain_loop l rate queue (stops ∷ turns) = end_drain l queue
    drain_loop l rate [] (receives w ∷ turns) = end_drain l []
    drain_loop l rate (f ∷ queue) (receives stops_first ∷ turns) = end_drain (lose l f) queue
    drain_loop l rate (f ∷ queue) (receives fails ∷ turns) = elim (encode_into buf f []) [
      | err e ↦ end_drain (lose l f) queue
      | ok enc ↦ end_drain l queue
    ]
    drain_loop l rate (f ∷ queue) (receives (done now dt) ∷ turns) =
        let (l', rate') = note_write l rate (length f.payload) now dt in
        let rest = drain_loop l' rate' queue turns in
        elim (encode_into buf f []) [
          | err e ↦ end_drain (lose l f) queue
          | ok enc ↦ record rest { bytes = enc ++ rest.bytes; written = f ∷ rest.written }
        ]

    unfoldable pub drain_frames : TunnelLink S → List Frame → List (Turn F) → Drained S
    unfolding drain_loop
    drain_frames l queue turns = drain_loop l (of_nat 0) queue turns

  -- The frames on the wire.
  abbrev pub wires : List Frame → List ℕ
  wires [] = []
  wires (f ∷ fs) = wire f ++ wires fs

  encoded :
      (f : Frame)
      → IsFrame f
      → (encode_into buf f [] ≡ ok (wire f)) ⊎ ((e : Error) × (encode_into buf f [] ≡ err e))
  encoded f v = elim (Bool-cases (ltb max_payload (length f.payload))) [
    | inl big ↦
        inr (_, (encode_into_branches buf f [] v).1 (ltb→lt max_payload (length f.payload) big))
    | inr small ↦ inl (((encode_into_branches buf f [] v).0 (ground arith)).0)
  ]

  module _ {S : Type 0} where
    -- Where the frames of the channel went: onto the tunnel, or onto the list of the lost; or one between,
    -- whose write failed.
    pub record Accounts (l : TunnelLink S) (queue : List Frame) (turns : List (Turn F))
        (d : Drained S) : Type 0 where
      pub lost : List Frame
      pub reported : d.link.lost_frames ≡ l.lost_frames ++ lost
      pub on_wire : d.bytes ≡ wires d.written
      pub every :
          (queue ≡ d.written ++ lost)
          ⊎ ((f : Frame) × (queue ≡ d.written ++ f ∷ lost)
              × (get_elem? turns (length d.written) ≡ some (receives fails)))
      pub told : d.link.writer_died ≡ true

    end-Accounts :
        (l : TunnelLink S) (queue : List Frame) (turns : List (Turn F))
        → Accounts l queue turns (end_drain l queue)
    end-Accounts l queue turns = record {
      lost = queue;
      reported = refl;
      on_wire = refl;
      every = inl refl;
      told = refl;
    }

    lose-Accounts :
        (l : TunnelLink S) (f : Frame) (queue : List Frame) (turns : List (Turn F))
        → Accounts l (f ∷ queue) turns (end_drain (lose l f) queue)
    lose-Accounts l f queue turns = record {
      lost = f ∷ queue;
      reported = append_assoc l.lost_frames (f ∷ []) queue;
      on_wire = refl;
      every = inl refl;
      told = refl;
    }

    more-Accounts :
        (l l' : TunnelLink S) (f : Frame) (queue : List Frame) (t : Turn F) (turns : List (Turn F))
        (d : Drained S)
        → l'.lost_frames ≡ l.lost_frames
        → Accounts l' queue turns d
        → Accounts l
            (f ∷ queue)
            (t ∷ turns)
            (record d { bytes = wire f ++ d.bytes; written = f ∷ d.written })
    more-Accounts l l' f queue t turns d same a = record {
      lost = a.lost;
      reported = a.reported ∙ ap (λ x. x ++ a.lost) same;
      on_wire = ap (◌++◌ (wire f)) a.on_wire;
      every = elim a.every [
        | inl e ↦ inl (ap (◌∷◌ f) e)
        | inr (g, e, k) ↦ inr (g, ap (◌∷◌ f) e, k)
      ];
      told = a.told;
    }

    keep_link :
        (l : TunnelLink S) (rate : F) (n now : ℕ) (dt : F)
        → (note_write l rate n now dt).0.lost_frames ≡ l.lost_frames
    unfolding note_write
    keep_link l rate n now dt = ground arith

    drain_loop-Accounts :
        (l : TunnelLink S) (rate : F) (queue : List Frame) (turns : List (Turn F))
        → All IsFrame queue
        → (drain_loop l rate queue turns).ended ≡ true
        → Accounts l queue turns (drain_loop l rate queue turns)
    unfolding drain_loop
    drain_loop-Accounts l rate queue [] v = λ h. cc
    drain_loop-Accounts l rate queue (stops ∷ turns) v = λ h. end-Accounts l queue _
    drain_loop-Accounts l rate [] (receives w ∷ turns) v = λ h. end-Accounts l [] _
    drain_loop-Accounts l rate (f ∷ queue) (receives stops_first ∷ turns) v =
        λ h. lose-Accounts l f queue _
    drain_loop-Accounts l rate (f ∷ queue) (receives fails ∷ turns) v = λ h. elim (encoded f v.0) [
      | inr (e, p) ↦ rw (p, drain_loop) (lose-Accounts l f queue _)
      | inl p ↦
          rw (p, drain_loop)
            (record {
              lost = queue;
              reported = refl;
              on_wire = refl;
              every = inr (f, refl, refl);
              told = refl;
            })
    ]
    drain_loop-Accounts l rate (f ∷ queue) (receives (done now dt) ∷ turns) v =
        elim (encoded f v.0) [
          | inr (e, p) ↦ rw (p, drain_loop) (λ h. lose-Accounts l f queue _)
          | inl p ↦
              rw (p, drain_loop)
                (λ h.
                  more-Accounts l (note_write l rate (length f.payload) now dt).0 f queue _ turns _
                    (keep_link l rate (length f.payload) now dt)
                    (drain_loop-Accounts (note_write l rate (length f.payload) now dt).0
                      (note_write l rate (length f.payload) now dt).1 queue turns v.1 h))
        ]

    -- A drain that has ended gave account of every frame of the channel, in order: the first ones are on the
    -- tunnel, whole, and the rest are reported as lost. One frame between them is neither, if the tunnel
    -- refused its write. The read loop is told.
    pub drain_frames-Accounts :
        (l : TunnelLink S) (queue : List Frame) (turns : List (Turn F))
        → All IsFrame queue
        → (drain_frames l queue turns).ended ≡ true
        → Accounts l queue turns (drain_frames l queue turns)
    unfolding drain_frames
    drain_frames-Accounts l queue turns v h = drain_loop-Accounts l (of_nat 0) queue turns v h
