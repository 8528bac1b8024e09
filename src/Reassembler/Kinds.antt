-- ===== src/Reassembler/Kinds.antt =====
-- No operation on a connection takes its channel away or makes it of the other kind.
use round_robin.Common.{
  add_u64, length, inl, inr, ℕ, ◌≡◌, refl, sym, ◌∙◌, Bool, true, false, Option, none, some, List,
  [], ◌∷◌, ◌++◌, if◌then◌else◌, Bool-cases, Option-cases, Result, ok, err, arith,
}
use round_robin.Frame.{Frame, flag_data, has_flag}
use round_robin.Reorder.{push}
use round_robin.Pool.{Mpsc}
use round_robin.Socks5.{TargetAddr, Error}
use round_robin.Socks5.Datagram.{decode_udp_datagram}
use round_robin.Reassembler.{VirtConnDe}
use round_robin.Reassembler.Wired.{HasEgress}
use round_robin.Reassembler.HalfClose.{close_write_half, start_half_close}
use round_robin.Reassembler.Handler.{
  forward_udp_datagram, settle, take_data, Fate, goes_on, breaks, delivered,
}
use round_robin.Reassembler.Handshake.{forward_all, replay, Replay}

module _ {E : Type 0} where
  pub record SameKind (vc vc' : VirtConnDe E) : Type 0 where
    pub same_udp : vc'.is_udp ≡ vc.is_udp
    pub still_there : (tx : E) → vc.egress ≡ some tx → (tx' : E) × (vc'.egress ≡ some tx')

  pub SameKind-HasEgress : (vc vc' : VirtConnDe E) → SameKind vc vc' → HasEgress vc → HasEgress vc'
  SameKind-HasEgress vc vc' k h tcp = let (tx, e) = h (sym k.same_udp ∙ tcp) in k.still_there tx e

  pub SameKind-trans : (a b c : VirtConnDe E) → SameKind a b → SameKind b c → SameKind a c
  SameKind-trans a b c p q = record {
    same_udp = q.same_udp ∙ p.same_udp;
    still_there = λ tx e. let (tx', e') = p.still_there tx e in q.still_there tx' e';
  }

  pub same_channel :
      (vc vc' : VirtConnDe E) → vc'.is_udp ≡ vc.is_udp → vc'.egress ≡ vc.egress → SameKind vc vc'
  same_channel vc vc' u e = record { same_udp = u; still_there = λ tx h. (tx, e ∙ h) }

  pub pick-SameKind :
      (b : Bool) (vc x y : VirtConnDe E)
      → SameKind vc x
      → SameKind vc y
      → SameKind vc (if b then x else y)
  pick-SameKind true vc x y p q = p
  pick-SameKind false vc x y p q = q

  pub close_write_half-SameKind :
      (vc : VirtConnDe E) (force : Bool) → SameKind vc (close_write_half vc force)
  unfolding close_write_half
  close_write_half-SameKind vc true = same_channel vc _ (ground arith) (ground arith)
  close_write_half-SameKind vc false = same_channel vc _ (ground arith) (ground arith)

  pub start_half_close-SameKind :
      (vc : VirtConnDe E) (seq : ℕ) → SameKind vc (start_half_close vc seq)
  unfolding start_half_close
  start_half_close-SameKind vc seq = same_channel vc _ (ground arith) (ground arith)

  pub forward_udp_datagram-SameKind :
      (vc : VirtConnDe E) (payload : List ℕ) → SameKind vc (forward_udp_datagram vc payload)
  unfolding forward_udp_datagram
  forward_udp_datagram-SameKind vc payload = go (decode_udp_datagram payload) vc.udp_sock
    where
      go :
          (r : Result Error (TargetAddr × List ℕ)) (o : Option (List (TargetAddr × List ℕ)))
          → SameKind vc (elim r [
            | err e ↦ vc
            | ok datagram ↦ elim o [
              | none ↦ vc
              | some sent_before ↦ record vc { udp_sock = some (sent_before ++ datagram ∷ []) }
            ]
          ])
      go (err e) o = same_channel vc _ refl refl
      go (ok d) none = same_channel vc _ refl refl
      go (ok d) (some s) = same_channel vc _ refl refl

  pub forward_all-SameKind : (vc : VirtConnDe E) (fs : List Frame) → SameKind vc (forward_all vc fs)
  forward_all-SameKind vc [] = same_channel vc vc refl refl
  forward_all-SameKind vc (f ∷ fs) = elim (Bool-cases (has_flag f.flags flag_data)) [
    | inl h ↦ rw h (
        SameKind-trans vc (forward_udp_datagram vc f.payload) _
          (forward_udp_datagram-SameKind vc f.payload)
          (forward_all-SameKind (forward_udp_datagram vc f.payload) fs))
    | inr h ↦ rw h (forward_all-SameKind vc fs)
  ]

none_is_not : {A : Type 0} (x : A) → ¬ (none ≡ some x)
none_is_not x c = cc

module _ {E : Type 0} where
  pub settle-SameKind :
      (vc : VirtConnDe E) (payload : List ℕ) (now : ℕ) → SameKind vc (settle vc payload now)
  unfolding settle
  settle-SameKind vc payload now =
      pick-SameKind vc.fin_received vc (close_write_half counted false) counted
        (SameKind-trans vc counted (close_write_half counted false)
          (same_channel vc counted refl refl) (close_write_half-SameKind counted false))
        (same_channel vc counted refl refl)
    where
      counted : VirtConnDe E
      counted = record vc {
        bytes_recv = add_u64 vc.bytes_recv (length payload);
        frames_recv = add_u64 vc.frames_recv 1;
        last_active = now;
      }

module _ (egress : Mpsc (List ℕ)) where
  pub take_data-SameKind :
      (vc : VirtConnDe egress.Sender) (seq : ℕ) (payload : List ℕ)
      → SameKind vc (take_data egress vc seq payload).0
  unfolding take_data
  take_data-SameKind vc seq payload = elim (Bool-cases (push vc.reorder seq payload).1.accepted) [
    | inr a ↦ rw (a, take_data) (same_channel vc _ refl refl)
    | inl a ↦ elim (Option-cases vc.egress) [
      | inl e ↦
          rw (a, e, take_data)
            (record { same_udp = refl; still_there = λ tx h. absurd (none_is_not tx h) })
      | inr (tx, e) ↦
          rw (a, e, take_data) (record { same_udp = refl; still_there = λ t h. (_, refl) })
    ]
  ]

  pub replay-SameKind :
      (vc : VirtConnDe egress.Sender) (fin : Option ℕ) (fs : List Frame)
      → SameKind vc (replay egress vc fin fs).conn
  unfolding replay
  replay-SameKind vc fin [] = same_channel vc vc refl refl
  replay-SameKind vc fin (f ∷ fs) = elim (Bool-cases (has_flag f.flags flag_data)) [
    | inr h ↦ rw (h, replay) (replay-SameKind vc _ fs)
    | inl h ↦
        rw (h, replay)
          (go (take_data egress vc f.seq f.payload) (take_data-SameKind vc f.seq f.payload)
            (λ w. replay-SameKind w fin fs))
  ]
    where
      go :
          (r : VirtConnDe egress.Sender × Fate)
          → SameKind vc r.0
          → ((w : VirtConnDe egress.Sender) → SameKind w (replay egress w fin fs).conn)
          → SameKind vc
              (elim r.1 as (λ fate. Replay egress.Sender) [
                | goes_on ↦ replay egress r.0 fin fs
                | breaks ↦ record { conn = r.0; fin = fin; reset = true }
                | delivered ↦
                    replay egress
                      (if r.0.fin_received then close_write_half r.0 false else r.0)
                      fin
                      fs
              ]).conn
      go (vc', goes_on) k more = SameKind-trans vc vc' _ k (more vc')
      go (vc', breaks) k more = k
      go (vc', delivered) k more =
          SameKind-trans vc (if vc'.fin_received then close_write_half vc' false else vc') _
            (SameKind-trans vc vc' _ k (
              pick-SameKind vc'.fin_received vc' _ vc' (close_write_half-SameKind vc' false)
                (same_channel vc' vc' refl refl)))
            (more _)
