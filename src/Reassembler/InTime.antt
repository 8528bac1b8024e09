-- ===== src/Reassembler/InTime.antt =====
-- The write half of a connection to a target, through the frames that wait and those that find it.
use round_robin.Common.{ℕ, ◌≤◌, ◌≡◌, some, List, All}
use round_robin.Frame.{Frame}
use round_robin.Reorder.Push.{IsValid, CanArrive}
use round_robin.Pool.{Mpsc}
use round_robin.Reassembler.{VirtConnDe}
use round_robin.Reassembler.Handler.{Fate, goes_on}
use round_robin.Reassembler.Closing.{IsTimely, SameClosing}

module _ (egress : Mpsc (List ℕ)) where
  open egress use {Sender}

  -- A TCP connection whose write half is as it should be.
  pub record IsServing (vc : VirtConnDe Sender) : Type 0 where
    pub timely : IsTimely vc
    pub valid : IsValid vc.reorder
    pub channel : (tx : Sender) × (vc.egress ≡ some tx)

  record Took (vc w : VirtConnDe Sender) (fate : Fate) : Type 0 where
    same : SameClosing vc w
    grows : vc.reorder.expected ≤ w.reorder.expected
    valid : IsValid w.reorder
    channel : (tx : Sender) × (w.egress ≡ some tx)
    idle : fate ≡ goes_on → w.reorder ≡ vc.reorder

  -- Frames that a window can take.
  abbrev pub CanAllArrive : List Frame → Type 0
  CanAllArrive fs = All (λ f. CanArrive f.seq f.payload) fs
