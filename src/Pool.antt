-- ===== src/Pool.antt =====
-- src/tunnel.rs: the pool of tunnel links.
-- The pool's list is the store of the links. A `Notify` is the permit that it stores, and the bounded
-- channel of tokio, whose receiving end the drain task holds, is the interface `Mpsc`.
pub mod Round
pub mod Send
pub mod Rotation
pub mod Upkeep
pub mod Queue
pub mod Rates
pub mod Schedule
pub mod Candidates
pub mod Async
pub mod Drain
mod Examples
use round_robin.Common.{
  ℕ, zero, suc, ◌+◌, ◌-◌, ◌*◌, ◌%◌, ◌^◌, ◌≤◌, Bool, true, false, not, ◌&&◌, none, some, List, [],
  ◌∷◌, ◌++◌, length, get_elem?, set, ltb, ◌==◌, if◌then◌else◌,
}
use round_robin.Frame.{Frame}

-- The answer of `try_send`: the sender with the frame queued, or why it was not.
pub data TrySend (S : Type 0) : Type 0 where
  sent : S → TrySend S
  closed full : TrySend S

-- `mpsc::Sender<T>` of tokio, the sending end of a bounded channel.
pub record Mpsc (T : Type 0) : Type 1 where
  pub Sender : Type 0
  pub try_send : Sender → T → TrySend Sender
  pub capacity : Sender → ℕ

abbrev pub tunnel_channel_cap : ℕ
tunnel_channel_cap = 128

abbrev pub link_idle_timeout_ms : ℕ
link_idle_timeout_ms = 600 * 1000

pub record TunnelLink (S : Type 0) : Type 0 where
  pub tx : S
  pub alive : Bool
  pub bytes_sent : ℕ
  pub bytes_recv : ℕ
  pub frames_sent : ℕ
  pub frames_recv : ℕ
  pub stop : Bool
  pub writer_died : Bool
  pub last_active_ms : ℕ
  pub lost_frames : List Frame
  pub rate_bps : ℕ

-- `added` counts the calls of `notify_waiters`.
pub record TunnelPool (S : Type 0) : Type 0 where
  pub links : List (TunnelLink S)
  pub rr : ℕ
  pub added : ℕ

module _ {S : Type 0} where
  unfoldable pub new_pool : TunnelPool S
  new_pool = record { links = []; rr = 0; added = 0 }

  unfoldable pub add : TunnelPool S → TunnelLink S → TunnelPool S
  add p link = record p { links = p.links ++ link ∷ []; added = suc p.added }

  unfoldable pub link_count : TunnelPool S → ℕ
  link_count p = length p.links

  abbrev pub live : List (TunnelLink S) → List (TunnelLink S)
  live [] = []
  live (l ∷ ls) = if l.alive then l ∷ live ls else live ls

  unfoldable pub alive_count : TunnelPool S → ℕ
  alive_count p = length (live p.links)

  -- `links.retain(alive)`; the cursor starts anew if a link was removed.
  unfoldable pub compact : TunnelPool S → TunnelPool S
  compact p =
      let links = live p.links in
      record p { links = links; rr = if length links == length p.links then p.rr else 0 }

  -- `now_ms.saturating_sub(last_active_ms) > idle_limit_ms` on a live link.
  abbrev pub is_idle : ℕ → ℕ → TunnelLink S → Bool
  is_idle now limit l = l.alive && ltb limit (now - l.last_active_ms)

  abbrev pub sweep : ℕ → ℕ → List (TunnelLink S) → List (TunnelLink S) × ℕ
  sweep now limit [] = ([], 0)
  sweep now limit (l ∷ ls) =
      let (ls', swept) = sweep now limit ls in
      if is_idle now limit l
      then (record l { alive = false; stop = true } ∷ ls', suc swept)
      else (l ∷ ls', swept)

  unfoldable pub sweep_idle : TunnelPool S → ℕ → ℕ → TunnelPool S × ℕ
  sweep_idle p now limit =
      let (links, swept) = sweep now limit p.links in (record p { links = links }, swept)

  unfoldable pub stats : TunnelPool S → ℕ × ℕ
  stats p = (length (live p.links), length p.links)

pub data Visit (S : Type 0) : Type 0 where
  takes : S → Visit S
  passes marks : Visit S

module _ (m : Mpsc Frame) where
  open m use {Sender, try_send, capacity}

  abbrev pub depth_of : List (TunnelLink Sender) → ℕ
  depth_of [] = 0
  depth_of (l ∷ ls) = tunnel_channel_cap - capacity l.tx + depth_of ls

  unfoldable pub queue_depth : TunnelPool Sender → ℕ
  queue_depth p = depth_of (live p.links)

  -- One round of the loop of `send` at a link: the frame is queued there, or the loop goes on, and
  -- a closed link is marked dead.
  unfoldable pub visit : TunnelLink Sender → Frame → Visit Sender
  visit l f = elim l.alive [
    | false ↦ passes
    | true ↦ elim (try_send l.tx f) [ sent tx ↦ takes tx | closed ↦ marks | full ↦ passes ]
  ]

  -- The `for i in 0..links.len()` loop of `send`, with `rounds` rounds left. An index is below the
  -- number of links, so that a link stands there.
  unfoldable pub send_loop :
      ℕ → ℕ → ℕ → List (TunnelLink Sender) → Frame → List (TunnelLink Sender) × Bool
  send_loop zero start i links f = (links, false)
  send_loop (suc rounds) start i links f =
      let at = (start + i) % length links in
      elim (get_elem? links at) [
        | none ↦ (links, false)
        | some l ↦ elim (visit l f) [
          | passes ↦ send_loop rounds start (suc i) links f
          | takes tx ↦ (set links at (record l { tx = tx }), true)
          | marks ↦ send_loop rounds start (suc i) (set links at (record l { alive = false })) f
        ]
      ]

  unfoldable pub send : TunnelPool Sender → Frame → TunnelPool Sender × Bool
  unfolding send_loop visit
  send p f =
      if length p.links == 0
      then (p, false)
      else let start = p.rr % length p.links in
        let (links, done) = send_loop (length p.links) start 0 p.links f in
        (record p { links = links; rr = (p.rr + 1) % 2 ^ 64 }, done)
