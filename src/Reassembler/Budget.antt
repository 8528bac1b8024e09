-- ===== src/Reassembler/Budget.antt =====
-- The frames that wait for a connection: what holds of the map and of its byte budget.
use round_robin.Common.{
  ℕ, ◌+◌, ◌^◌, ◌≤◌, ◌<◌, ◌≡◌, refl, ◌∙◌, none, some, List, [], ◌∷◌, ◌++◌, length, length-append,
  lookup, remove, insert, HasUniqueKeys, HasUniqueKeys-remove, HasUniqueKeys-insert, weigh,
  weigh-remove, AllValues, AllValues-remove, AllValues-insert, remove_absent, add_usize, sub_usize,
  if◌then◌else◌, arith,
}
use round_robin.Frame.{Frame, flag_data, has_flag, max_pending_bytes}
use round_robin.Reassembler.{PendingEntry, new_entry, max_pending_frames_per_cid}

-- The bytes of the DATA frames of a list.
abbrev pub data_bytes : List Frame → ℕ
data_bytes [] = 0
data_bytes (f ∷ fs) = (if has_flag f.flags flag_data then length f.payload else 0) + data_bytes fs

pub data_bytes-append :
    (fs : List Frame) (f : Frame)
    → data_bytes (fs ++ f ∷ [])
      ≡ data_bytes fs + (if has_flag f.flags flag_data then length f.payload else 0)
data_bytes-append [] f = omega arith
data_bytes-append (g ∷ fs) f = omega (arith, data_bytes-append fs f)

-- At most 256 frames wait, and their bytes are counted.
pub record IsEntry (e : PendingEntry) : Type 0 where
  pub few : length e.frames ≤ max_pending_frames_per_cid
  pub counted : data_bytes e.frames ≡ e.bytes

abbrev pub bytes_in : PendingEntry → ℕ
bytes_in e = e.bytes

-- The counter is the bytes that wait in the map, with `extra` bytes reserved, and keeps the budget.
pub record IsBudgeted (m : List (ℕ × PendingEntry)) (total extra : ℕ) : Type 0 where
  pub unique : HasUniqueKeys m
  pub counts : weigh bytes_in m + extra ≡ total
  pub within : total ≤ max_pending_bytes
  pub entries : AllValues IsEntry m

pub IsBudgeted-remove :
    (m : List (ℕ × PendingEntry)) (total extra k : ℕ) (e : PendingEntry)
    → IsBudgeted m total extra
    → lookup k m ≡ some e
    → IsBudgeted (remove k m) (sub_usize total e.bytes) extra
IsBudgeted-remove m total extra k e b h =
    let less = weigh-remove bytes_in k e m b.unique h in
    let counts = b.counts in
    let within = b.within in
    record {
      unique = HasUniqueKeys-remove k m b.unique;
      counts = omega arith;
      within = omega arith;
      entries = AllValues-remove IsEntry k m b.entries;
    }

-- The entry of an id is replaced by one that holds `more` bytes more, which were reserved.
pub IsBudgeted-replace :
    (m : List (ℕ × PendingEntry)) (total extra more k : ℕ) (e e' : PendingEntry)
    → IsBudgeted m total (more + extra)
    → lookup k m ≡ some e
    → IsEntry e'
    → e'.bytes ≡ e.bytes + more
    → IsBudgeted (insert k e' m) total extra
IsBudgeted-replace m total extra more k e e' b h v same =
    let less = weigh-remove bytes_in k e m b.unique h in
    let counts = b.counts in
    record {
      unique = HasUniqueKeys-insert k e' m b.unique;
      counts = omega arith;
      within = b.within;
      entries = AllValues-insert IsEntry k e' m v b.entries;
    }

-- An id without an entry gets one.
pub IsBudgeted-insert :
    (m : List (ℕ × PendingEntry)) (total extra k : ℕ) (e : PendingEntry)
    → IsBudgeted m total (e.bytes + extra)
    → lookup k m ≡ none
    → IsEntry e
    → IsBudgeted (insert k e m) total extra
IsBudgeted-insert m total extra k e b h v =
    let gone = remove_absent k m h in
    let counts = b.counts in
    record {
      unique = HasUniqueKeys-insert k e m b.unique;
      counts = rw gone (omega arith);
      within = b.within;
      entries = AllValues-insert IsEntry k e m v b.entries;
    }

-- What was reserved is given back.
pub IsBudgeted-refund :
    (m : List (ℕ × PendingEntry)) (total extra more : ℕ)
    → IsBudgeted m total (more + extra)
    → IsBudgeted m (sub_usize total more) extra
IsBudgeted-refund m total extra more b =
    let counts = b.counts in
    let within = b.within in
    record { unique = b.unique; counts = omega arith; within = omega arith; entries = b.entries }

pub new_entry-IsEntry : (now : ℕ) → IsEntry (new_entry now)
new_entry-IsEntry now = record { few = omega arith; counted = refl }

-- A frame more, with the bytes that were reserved for it.
pub push-IsEntry :
    (e : PendingEntry) (f : Frame) (bytes : ℕ)
    → IsEntry e
    → e.bytes + bytes < 2 ^ 64
    → length e.frames < max_pending_frames_per_cid
    → bytes ≡ (if has_flag f.flags flag_data then length f.payload else 0)
    → IsEntry (record e { frames = e.frames ++ f ∷ []; bytes = add_usize e.bytes bytes })
push-IsEntry e f bytes v fits few same =
    let counted = v.counted in
    let more = data_bytes-append e.frames f in
    record {
      few = omega (arith, length-append {0} e.frames (f ∷ []));
      counted = more ∙ omega arith;
    }

pub weigh_le :
    (k : ℕ) (e : PendingEntry) (m : List (ℕ × PendingEntry))
    → HasUniqueKeys m
    → lookup k m ≡ some e
    → e.bytes ≤ weigh bytes_in m
weigh_le k e m u h = omega (arith, weigh-remove bytes_in k e m u h)
