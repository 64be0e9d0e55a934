-- ===== src/Ibus/Framing.antt =====
-- What the task of components/ibus_receiver/ibus_receiver.c keeps between two bytes.
use sistema_motriz_rs.Base.{
  ℕ, zero, suc, ◌+◌, ◌≤◌, ◌<◌, ◌≡◌, refl, Bool, List, [], ◌∷◌, u32, get_or, set_elem, length,
  length-set_elem, arith,
}
use sistema_motriz_rs.Ibus.Receiver.{
  frame_length, header_length, command_channels, Receiver, Collected, Arrival, record_bad_header,
  store, process_frame, feed_byte, feed_bytes,
}

-- The index stays in the frame, what is collected starts like a frame, and each frame counted is valid
-- or has a bad checksum.
abbrev pub IsSound : Receiver → Collected → Type 0
IsSound h c =
    (c.frame_index < frame_length)
    × (length c.frame ≡ frame_length)
    × (1 ≤ c.frame_index → get_or c.frame 0 0 ≡ header_length)
    × (2 ≤ c.frame_index → get_or c.frame 1 0 ≡ command_channels)
    × (h.frames_seen ≡ u32 (h.valid_frames + h.bad_checksum_frames))

get_or-set_elem_first : (xs : List ℕ) (b : ℕ) → 1 ≤ length xs → get_or (set_elem xs 0 b) 0 0 ≡ b
get_or-set_elem_first [] b h = absurd (omega (arith, h))
get_or-set_elem_first (x ∷ xs) b h = refl

get_or-set_elem_behind :
    (xs : List ℕ) (i j b : ℕ) → j < i → get_or (set_elem xs i b) j 0 ≡ get_or xs j 0
get_or-set_elem_behind [] i j b h = refl
get_or-set_elem_behind (x ∷ xs) zero j b h = absurd (omega (arith, h))
get_or-set_elem_behind (x ∷ xs) (suc i) zero b h = refl
get_or-set_elem_behind (x ∷ xs) (suc i) (suc j) b h =
    get_or-set_elem_behind xs i j b (omega (arith, h))

get_or-set_elem_second : (xs : List ℕ) (b : ℕ) → 2 ≤ length xs → get_or (set_elem xs 1 b) 1 0 ≡ b
get_or-set_elem_second [] b h = absurd (omega (arith, h))
get_or-set_elem_second (x ∷ []) b h = absurd (omega (arith, h))
get_or-set_elem_second (x ∷ y ∷ xs) b h = refl

process_frame-frames_seen :
    (h : Receiver) (frame : List ℕ) (taken : Bool) (now : ℕ)
    → get_or frame 0 0 ≡ header_length
    → get_or frame 1 0 ≡ command_channels
    → h.frames_seen ≡ u32 (h.valid_frames + h.bad_checksum_frames)
    → (process_frame h frame taken now).frames_seen
      ≡ u32 (
          (process_frame h frame taken now).valid_frames
          + (process_frame h frame taken now).bad_checksum_frames)
unfolding process_frame
process_frame-frames_seen h frame taken now e f s = ground (arith, e, f, s)

store-IsSound :
    (h : Receiver) (c : Collected) (byte : ℕ)
    → IsSound h c
    → (c.frame_index ≡ 0 → byte ≡ header_length)
    → (c.frame_index ≡ 1 → byte ≡ command_channels)
    → let s = store c byte in
      (length s.frame ≡ frame_length)
      × (get_or s.frame 0 0 ≡ header_length)
      × (2 ≤ s.frame_index → get_or s.frame 1 0 ≡ command_channels)
store-IsSound h c byte (i, l, p, q, n) e f =
    let long = length-set_elem c.frame c.frame_index byte in
    let first = get_or-set_elem_first c.frame byte in
    let second = get_or-set_elem_second c.frame byte in
    let behind_0 = get_or-set_elem_behind c.frame c.frame_index 0 byte in
    let behind_1 = get_or-set_elem_behind c.frame c.frame_index 1 byte in
    ground (arith, i, l, p, q, e, f, long, first, second, behind_0, behind_1)

feed_byte-IsSound :
    (h : Receiver) (c : Collected) (a : Arrival)
    → IsSound h c
    → IsSound (feed_byte h c a).0 (feed_byte h c a).1
unfolding feed_byte record_bad_header
feed_byte-IsSound h c a s =
    let kept = store-IsSound h c a.byte s in
    let long = length-set_elem c.frame 0 a.byte in
    let first = get_or-set_elem_first c.frame a.byte in
    let counted = process_frame-frames_seen h (store c a.byte).frame a.taken a.now in
    ground (arith, s, kept, long, first, counted)

-- Over any bytes, whether the lock is taken or not, the index stays below the length of the frame, what
-- is collected starts with the header and the command of a frame, and the frames seen are, on 32 bits,
-- the valid ones and those with a bad checksum. It needs these at the start.
pub feed_bytes-IsSound :
    (h : Receiver) (c : Collected) (bytes : List Arrival)
    → IsSound h c
    → IsSound (feed_bytes h c bytes).0 (feed_bytes h c bytes).1
unfolding feed_bytes
feed_bytes-IsSound h c [] s = s
feed_bytes-IsSound h c (a ∷ rest) s =
    feed_bytes-IsSound (feed_byte h c a).0 (feed_byte h c a).1 rest (feed_byte-IsSound h c a s)
