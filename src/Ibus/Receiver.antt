-- ===== src/Ibus/Receiver.antt =====
-- components/ibus_receiver/ibus_receiver.c: the bytes of the UART become frames, and frames channels.
-- A read of the task comes with its bytes; `taken` tells whether the lock was taken and `now` is the
-- clock, for the byte in hand. The UART, the raw sample and the PPM mode are left out.
use Prim.Native.Nat.{◌*◌}
use sistema_motriz_rs.Base.{
  ℕ, zero, suc, ◌+◌, ◌-◌, Bool, not, ◌&&◌, ◌||◌, List, [], ◌∷◌, ◌==◌, if◌then◌else◌, u16, u32,
  get_or, set_elem,
}

abbrev pub frame_length : ℕ
frame_length = 32

abbrev pub header_length : ℕ
header_length = 0x20

abbrev pub command_channels : ℕ
command_channels = 0x40

pub record Receiver : Type 0 where
  pub last_frame_ms : ℕ
  pub frames_seen : ℕ
  pub valid_frames : ℕ
  pub bad_header_frames : ℕ
  pub bad_checksum_frames : ℕ
  pub consecutive_invalid_frames : ℕ
  pub channels : List ℕ

-- The locals of the task.
pub record Collected : Type 0 where
  pub frame : List ℕ
  pub frame_index : ℕ

pub record Arrival : Type 0 where
  pub byte : ℕ
  pub taken : Bool
  pub now : ℕ

abbrev pub blank_receiver : Receiver
blank_receiver = record {
  last_frame_ms = 0;
  frames_seen = 0;
  valid_frames = 0;
  bad_header_frames = 0;
  bad_checksum_frames = 0;
  consecutive_invalid_frames = 0;
  channels = 0 ∷ 0 ∷ 0 ∷ 0 ∷ 0 ∷ 0 ∷ 0 ∷ 0 ∷ 0 ∷ 0 ∷ 0 ∷ 0 ∷ 0 ∷ 0 ∷ [];
}

-- `checksum -= frame[i]` for the next `n` bytes, on 16 bits
unfoldable pub checksum_from : List ℕ → ℕ → ℕ → ℕ
checksum_from frame zero checksum = checksum
checksum_from [] (suc n) checksum = checksum
checksum_from (b ∷ bs) (suc n) checksum = checksum_from bs n (u16 (checksum + 65536 - b))

abbrev pub ibus_checksum : List ℕ → ℕ
ibus_checksum frame = checksum_from frame 30 65535

-- A number of 16 bits whose low byte comes first.
abbrev pub frame_word : List ℕ → ℕ → ℕ
frame_word frame offset = get_or frame offset 0 + 256 * get_or frame (offset + 1) 0

-- The loop over the channels, from the one with number `i`, for `n` of them.
unfoldable pub channels_from : List ℕ → ℕ → ℕ → List ℕ
channels_from frame i zero = []
channels_from frame i (suc n) = frame_word frame (2 + i * 2) ∷ channels_from frame (suc i) n

abbrev pub count_bad_header : Receiver → Receiver
count_bad_header h = record h {
  bad_header_frames = u32 (h.bad_header_frames + 1);
  consecutive_invalid_frames = u32 (h.consecutive_invalid_frames + 1);
}

unfoldable pub record_bad_header : Receiver → Bool → Receiver
record_bad_header h taken = if not taken then h else count_bad_header h

unfoldable pub process_frame : Receiver → List ℕ → Bool → ℕ → Receiver
process_frame h frame taken now =
    let seen = record h { frames_seen = u32 (h.frames_seen + 1) } in
    if not taken
    then h
    else if not (get_or frame 0 0 == header_length) || not (get_or frame 1 0 == command_channels)
    then count_bad_header seen
    else if not (frame_word frame 30 == ibus_checksum frame)
    then record seen {
      bad_checksum_frames = u32 (h.bad_checksum_frames + 1);
      consecutive_invalid_frames = u32 (h.consecutive_invalid_frames + 1);
    }
    else record seen {
      channels = channels_from frame 0 14;
      valid_frames = u32 (h.valid_frames + 1);
      consecutive_invalid_frames = 0;
      last_frame_ms = now;
    }

-- `frame[frame_index++] = byte`
abbrev pub store : Collected → ℕ → Collected
store c byte = record {
  frame = set_elem c.frame c.frame_index byte;
  frame_index = suc c.frame_index;
}

-- The body of the loop over the bytes of a read.
unfoldable pub feed_byte : Receiver → Collected → Arrival → Receiver × Collected
feed_byte h c a =
    let stored = store c a.byte in
    if c.frame_index == 0
    then if not (a.byte == header_length) then (h, c) else (h, stored)
    else if c.frame_index == 1 && not (a.byte == command_channels)
    then (
      record_bad_header h a.taken,
      if a.byte == header_length
          then record { frame = set_elem c.frame 0 a.byte; frame_index = 1 }
          else record c { frame_index = 0 },
    )
    else if stored.frame_index == frame_length
    then (process_frame h stored.frame a.taken a.now, record stored { frame_index = 0 })
    else (h, stored)

unfoldable pub feed_bytes : Receiver → Collected → List Arrival → Receiver × Collected
feed_bytes h c [] = (h, c)
feed_bytes h c (a ∷ rest) = let (h', c') = feed_byte h c a in feed_bytes h' c' rest
