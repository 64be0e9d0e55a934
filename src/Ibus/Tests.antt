-- ===== src/Ibus/Tests.antt =====
-- Frames of the i-BUS at concrete bytes.
use sistema_motriz_rs.Base.{ℕ, zero, suc, ◌≡◌, refl, true, List, [], ◌∷◌, ◌++◌, arith}
use sistema_motriz_rs.Ibus.Receiver.{
  Receiver, Collected, Arrival, blank_receiver, checksum_from, channels_from, record_bad_header,
  process_frame, feed_byte, feed_bytes,
}
use sistema_motriz_rs.Ibus.Framing.{IsSound, feed_bytes-IsSound}

computes : Unit {0}
unfolding checksum_from channels_from record_bad_header process_frame feed_byte feed_bytes
computes = tt

abbrev repeat : ℕ → ℕ → List ℕ
repeat zero b = []
repeat (suc n) b = b ∷ repeat n b

abbrev arrivals : List ℕ → List Arrival
arrivals [] = []
arrivals (b ∷ bs) = record { byte = b; taken = true; now = 500 } ∷ arrivals bs

abbrev nothing_collected : Collected
nothing_collected = record { frame = repeat 32 0; frame_index = 0 }

-- Noise, a wrong command, and a frame whose fourteen channels are 1500 (0x05DC).
abbrev centred_channels : List ℕ
centred_channels =
    0xDC ∷ 5 ∷ 0xDC ∷ 5 ∷ 0xDC ∷ 5 ∷ 0xDC ∷ 5 ∷ 0xDC ∷ 5 ∷ 0xDC ∷ 5 ∷ 0xDC ∷ 5 ∷ 0xDC ∷ 5 ∷ 0xDC ∷ 5
    ∷ 0xDC ∷ 5 ∷ 0xDC ∷ 5 ∷ 0xDC ∷ 5 ∷ 0xDC ∷ 5 ∷ 0xDC ∷ 5 ∷ []

abbrev centred_stream : List Arrival
centred_stream =
    arrivals ((7 ∷ 0x20 ∷ 9 ∷ 0x20 ∷ 0x40 ∷ []) ++ centred_channels ++ (0x51 ∷ 0xF3 ∷ []))

abbrev after_stream : Receiver
after_stream = (feed_bytes blank_receiver nothing_collected centred_stream).0

centred_frame :
    (after_stream.frames_seen ≡ 1)
    × (after_stream.bad_header_frames ≡ 1)
    × (after_stream.valid_frames ≡ 1)
    × (after_stream.channels ≡ repeat 14 1500)
unfolding computes
centred_frame = (refl, refl, refl, refl)

start-IsSound : IsSound blank_receiver nothing_collected
start-IsSound =
    (omega arith, refl, λ h. absurd (omega (arith, h)), λ h. absurd (omega (arith, h)), refl)

feed_bytes-IsSound_example :
    IsSound
      (feed_bytes blank_receiver nothing_collected centred_stream).0
      (feed_bytes blank_receiver nothing_collected centred_stream).1
feed_bytes-IsSound_example =
    feed_bytes-IsSound blank_receiver nothing_collected centred_stream start-IsSound
