-- ===== src/Svd48/Checksum.antt =====
-- The frames of components/svd48/svd48_protocol.c that carry a valid checksum.
use sistema_motriz_rs.Base.{
  ℕ, ◌+◌, ◌-◌, ◌≤◌, ◌≡◌, ◌↔◌, refl, ap, ◌∙◌, true, List, [], ◌∷◌, ◌++◌, some, arith, length, get_or,
  take, length-append, take-append, get_or_behind, split_two,
}
use sistema_motriz_rs.Svd48.Protocol.{crc16_uumotor, frame_has_valid_crc, append_crc, high, low}

pub append_crc-length : (payload : List ℕ) → length (append_crc payload) ≡ length payload + 2
unfolding append_crc
append_crc-length payload =
    length-append payload (high (crc16_uumotor payload) ∷ low (crc16_uumotor payload) ∷ [])

take-append_crc : (payload : List ℕ) → take (length payload) (append_crc payload) ≡ payload
unfolding append_crc
take-append_crc payload =
    take-append payload (high (crc16_uumotor payload) ∷ low (crc16_uumotor payload) ∷ [])

crc_bytes :
    (payload : List ℕ)
    → (get_or (append_crc payload) (length payload) 0 ≡ high (crc16_uumotor payload))
      × (get_or (append_crc payload) (length payload + 1) 0 ≡ low (crc16_uumotor payload))
unfolding append_crc
crc_bytes payload =
    let crc = crc16_uumotor payload in
    let tail = high crc ∷ low crc ∷ [] in
    (
      ap (λ i. get_or (payload ++ tail) i 0) (omega arith) ∙ get_or_behind payload tail 0 0,
      get_or_behind payload tail 1 0,
    )

-- What the driver sends has a valid checksum.
pub append_crc-valid :
    (payload : List ℕ)
    → 2 ≤ length payload
    → frame_has_valid_crc (some (append_crc payload)) (length payload + 2) ≡ true
unfolding frame_has_valid_crc
append_crc-valid payload h =
    let two : length payload + 2 - 2 ≡ length payload = omega arith in
    let one : length payload + 2 - 1 ≡ length payload + 1 = omega arith in
    rw (two, one, take-append_crc payload, (crc_bytes payload).0, (crc_bytes payload).1)
      (ground arith)

checked_bytes :
    (frame : List ℕ) (n : ℕ)
    → frame_has_valid_crc (some frame) n ≡ true
    → let crc = crc16_uumotor (take (n - 2) frame) in
      (4 ≤ n) × (get_or frame (n - 2) 0 ≡ high crc) × (get_or frame (n - 1) 0 ≡ low crc)
unfolding frame_has_valid_crc
checked_bytes frame n v = ground arith

rebuilt_valid :
    (frame payload : List ℕ)
    → 2 ≤ length payload
    → frame ≡ append_crc payload
    → frame_has_valid_crc (some frame) (length frame) ≡ true
rebuilt_valid frame payload h e = rw (e, append_crc-length payload) (append_crc-valid payload h)

-- A frame has a valid checksum exactly if it is a payload of two bytes or more with the checksum of
-- that payload behind it.
pub frame_has_valid_crc_iff :
    (frame : List ℕ)
    → (frame_has_valid_crc (some frame) (length frame) ≡ true)
      ↔ ((payload : List ℕ) × (2 ≤ length payload) × (frame ≡ append_crc payload))
unfolding append_crc
frame_has_valid_crc_iff frame = (
  (λ v.
      let c = checked_bytes frame (length frame) v in
      let last : length frame - 2 + 1 ≡ length frame - 1 = omega (arith, c.0) in
      let s = split_two frame (length frame - 2) 0 (omega (arith, c.0)) in
      (
        take (length frame - 2) frame,
        omega (
          arith,
          c.0,
          ap length s,
          length-append (take (length frame - 2) frame)
              (get_or frame (length frame - 2) 0 ∷ get_or frame (length frame - 2 + 1) 0 ∷ []),
        ),
        s ∙ ap (λ xs. take (length frame - 2) frame ++ xs) (rw (last, c.1, c.2) refl),
      )),
  λ p. rebuilt_valid frame p.0 p.1 p.2,
)
