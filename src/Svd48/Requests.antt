-- ===== src/Svd48/Requests.antt =====
-- The requests that components/svd48/svd48_protocol.c builds.
use sistema_motriz_rs.Base.{
  ℕ, zero, suc, ◌+◌, ◌*◌, ◌≤◌, ◌≡◌, refl, ap, ◌∙◌, true, List, [], ◌∷◌, ◌++◌, some, arith, u8,
  u16_max, length, get_or, drop, All,
}
use sistema_motriz_rs.Svd48.Protocol.{
  frame_has_valid_crc, append_crc, high, low, is_slave_id, func_write_multi, register_bytes,
  write_multiple_range_is_valid, build_write_multiple_request,
}
use sistema_motriz_rs.Svd48.Checksum.{append_crc-valid, append_crc-length}

-- The words that a driver reads from the bytes of a request.
unfoldable pub words_of : ℕ → List ℕ → List ℕ
words_of zero bytes = []
words_of (suc n) (a ∷ b ∷ bytes) = (a * 256 + b) ∷ words_of n bytes
words_of (suc n) _ = []

length-register_bytes : (values : List ℕ) (n : ℕ) → length (register_bytes values n) ≡ n * 2
unfolding register_bytes
length-register_bytes values zero = refl
length-register_bytes [] (suc n) = omega (arith, length-register_bytes [] n)
length-register_bytes (v ∷ values) (suc n) = omega (arith, length-register_bytes values n)

high-low : (v : ℕ) → v ≤ u16_max → high v * 256 + low v ≡ v
high-low v h = omega arith

words_of-register_bytes :
    (values rest : List ℕ)
    → All (λ v. v ≤ u16_max) values
    → words_of (length values) (register_bytes values (length values) ++ rest) ≡ values
unfolding words_of register_bytes
words_of-register_bytes [] rest a = refl
words_of-register_bytes (v ∷ values) rest a =
    rw (high-low v a.0, words_of-register_bytes values rest a.1) refl

-- What a driver finds in a request to write several registers.
pub record Carries (slave_id reg : ℕ) (values frame : List ℕ) : Type 0 where
  pub size : length frame ≡ 9 + length values * 2
  pub checksum : frame_has_valid_crc (some frame) (length frame) ≡ true
  pub address : get_or frame 0 0 ≡ slave_id
  pub function : get_or frame 1 0 ≡ func_write_multi
  pub range : words_of 2 (drop 2 frame) ≡ reg ∷ length values ∷ []
  pub byte_count : get_or frame 6 0 ≡ length values * 2
  pub content : words_of (length values) (drop 7 frame) ≡ values

abbrev pub write_payload : ℕ → ℕ → List ℕ → List ℕ
write_payload slave_id reg values =
    slave_id
    ∷ func_write_multi
    ∷ high reg
    ∷ low reg
    ∷ high (length values)
    ∷ low (length values)
    ∷ u8 (length values * 2)
    ∷ register_bytes values (length values)

length-write_payload :
    (slave_id reg : ℕ) (values : List ℕ)
    → length (write_payload slave_id reg values) ≡ 7 + length values * 2
length-write_payload slave_id reg values =
    omega (arith, length-register_bytes values (length values))

payload-Carries :
    (slave_id reg : ℕ) (values : List ℕ)
    → reg ≤ u16_max
    → length values ≤ 123
    → All (λ v. v ≤ u16_max) values
    → Carries slave_id reg values (append_crc (write_payload slave_id reg values))
unfolding append_crc words_of
payload-Carries slave_id reg values hr hq a =
    let payload = write_payload slave_id reg values in
    let n = append_crc-length payload in
    let m = length-write_payload slave_id reg values in
    record {
      size = omega (arith, n, m);
      checksum =
          ap (λ k. frame_has_valid_crc (some (append_crc payload)) k) n
          ∙ append_crc-valid payload (omega (arith, m));
      address = refl;
      function = refl;
      range = rw (high-low reg hr, high-low (length values) (omega (arith, hq))) refl;
      byte_count = omega arith;
      content = words_of-register_bytes values _ a;
    }

built :
    (slave_id reg size : ℕ) (values : List ℕ)
    → is_slave_id slave_id ≡ true
    → write_multiple_range_is_valid reg (length values) ≡ true
    → 9 + length values * 2 ≤ size
    → build_write_multiple_request slave_id reg (some values) (length values) true size
      ≡ some (append_crc (write_payload slave_id reg values))
unfolding build_write_multiple_request
built slave_id reg size values s v h = ground arith

range_words :
    (reg quantity : ℕ)
    → write_multiple_range_is_valid reg quantity ≡ true
    → (reg ≤ u16_max) × (quantity ≤ 123)
unfolding write_multiple_range_is_valid
range_words reg quantity v = ground arith

-- Round trip: for a slave and a range that are valid and a buffer that is large enough, a request to
-- write several registers is built, and a driver that reads it finds a valid checksum, its address,
-- the range, the count of bytes and the values.
pub build_write_multiple_request_roundtrip :
    (slave_id reg size : ℕ) (values : List ℕ)
    → is_slave_id slave_id ≡ true
    → write_multiple_range_is_valid reg (length values) ≡ true
    → 9 + length values * 2 ≤ size
    → All (λ v. v ≤ u16_max) values
    → (frame : List ℕ) × (build_write_multiple_request slave_id reg
          (some values)
          (length values)
          true
          size
        ≡ some frame)
      × Carries slave_id reg values frame
build_write_multiple_request_roundtrip slave_id reg size values s v h a =
    let w = range_words reg (length values) v in
    (
      append_crc (write_payload slave_id reg values),
      built slave_id reg size values s v h,
      payload-Carries slave_id reg values w.0 w.1 a,
    )
