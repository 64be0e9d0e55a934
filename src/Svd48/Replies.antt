-- ===== src/Svd48/Replies.antt =====
-- The replies that components/svd48/svd48_protocol.c accepts.
use Prim.Native.Nat.{bit_or}
use mathlib.Core.Path.{subst}
use mathlib.Core.Option.{some_inj}
use sistema_motriz_rs.Base.{
  ℕ, ◌*◌, ◌≤◌, ◌≡◌, ◌↔◌, refl, sym, ap, ◌∙◌, true, List, [], ◌∷◌, some, arith, u16, u16_max, length,
  get_or, All,
}
use sistema_motriz_rs.Base.Bits.{bit_or_bytes}
use sistema_motriz_rs.Svd48.Protocol.{
  frame_has_valid_crc, append_crc, high, low, word_at, func_write_multi, WriteMultipleResponse,
  write_multiple_range_is_valid, parse_write_multiple_response,
}
use sistema_motriz_rs.Svd48.Checksum.{append_crc-valid, append_crc-length, frame_has_valid_crc_iff}

-- The one reply to a write of `quantity` registers: the head of the request, with its checksum.
abbrev pub write_reply : ℕ → ℕ → ℕ → List ℕ
write_reply slave_id reg quantity =
    append_crc
      (slave_id ∷ func_write_multi ∷ high reg ∷ low reg ∷ high quantity ∷ low quantity ∷ [])

abbrev pub IsByte : ℕ → Type 0
IsByte b = b ≤ 255

range_words :
    (reg quantity : ℕ)
    → write_multiple_range_is_valid reg quantity ≡ true
    → (reg ≤ u16_max) × (quantity ≤ 123)
unfolding write_multiple_range_is_valid
range_words reg quantity v = ground arith

word_of_bytes : (word : ℕ) → word ≤ u16_max → u16 (bit_or (high word * 256) (low word)) ≡ word
word_of_bytes word h = omega (arith, bit_or_bytes (high word) (low word) (omega arith))

bytes_of_word :
    (a b word : ℕ)
    → IsByte a
    → IsByte b
    → u16 (bit_or (a * 256) b) ≡ word
    → (a ≡ high word) × (b ≡ low word)
bytes_of_word a b word ha hb e = (
  omega (arith, bit_or_bytes a b (omega arith), e),
  omega (arith, bit_or_bytes a b (omega arith), e),
)

-- The checks of the parser, with the bytes of the head.
accepted_head :
    (frame : List ℕ) (n slave_id reg quantity : ℕ) (r : WriteMultipleResponse)
    → parse_write_multiple_response (some frame) n slave_id reg quantity true ≡ some r
    → (n ≡ 8)
      × (frame_has_valid_crc (some frame) n ≡ true)
      × (get_or frame 0 0 ≡ slave_id)
      × (get_or frame 1 0 ≡ func_write_multi)
      × (word_at frame 2 ≡ reg)
      × (word_at frame 4 ≡ quantity)
unfolding parse_write_multiple_response
accepted_head frame n slave_id reg quantity r h = ground arith

head_of_six :
    (payload : List ℕ) (slave_id reg quantity : ℕ)
    → length payload ≡ 6
    → All IsByte (append_crc payload)
    → get_or (append_crc payload) 0 0 ≡ slave_id
    → get_or (append_crc payload) 1 0 ≡ func_write_multi
    → word_at (append_crc payload) 2 ≡ reg
    → word_at (append_crc payload) 4 ≡ quantity
    → payload ≡ slave_id ∷ func_write_multi ∷ high reg ∷ low reg ∷ high quantity ∷ low quantity ∷ []
unfolding append_crc
head_of_six (a ∷ b ∷ c ∷ d ∷ e ∷ f ∷ []) slave_id reg quantity l v ha hb hr hq =
    let r = bytes_of_word c d reg v.1.1.0 v.1.1.1.0 hr in
    let q = bytes_of_word e f quantity v.1.1.1.1.0 v.1.1.1.1.1.0 hq in
    rw (ha, hb, r.0, r.1, q.0, q.1) refl
head_of_six (a ∷ b ∷ c ∷ d ∷ e ∷ f ∷ g ∷ payload) slave_id reg quantity l v ha hb hr hq =
    absurd (omega (arith, l))
head_of_six payload slave_id reg quantity l v ha hb hr hq = absurd (omega (arith, l))

accepts_reply :
    (slave_id reg quantity : ℕ)
    → write_multiple_range_is_valid reg quantity ≡ true
    → parse_write_multiple_response
        (some (write_reply slave_id reg quantity))
        8
        slave_id
        reg
        quantity
        true
      ≡ some (record { start_register = reg; quantity = quantity })
unfolding parse_write_multiple_response append_crc
accepts_reply slave_id reg quantity v =
    let w = range_words reg quantity v in
    ground (
      arith,
      v,
      word_of_bytes reg w.0,
      word_of_bytes quantity (omega (arith, w.1)),
      append_crc-valid
          (slave_id ∷ func_write_multi ∷ high reg ∷ low reg ∷ high quantity ∷ low quantity ∷ [])
          (omega arith),
    )

accepted_reply :
    (frame : List ℕ) (slave_id reg quantity : ℕ) (r : WriteMultipleResponse)
    → All IsByte frame
    → parse_write_multiple_response (some frame) (length frame) slave_id reg quantity true ≡ some r
    → frame ≡ write_reply slave_id reg quantity
accepted_reply frame slave_id reg quantity r b h =
    let a = accepted_head frame (length frame) slave_id reg quantity r h in
    let p = (frame_has_valid_crc_iff frame).0 a.1 in
    let back = sym p.2 in
    p.2
    ∙ ap append_crc (
        head_of_six p.0 slave_id reg quantity
          (omega (arith, a.0, ap length p.2, append_crc-length p.0))
          (subst (λ xs. All IsByte xs) p.2 b) (ap (λ xs. get_or xs 0 0) back ∙ a.2)
          (ap (λ xs. get_or xs 1 0) back ∙ a.3) (ap (λ xs. word_at xs 2) back ∙ a.4)
          (ap (λ xs. word_at xs 4) back ∙ a.5))

-- A reply to a write of several registers is accepted exactly if it is the one reply of the addressed
-- driver that repeats the written range, byte by byte with its checksum; it is then parsed as that
-- range.
pub parse_write_multiple_response_iff :
    (frame : List ℕ) (slave_id reg quantity : ℕ) (r : WriteMultipleResponse)
    → All IsByte frame
    → write_multiple_range_is_valid reg quantity ≡ true
    → (parse_write_multiple_response (some frame) (length frame) slave_id reg quantity true
        ≡ some r)
      ↔ ((frame ≡ write_reply slave_id reg quantity)
          × (r ≡ record { start_register = reg; quantity = quantity }))
parse_write_multiple_response_iff frame slave_id reg quantity r b v =
    let answer = accepts_reply slave_id reg quantity v in
    let parsed = λ (n : ℕ) (xs : List ℕ).
      parse_write_multiple_response (some xs) n slave_id reg quantity true in
    let eight =
      append_crc-length
        (slave_id ∷ func_write_multi ∷ high reg ∷ low reg ∷ high quantity ∷ low quantity ∷ []) in
    (
      (λ h.
          let e = accepted_reply frame slave_id reg quantity r b h in
          (
            e,
            some_inj.0 (
                sym h
                ∙ ap (λ xs. parsed (length xs) xs) e
                ∙ ap (λ n. parsed n (write_reply slave_id reg quantity)) eight
                ∙ answer),
          )),
      λ q.
          ap (λ xs. parsed (length xs) xs) q.0
          ∙ ap (λ n. parsed n (write_reply slave_id reg quantity)) eight
          ∙ answer
          ∙ ap some (sym q.1),
    )
