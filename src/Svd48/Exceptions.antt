-- ===== src/Svd48/Exceptions.antt =====
-- The exception replies that components/svd48/svd48_protocol.c accepts.
use Prim.Native.Nat.{bit_or}
use sistema_motriz_rs.Base.{
  ℕ, ◌≡◌, ◌↔◌, refl, sym, ap, ◌∙◌, true, List, [], ◌∷◌, some, arith, u8, length, get_or,
}
use sistema_motriz_rs.Svd48.Protocol.{
  frame_has_valid_crc, append_crc, ExceptionResponse, parse_exception_response,
}
use sistema_motriz_rs.Svd48.Checksum.{append_crc-valid, append_crc-length, frame_has_valid_crc_iff}

-- The exception of a driver: the function of the request with its highest bit set, and a code.
abbrev pub exception_reply : ℕ → ℕ → ℕ → List ℕ
exception_reply slave_id request_function code =
    append_crc (slave_id ∷ u8 (bit_or request_function 0x80) ∷ code ∷ [])

accepted_head :
    (frame : List ℕ) (n slave_id request_function : ℕ) (r : ExceptionResponse)
    → parse_exception_response (some frame) n slave_id request_function true ≡ some r
    → (n ≡ 5)
      × (frame_has_valid_crc (some frame) n ≡ true)
      × (get_or frame 0 0 ≡ slave_id)
      × (get_or frame 1 0 ≡ u8 (bit_or request_function 0x80))
      × (get_or frame 2 0 ≡ r.code)
      × (get_or frame 1 0 ≡ r.function)
unfolding parse_exception_response
accepted_head frame n slave_id request_function r h = ground arith

head_of_three :
    (payload : List ℕ) (a b c : ℕ)
    → length payload ≡ 3
    → get_or (append_crc payload) 0 0 ≡ a
    → get_or (append_crc payload) 1 0 ≡ b
    → get_or (append_crc payload) 2 0 ≡ c
    → payload ≡ a ∷ b ∷ c ∷ []
unfolding append_crc
head_of_three (x ∷ y ∷ z ∷ []) a b c l ha hb hc = rw (ha, hb, hc) refl
head_of_three payload a b c l ha hb hc = absurd (omega (arith, l))

accepts_exception :
    (slave_id request_function code : ℕ)
    → parse_exception_response
        (some (exception_reply slave_id request_function code))
        5
        slave_id
        request_function
        true
      ≡ some (record { function = u8 (bit_or request_function 0x80); code = code })
unfolding parse_exception_response append_crc
accepts_exception slave_id request_function code = ground (
  arith,
  append_crc-valid (slave_id ∷ u8 (bit_or request_function 0x80) ∷ code ∷ []) (omega arith),
)

accepted_exception :
    (frame : List ℕ) (slave_id request_function : ℕ) (r : ExceptionResponse)
    → parse_exception_response (some frame) (length frame) slave_id request_function true ≡ some r
    → frame ≡ exception_reply slave_id request_function r.code
accepted_exception frame slave_id request_function r h =
    let a = accepted_head frame (length frame) slave_id request_function r h in
    let p = (frame_has_valid_crc_iff frame).0 a.1 in
    let back = sym p.2 in
    p.2
    ∙ ap append_crc (
        head_of_three p.0 slave_id (u8 (bit_or request_function 0x80)) r.code
          (omega (arith, a.0, ap length p.2, append_crc-length p.0))
          (ap (λ xs. get_or xs 0 0) back ∙ a.2) (ap (λ xs. get_or xs 1 0) back ∙ a.3)
          (ap (λ xs. get_or xs 2 0) back ∙ a.4))

-- An exception is accepted exactly if it is the exception reply of the addressed driver to the
-- function of the request, byte by byte with its checksum; its function and code are parsed as sent.
pub parse_exception_response_iff :
    (frame : List ℕ) (slave_id request_function : ℕ) (r : ExceptionResponse)
    → (parse_exception_response (some frame) (length frame) slave_id request_function true ≡ some r)
      ↔ ((frame ≡ exception_reply slave_id request_function r.code)
          × (r.function ≡ u8 (bit_or request_function 0x80)))
parse_exception_response_iff frame slave_id request_function r =
    let parsed = λ (n : ℕ) (xs : List ℕ).
      parse_exception_response (some xs) n slave_id request_function true in
    let five = append_crc-length (slave_id ∷ u8 (bit_or request_function 0x80) ∷ r.code ∷ []) in
    (
      (λ h.
          let a = accepted_head frame (length frame) slave_id request_function r h in
          (accepted_exception frame slave_id request_function r h, sym a.5 ∙ a.3)),
      λ q.
          ap (λ xs. parsed (length xs) xs) q.0
          ∙ ap (λ n. parsed n (exception_reply slave_id request_function r.code)) five
          ∙ accepts_exception slave_id request_function r.code
          ∙ ap (λ f. some (record { function = f; code = r.code })) (sym q.1),
    )
