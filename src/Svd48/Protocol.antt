-- ===== src/Svd48/Protocol.antt =====
-- components/svd48/svd48_protocol.c, with the data of its header. Buffers are lists of bytes; a
-- pointer that the code tests against NULL is an `Option`, or a flag for an output pointer.
use Prim.Native.Nat.{bit_and, bit_or, bit_xor}
use sistema_motriz_rs.Base.{
  ℕ, zero, suc, ◌+◌, ◌-◌, ◌*◌, ◌/◌, Bool, false, not, ◌&&◌, ◌||◌, List, [], ◌∷◌, ◌++◌, Option, none,
  some, ltb, leb, ◌==◌, if◌then◌else◌, u8, u16, u16_max, get_or, take,
}

abbrev pub func_read_holding : ℕ
func_read_holding = 0x03

abbrev pub func_write_single : ℕ
func_write_single = 0x06

abbrev pub func_write_multi : ℕ
func_write_multi = 0x10

abbrev pub modbus_min_slave_id : ℕ
modbus_min_slave_id = 1

abbrev pub modbus_max_slave_id : ℕ
modbus_max_slave_id = 247

abbrev pub read_max_registers : ℕ
read_max_registers = 125

abbrev pub write_multiple_max_registers : ℕ
write_multiple_max_registers = 123

abbrev pub write_multiple_response_size : ℕ
write_multiple_response_size = 8

pub record ExceptionResponse : Type 0 where
  pub function : ℕ
  pub code : ℕ

pub record WriteMultipleResponse : Type 0 where
  pub start_register : ℕ
  pub quantity : ℕ

-- `(uint8_t)(word >> 8)` and `(uint8_t)(word & 0xFF)`
abbrev pub high : ℕ → ℕ
high word = u8 (word / 256)

abbrev pub low : ℕ → ℕ
low word = u8 word

-- The body of the inner loop, and `n` turns of it.
unfoldable pub crc_bit : ℕ → ℕ
crc_bit crc = if bit_and crc 1 == 0 then crc / 2 else bit_xor (crc / 2) 0xA001

unfoldable pub crc_bits : ℕ → ℕ → ℕ
crc_bits zero crc = crc
crc_bits (suc n) crc = crc_bits n (crc_bit crc)

unfoldable pub crc_from : ℕ → List ℕ → ℕ
crc_from crc [] = crc
crc_from crc (byte ∷ bytes) = crc_from (crc_bits 8 (bit_xor crc byte)) bytes

unfoldable pub crc16_uumotor : List ℕ → ℕ
crc16_uumotor bytes = crc_from 0xFFFF bytes

unfoldable pub frame_has_valid_crc : Option (List ℕ) → ℕ → Bool
frame_has_valid_crc none length = false
frame_has_valid_crc (some frame) length =
    let expected = crc16_uumotor (take (length - 2) frame) in
    not (ltb length 4)
    && get_or frame (length - 2) 0 == high expected
    && get_or frame (length - 1) 0 == low expected

-- The buffer with the two bytes behind the payload.
unfoldable pub append_crc : List ℕ → List ℕ
append_crc payload = let crc = crc16_uumotor payload in payload ++ (high crc ∷ low crc ∷ [])

unfoldable pub write_multiple_range_is_valid : ℕ → ℕ → Bool
write_multiple_range_is_valid start_reg quantity =
    not (quantity == 0 || ltb write_multiple_max_registers quantity)
    && leb (start_reg + quantity - 1) u16_max

unfoldable pub register_is_runtime_actuation : ℕ → Bool
register_is_runtime_actuation reg =
    reg == 0x5300
    || reg == 0x5301
    || reg == 0x5304
    || reg == 0x5305
    || reg == 0x5308
    || reg == 0x5309

-- The loop over the `n` registers from `reg` on.
unfoldable pub any_runtime_actuation : ℕ → ℕ → Bool
any_runtime_actuation reg zero = false
any_runtime_actuation reg (suc n) =
    register_is_runtime_actuation (u16 reg) || any_runtime_actuation (reg + 1) n

unfoldable pub register_range_has_runtime_actuation : ℕ → ℕ → Bool
register_range_has_runtime_actuation start_reg quantity =
    write_multiple_range_is_valid start_reg quantity && any_runtime_actuation start_reg quantity

-- `slave_id < MIN || slave_id > MAX` is false.
unfoldable pub is_slave_id : ℕ → Bool
is_slave_id slave_id = leb modbus_min_slave_id slave_id && leb slave_id modbus_max_slave_id

-- The builders give the frame they write, `none` for the result 0. The flag tells whether there is a
-- buffer.
unfoldable pub build_read_request : ℕ → ℕ → ℕ → Bool → Option (List ℕ)
build_read_request slave_id reg quantity buffer =
    if not buffer
      || not (is_slave_id slave_id)
      || quantity == 0
      || ltb read_max_registers quantity
      || ltb u16_max (reg + quantity - 1)
    then none
    else some (
        append_crc
          (slave_id ∷ func_read_holding ∷ high reg ∷ low reg ∷ high quantity ∷ low quantity ∷ []))

unfoldable pub build_write_single_request : ℕ → ℕ → ℕ → Bool → Option (List ℕ)
build_write_single_request slave_id reg value buffer =
    if not buffer || not (is_slave_id slave_id)
    then none
    else some (
        append_crc
          (slave_id ∷ func_write_single ∷ high reg ∷ low reg ∷ high value ∷ low value ∷ []))

-- The loop over the values; a value behind the end of the array reads as 0.
unfoldable pub register_bytes : List ℕ → ℕ → List ℕ
register_bytes values zero = []
register_bytes [] (suc n) = 0 ∷ 0 ∷ register_bytes [] n
register_bytes (v ∷ values) (suc n) = high v ∷ low v ∷ register_bytes values n

unfoldable pub build_write_multiple_request :
    ℕ → ℕ → Option (List ℕ) → ℕ → Bool → ℕ → Option (List ℕ)
build_write_multiple_request slave_id start_reg none quantity buffer frame_size = none
build_write_multiple_request slave_id start_reg (some values) quantity buffer frame_size =
    if not buffer
      || not (is_slave_id slave_id)
      || not (write_multiple_range_is_valid start_reg quantity)
      || ltb frame_size (9 + quantity * 2)
    then none
    else some (
        append_crc (
          slave_id
          ∷ func_write_multi
          ∷ high start_reg
          ∷ low start_reg
          ∷ high quantity
          ∷ low quantity
          ∷ u8 (quantity * 2)
          ∷ register_bytes values quantity))

-- `((uint16_t)frame[i] << 8) | frame[i + 1]`
abbrev pub word_at : List ℕ → ℕ → ℕ
word_at frame i = u16 (bit_or (get_or frame i 0 * 256) (get_or frame (i + 1) 0))

-- The parsers give what they write, `none` for the result false. The flag tells whether there is an
-- output.
unfoldable pub parse_write_multiple_response :
    Option (List ℕ) → ℕ → ℕ → ℕ → ℕ → Bool → Option WriteMultipleResponse
parse_write_multiple_response none length slave_id start_reg quantity output = none
parse_write_multiple_response (some frame) length slave_id start_reg quantity output =
    if not output
      || not (length == write_multiple_response_size)
      || not (write_multiple_range_is_valid start_reg quantity)
      || not (get_or frame 0 0 == slave_id)
      || not (get_or frame 1 0 == func_write_multi)
      || not (frame_has_valid_crc (some frame) length)
    then none
    else if not (word_at frame 2 == start_reg) || not (word_at frame 4 == quantity)
    then none
    else some (record { start_register = word_at frame 2; quantity = word_at frame 4 })

unfoldable pub parse_exception_response :
    Option (List ℕ) → ℕ → ℕ → ℕ → Bool → Option ExceptionResponse
parse_exception_response none length slave_id request_function output = none
parse_exception_response (some frame) length slave_id request_function output =
    if not output
      || not (length == 5)
      || not (get_or frame 0 0 == slave_id)
      || not (get_or frame 1 0 == u8 (bit_or request_function 0x80))
      || not (frame_has_valid_crc (some frame) length)
    then none
    else some (record { function = get_or frame 1 0; code = get_or frame 2 0 })
