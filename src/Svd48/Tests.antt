-- ===== src/Svd48/Tests.antt =====
-- Frames of the protocol, and the theorems at concrete inputs.
use sistema_motriz_rs.Base.{ℕ, ◌≤◌, ◌≡◌, ◌↔◌, refl, true, List, [], ◌∷◌, none, some, arith, length}
use sistema_motriz_rs.Svd48.Protocol.{
  crc_bit, crc_bits, crc_from, crc16_uumotor, frame_has_valid_crc, append_crc,
  write_multiple_range_is_valid, register_is_runtime_actuation, any_runtime_actuation,
  register_range_has_runtime_actuation, is_slave_id, build_read_request, build_write_single_request,
  register_bytes, build_write_multiple_request, parse_write_multiple_response,
  parse_exception_response, ExceptionResponse, WriteMultipleResponse,
}
use sistema_motriz_rs.Svd48.Checksum.{frame_has_valid_crc_iff}
use sistema_motriz_rs.Svd48.Replies.{write_reply, parse_write_multiple_response_iff}
use sistema_motriz_rs.Svd48.Requests.{Carries, build_write_multiple_request_roundtrip}
use sistema_motriz_rs.Svd48.PollService.{
  DeviceResult, timeout, PollEntry, time_reached, shifted_backoff, failure_backoff_ms, poll_delay,
  after_poll, is_waiting, shortest_delay, poll_entry, has_device, add_device,
}
use sistema_motriz_rs.Svd48.Polling.{poll_entry_spaced}
use sistema_motriz_rs.Base.{◌%◌, ◌+◌, false}

computes : Unit {0}
unfolding crc_bit crc_bits crc_from crc16_uumotor frame_has_valid_crc append_crc
    write_multiple_range_is_valid register_is_runtime_actuation any_runtime_actuation
    register_range_has_runtime_actuation is_slave_id build_read_request build_write_single_request
    register_bytes build_write_multiple_request parse_write_multiple_response
    parse_exception_response
computes = tt

abbrev write_answer : List ℕ
write_answer = write_reply 1 0x5300 2

-- The read of one register that the Modbus documents print, with the bytes of the checksum swapped.
reads : build_read_request 1 0 1 true ≡ some (1 ∷ 3 ∷ 0 ∷ 0 ∷ 0 ∷ 1 ∷ 0x0A ∷ 0x84 ∷ [])
unfolding computes
reads = refl

writes_single : (build_write_single_request 1 0x5300 1 true ≡ none) → ⊥
unfolding computes
writes_single h = ground (arith, h)

frame_has_valid_crc_iff_example :
    (frame_has_valid_crc (some write_answer) 8 ≡ true)
    ↔ ((payload : List ℕ) × (2 ≤ length payload) × (write_answer ≡ append_crc payload))
unfolding computes
frame_has_valid_crc_iff_example = frame_has_valid_crc_iff write_answer

abbrev written : WriteMultipleResponse
written = record { start_register = 0x5300; quantity = 2 }

parse_write_multiple_response_iff_example :
    (parse_write_multiple_response (some write_answer) 8 1 0x5300 2 true ≡ some written) ↔ (
      (write_answer ≡ write_reply 1 0x5300 2)
      × (written ≡ record { start_register = 0x5300; quantity = 2 }))
unfolding computes
parse_write_multiple_response_iff_example =
    parse_write_multiple_response_iff write_answer 1 0x5300 2 written (ground arith) refl

abbrev illegal_address : ExceptionResponse
illegal_address = record { function = 0x83; code = 2 }

abbrev speeds : List ℕ
speeds = 1000 ∷ 65036 ∷ []

build_write_multiple_request_roundtrip_example :
    (frame : List ℕ) × (build_write_multiple_request 1 0x5304 (some speeds) 2 true 32 ≡ some frame)
    × Carries 1 0x5304 speeds frame
unfolding computes
build_write_multiple_request_roundtrip_example =
    build_write_multiple_request_roundtrip 1 0x5304 32 speeds refl refl (omega arith)
      (omega arith, (omega arith, tt))

computes_polling : Unit {0}
unfolding time_reached shifted_backoff failure_backoff_ms poll_delay after_poll is_waiting
    shortest_delay poll_entry has_device add_device
computes_polling = tt

-- The world is a clock, and a poll takes 5 ms and fails.
abbrev read_clock : ℕ → ℕ × ℕ
read_clock w = (w % 4294967296, w)

abbrev failing_poll : ℕ → ℕ → DeviceResult × ℕ
failing_poll device w = (timeout, w + 5)

abbrev left_wheel : PollEntry
left_wheel = record {
  device = 1;
  period_ms = 30;
  next_poll_ms = 1000;
  scheduled = true;
  consecutive_failures = 1;
  last_result = timeout;
}

abbrev right_wheel : PollEntry
right_wheel = record left_wheel { device = 2; next_poll_ms = 1020 }

poll_entry_spaced_example :
    let e' =
      (poll_entry read_clock failing_poll (record left_wheel { scheduled = false }) 4294967290).0 in
    poll_entry read_clock failing_poll e' 4294967315 ≡ (e', false, 4294967315)
unfolding computes_polling
poll_entry_spaced_example =
    poll_entry_spaced read_clock failing_poll (record left_wheel { scheduled = false }) 4294967290
      4294967315 20 (omega arith) (omega arith) refl refl (omega arith)
