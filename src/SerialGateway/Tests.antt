-- ===== src/SerialGateway/Tests.antt =====
-- Lines of commands, and the theorems at concrete inputs.
use Prim.Native.String.{String}
use sistema_motriz_rs.Base.{
  ℕ, zero, suc, ◌≡◌, refl, true, false, Option, some, List, [], ◌∷◌, ◌++◌, arith, length, All,
}
use sistema_motriz_rs.SerialGateway.Framing.{
  zeros, blank_framer, ends_line, feed_end, feed_char, feed, string_of,
}
use sistema_motriz_rs.SerialGateway.Lines.{
  command, too_long, reading, next_pending, delivered, IsText, Holds, holds_line, feed_all,
  deliveries, feed_all-deliveries,
}
use sistema_motriz_rs.SerialGateway.RoundTrip.{line_overflow}
use sistema_motriz_rs.SerialGateway.Text.{same_text}
use sistema_motriz_rs.SerialGateway.Policy.{
  arg_is, is_any, no_arg_command_allowed, lan_allowed, lan_command_allowed,
  diagnostic_command_allowed,
}
use sistema_motriz_rs.SerialGateway.Confirmation.{Confirmed, lan_changes-Confirmed}

computes : Unit {0}
unfolding zeros ends_line feed_end feed_char feed string_of feed_all deliveries next_pending
    delivered
computes = tt

blank-Holds : Holds blank_framer (reading [])
unfolding computes
blank-Holds = holds_line refl refl refl (omega arith) refl tt

-- "STOP" in codes, and "PING" with CR and LF around it.
abbrev stop_text : List ℕ
stop_text = 83 ∷ 84 ∷ 79 ∷ 80 ∷ []

abbrev ping_text : List ℕ
ping_text = 13 ∷ 10 ∷ 80 ∷ 73 ∷ 78 ∷ 71 ∷ 13 ∷ 10 ∷ []

abbrev letters : ℕ → List ℕ
letters zero = []
letters (suc n) = 65 ∷ letters n

letters-IsText : (n : ℕ) → IsText (letters n)
letters-IsText zero = tt
letters-IsText (suc n) = (refl, letters-IsText n)

letters_within : (n : ℕ) → All (λ ch. ends_line ch ≡ false) (letters n)
unfolding computes
letters_within zero = tt
letters_within (suc n) = (refl, letters_within n)

length-letters : (n : ℕ) → length (letters n) ≡ n
length-letters zero = refl
length-letters (suc n) = omega (arith, length-letters n)

feed_all-deliveries_example :
    feed_all blank_framer ping_text ≡ command (80 ∷ 73 ∷ 78 ∷ 71 ∷ []) ∷ []
unfolding computes
feed_all-deliveries_example =
    feed_all-deliveries ping_text blank_framer (reading []) blank-Holds (ground arith)

line_overflow_example : feed_all blank_framer (letters 200 ++ (10 ∷ [])) ≡ too_long ∷ []
line_overflow_example =
    line_overflow blank_framer (letters 200) blank-Holds (letters-IsText 200) (letters_within 200)
      (omega (arith, length-letters 200))

abbrev write_line : List (Option String)
write_line = some "write_reg" ∷ some "1" ∷ some "0x5000" ∷ some "7" ∷ some "Confirm" ∷ []

lets_through : Unit {0}
unfolding same_text arg_is is_any no_arg_command_allowed lan_allowed lan_command_allowed
    diagnostic_command_allowed
lets_through = tt

unconfirmed :
    lan_command_allowed (some (some "WRITE_REG" ∷ some "1" ∷ some "0x5000" ∷ some "7" ∷ [])) ≡ false
unfolding lets_through
unconfirmed = refl

stop_all_is_diagnostic : diagnostic_command_allowed (some (some "stop" ∷ some "ALL" ∷ [])) ≡ true
unfolding lets_through
stop_all_is_diagnostic = refl

lan_changes-Confirmed_example : Confirmed write_line
unfolding lets_through
lan_changes-Confirmed_example = lan_changes-Confirmed write_line refl refl
