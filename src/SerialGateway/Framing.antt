-- ===== src/SerialGateway/Framing.antt =====
-- components/serial_gateway/serial_gateway_framing.c, with the data of its header. Characters are
-- their codes, and a string in a buffer ends before the first 0.
use sistema_motriz_rs.Base.{
  ℕ, zero, suc, ◌+◌, ◌-◌, Bool, true, false, ◌||◌, List, [], ◌∷◌, Option, none, some, leb, ◌==◌,
  if◌then◌else◌, set_elem,
}

abbrev pub command_max : ℕ
command_max = 160

pub data FrameEvent : Type 0 where
  frame_none line_ready line_too_long : FrameEvent

-- `line` has `command_max` characters.
pub record LineFramer : Type 0 where
  pub line : List ℕ
  pub length : ℕ
  pub discarding : Bool

unfoldable pub zeros : ℕ → List ℕ
zeros zero = []
zeros (suc n) = 0 ∷ zeros n

-- What `memset` leaves.
abbrev pub blank_framer : LineFramer
blank_framer = record { line = zeros command_max; length = 0; discarding = false }

abbrev pub line_framer_init : Option LineFramer → Option LineFramer
line_framer_init none = none
line_framer_init (some m) = some blank_framer

-- `ch == '\r' || ch == '\n'`
unfoldable pub ends_line : ℕ → Bool
ends_line ch = ch == 13 || ch == 10

unfoldable pub feed_end : LineFramer → LineFramer × FrameEvent
feed_end m =
    if m.discarding
    then (record { discarding = false; length = 0; line = set_elem m.line 0 0 }, line_too_long)
    else if m.length == 0
    then (m, frame_none)
    else (record m { line = set_elem m.line m.length 0; length = 0 }, line_ready)

unfoldable pub feed_char : LineFramer → ℕ → LineFramer
feed_char m ch =
    if m.discarding
    then m
    else if leb (command_max - 1) m.length
    then record { discarding = true; length = 0; line = set_elem m.line 0 0 }
    else record m { line = set_elem m.line m.length ch; length = m.length + 1 }

unfoldable pub feed : LineFramer → ℕ → LineFramer × FrameEvent
feed m ch = if ends_line ch then feed_end m else (feed_char m ch, frame_none)

unfoldable pub line_framer_feed : Option LineFramer → ℕ → Option LineFramer × FrameEvent
line_framer_feed none ch = (none, frame_none)
line_framer_feed (some m) ch = let (m', e) = feed m ch in (some m', e)

-- The string that the pointer into the buffer stands for.
unfoldable pub string_of : List ℕ → List ℕ
string_of [] = []
string_of (c ∷ cs) = let rest = string_of cs in if c == 0 then [] else c ∷ rest

abbrev pub line_framer_line : Option LineFramer → Option (List ℕ)
line_framer_line none = none
line_framer_line (some m) = some (string_of m.line)
