-- ===== src/SerialGateway/RoundTrip.antt =====
-- One line of text through the line framer.
use sistema_motriz_rs.Base.{
  ℕ, ◌+◌, ◌-◌, ◌≤◌, ◌<◌, ◌≡◌, refl, ap, ◌∙◌, true, false, List, [], ◌∷◌, ◌++◌, arith, leb, ltb, inl,
  inr, Bool-cases, ◌==◌, length, All, All-append, length-append, append_nil, append_one,
}
use sistema_motriz_rs.SerialGateway.Framing.{command_max, LineFramer, ends_line}
use sistema_motriz_rs.SerialGateway.Lines.{
  command, too_long, Pending, reading, discarding, next_pending, delivered, IsText, Holds, feed_all,
  deliveries, feed_all-deliveries, delivered_within,
}

next_reading :
    (done : List ℕ) (ch : ℕ)
    → ends_line ch ≡ false
    → length done + 1 < command_max
    → next_pending (reading done) ch ≡ reading (done ++ (ch ∷ []))
unfolding next_pending
next_reading done ch e h =
    let room : leb (command_max - 1) (length done) ≡ false = ground (arith, h) in rw (e, room) refl

next_full :
    (done : List ℕ) (ch : ℕ)
    → ends_line ch ≡ false
    → length done + 1 ≡ command_max
    → next_pending (reading done) ch ≡ discarding
unfolding next_pending
next_full done ch e h =
    let full : leb (command_max - 1) (length done) ≡ true = ground (arith, h) in rw (e, full) refl

step_within :
    (done : List ℕ) (ch : ℕ) (text : List ℕ) {p : Pending}
    → ends_line ch ≡ false
    → next_pending (reading done) ch ≡ p
    → deliveries (reading done) (ch ∷ text) ≡ deliveries p text
unfolding deliveries
step_within done ch text e n = rw (delivered_within done ch e, n) refl

read_line :
    (cs done rest : List ℕ)
    → All (λ ch. ends_line ch ≡ false) cs
    → length done + length cs < command_max
    → deliveries (reading done) (cs ++ rest) ≡ deliveries (reading (done ++ cs)) rest
read_line [] done rest a h = rw (append_nil done) refl
read_line (c ∷ cs) done rest a h =
    step_within done c (cs ++ rest) a.0 (next_reading done c a.0 (omega (arith, h)))
    ∙ read_line cs (done ++ (c ∷ [])) rest a.1 (omega (arith, h, length-append done (c ∷ [])))
    ∙ ap (λ xs. deliveries (reading xs) rest) (append_one done c cs)

-- Round trip: a line that is not empty, shorter than the buffer and without the characters 0, CR
-- and LF, with LF behind it, is delivered once and as it was sent by a framer between two lines.
pub line_roundtrip :
    (m : LineFramer) (c : ℕ) (cs : List ℕ)
    → Holds m (reading [])
    → IsText (c ∷ cs)
    → All (λ ch. ends_line ch ≡ false) (c ∷ cs)
    → length (c ∷ cs) < command_max
    → feed_all m ((c ∷ cs) ++ (10 ∷ [])) ≡ command (c ∷ cs) ∷ []
unfolding deliveries delivered ends_line
line_roundtrip m c cs h t a l =
    feed_all-deliveries ((c ∷ cs) ++ (10 ∷ [])) m (reading []) h
      (All-append (λ ch. (ch == 0) ≡ false) (c ∷ cs) (10 ∷ []) t (refl, tt))
    ∙ read_line (c ∷ cs) [] (10 ∷ []) a (omega (arith, l))

lf_ends_line : ends_line 10 ≡ true
unfolding ends_line
lf_ends_line = refl

discard_line :
    (cs : List ℕ)
    → All (λ ch. ends_line ch ≡ false) cs
    → deliveries discarding (cs ++ (10 ∷ [])) ≡ too_long ∷ []
unfolding deliveries delivered next_pending
discard_line [] a = rw lf_ends_line refl
discard_line (c ∷ cs) a = rw a.0 (discard_line cs a.1)

overflow_line :
    (cs done : List ℕ)
    → All (λ ch. ends_line ch ≡ false) cs
    → length done < command_max
    → command_max ≤ length done + length cs
    → deliveries (reading done) (cs ++ (10 ∷ [])) ≡ too_long ∷ []
overflow_line [] done a h l = absurd (omega (arith, h, l))
overflow_line (c ∷ cs) done a h l = elim (Bool-cases (ltb (length done + 1) command_max)) [
  | inl room ↦
      let r : length done + 1 < command_max = ground (arith, room) in
      step_within done c (cs ++ (10 ∷ [])) a.0 (next_reading done c a.0 r)
      ∙ overflow_line cs (done ++ (c ∷ [])) a.1 (omega (arith, r, length-append done (c ∷ [])))
          (omega (arith, l, length-append done (c ∷ [])))
  | inr full ↦
      step_within done c (cs ++ (10 ∷ [])) a.0 (next_full done c a.0 (ground (arith, full, h)))
      ∙ discard_line cs a.1
]

-- A line as long as the buffer or longer, whatever it begins with, is never delivered: a framer
-- between two lines reports it once as too long, at its end.
pub line_overflow :
    (m : LineFramer) (cs : List ℕ)
    → Holds m (reading [])
    → IsText cs
    → All (λ ch. ends_line ch ≡ false) cs
    → command_max ≤ length cs
    → feed_all m (cs ++ (10 ∷ [])) ≡ too_long ∷ []
line_overflow m cs h t a l =
    feed_all-deliveries (cs ++ (10 ∷ [])) m (reading []) h
      (All-append (λ ch. (ch == 0) ≡ false) cs (10 ∷ []) t (refl, tt))
    ∙ overflow_line cs [] a (omega arith) (omega (arith, l))
