-- ===== src/SerialGateway/Lines.antt =====
-- The line framer against the lines of a text: what it delivers, over any input.
use sistema_motriz_rs.Base.{
  ℕ, suc, ◌-◌, ◌<◌, ◌≡◌, inl, inr, refl, sym, ap, ◌∙◌, true, false, List, [], ◌∷◌, ◌++◌, arith, leb,
  ◌==◌, if◌then◌else◌, length, get_or, take, drop, set_elem, All, Bool-cases, length-append,
  length-set_elem, take-set_elem, take-zero, All-append,
}
use sistema_motriz_rs.SerialGateway.Framing.{
  command_max, FrameEvent, frame_none, line_ready, line_too_long, LineFramer, ends_line, feed_end,
  feed_char, feed, string_of,
}

pub data Delivery : Type 0 where
  command : List ℕ → Delivery
  too_long : Delivery

-- The line read so far, or that it is too long.
pub data Pending : Type 0 where
  reading : List ℕ → Pending
  discarding : Pending

unfoldable pub next_pending : Pending → ℕ → Pending
next_pending discarding ch = if ends_line ch then reading [] else discarding
next_pending (reading cs) ch =
    if ends_line ch
    then reading []
    else if leb (command_max - 1) (length cs)
    then discarding
    else reading (cs ++ (ch ∷ []))

unfoldable pub delivered : Pending → ℕ → List Delivery
delivered discarding ch = if ends_line ch then too_long ∷ [] else []
delivered (reading []) ch = []
delivered (reading (c ∷ cs)) ch = if ends_line ch then command (c ∷ cs) ∷ [] else []

-- What the caller of the framer gets for an event.
abbrev pub received : LineFramer → FrameEvent → List Delivery
received m frame_none = []
received m line_ready = command (string_of m.line) ∷ []
received m line_too_long = too_long ∷ []

abbrev pub IsText : List ℕ → Type 0
IsText = All (λ c. (c == 0) ≡ false)

-- The framer holds the line read so far.
pub data Holds (m : LineFramer) : Pending → Type 0 where
  holds_line :
      {cs : List ℕ}
      → length m.line ≡ command_max
      → m.discarding ≡ false
      → m.length ≡ length cs
      → length cs < command_max
      → take (length cs) m.line ≡ cs
      → IsText cs
      → Holds m (reading cs)
  holds_none : length m.line ≡ command_max → m.discarding ≡ true → Holds m discarding

string_of-set_elem :
    (line cs : List ℕ)
    → length cs < length line
    → take (length cs) line ≡ cs
    → IsText cs
    → string_of (set_elem line (length cs) 0) ≡ cs
unfolding string_of
string_of-set_elem [] cs h t v = absurd (omega (arith, h))
string_of-set_elem (x ∷ line) [] h t v = refl
string_of-set_elem (x ∷ line) (c ∷ cs) h t v =
    rw
      (
        ap (λ xs. get_or xs 0 0) t,
        v.0,
        string_of-set_elem line cs (omega (arith, h)) (ap (drop 1) t) v.1,
      )
      refl

shows_idle :
    (m : LineFramer)
    → length m.line ≡ command_max
    → m.discarding ≡ false
    → m.length ≡ 0
    → Holds m (reading [])
shows_idle m l d n = holds_line l d n (omega arith) (take-zero m.line) tt

-- One character refines one step over the text: the framer goes on to hold the line read so far, and
-- delivers exactly what the text delivers there.
abbrev pub Refines : LineFramer → Pending → ℕ → Type 0
Refines m p ch =
    Holds (feed m ch).0 (next_pending p ch)
    × (received (feed m ch).0 (feed m ch).1 ≡ delivered p ch)

feed_end-Refines :
    (m : LineFramer) (p : Pending) (ch : ℕ) → Holds m p → ends_line ch ≡ true → Refines m p ch
unfolding feed feed_end next_pending delivered
feed_end-Refines m (reading []) ch (holds_line l d n b t v) e =
    rw (e, d, n) (shows_idle _ l refl refl, refl)
feed_end-Refines m (reading (c ∷ cs)) ch (holds_line l d n b t v) e =
    let q : (length (c ∷ cs) == 0) ≡ false = ground arith in
    rw (e, d, n, q)
      (
        shows_idle _ (length-set_elem m.line (length (c ∷ cs)) 0 ∙ l) refl refl,
        ap (λ s. command s ∷ []) (string_of-set_elem m.line (c ∷ cs) (omega (arith, l, b)) t v),
      )
feed_end-Refines m discarding ch (holds_none l d) e =
    rw (e, d) (shows_idle _ (length-set_elem m.line 0 0 ∙ l) refl refl, refl)

shorter : (cs : List ℕ) → leb (command_max - 1) (length cs) ≡ false → length cs < command_max - 1
shorter cs h = ground (arith, h)

take_next :
    (line cs : List ℕ) (ch : ℕ)
    → length cs < length line
    → take (length cs) line ≡ cs
    → take (length (cs ++ (ch ∷ []))) (set_elem line (length cs) ch) ≡ cs ++ (ch ∷ [])
take_next line cs ch h t =
    ap (λ k. take k (set_elem line (length cs) ch)) {x = length (cs ++ (ch ∷ []))}
      {y = suc (length cs)} (omega (arith, length-append cs (ch ∷ [])))
    ∙ take-set_elem line (length cs) ch h
    ∙ ap (λ xs. xs ++ (ch ∷ [])) t

pub delivered_within :
    (cs : List ℕ) (ch : ℕ) → ends_line ch ≡ false → delivered (reading cs) ch ≡ []
unfolding delivered
delivered_within [] ch e = refl
delivered_within (c ∷ cs) ch e = rw e refl

feed_char-Refines :
    (m : LineFramer) (p : Pending) (ch : ℕ)
    → Holds m p
    → (ch == 0) ≡ false
    → ends_line ch ≡ false
    → Refines m p ch
unfolding feed feed_char next_pending delivered
feed_char-Refines m (reading cs) ch (holds_line l d n b t v) z e =
    elim (Bool-cases (leb (command_max - 1) (length cs))) [
      | inl full ↦
          rw (e, d, n, full)
            (holds_none (length-set_elem m.line 0 0 ∙ l) refl, sym (delivered_within cs ch e))
      | inr room ↦
          rw (e, d, n, room)
            (
              holds_line (length-set_elem m.line (length cs) ch ∙ l) refl
                  (omega (arith, length-append cs (ch ∷ [])))
                  (omega (arith, length-append cs (ch ∷ []), shorter cs room))
                  (take_next m.line cs ch (omega (arith, l, b)) t)
                  (All-append (λ c. (c == 0) ≡ false) cs (ch ∷ []) v (z, tt)),
              sym (delivered_within cs ch e),
            )
    ]
feed_char-Refines m discarding ch (holds_none l d) z e = rw (e, d) (holds_none l refl, refl)

feed-Refines :
    (m : LineFramer) (p : Pending) (ch : ℕ) → Holds m p → (ch == 0) ≡ false → Refines m p ch
feed-Refines m p ch h z = elim (Bool-cases (ends_line ch)) [
  | inl e ↦ feed_end-Refines m p ch h e
  | inr e ↦ feed_char-Refines m p ch h z e
]

-- What a sequence of characters delivers: from the framer, and from the text.
unfoldable pub feed_all : LineFramer → List ℕ → List Delivery
feed_all m [] = []
feed_all m (ch ∷ chs) = let r = feed m ch in received r.0 r.1 ++ feed_all r.0 chs

unfoldable pub deliveries : Pending → List ℕ → List Delivery
deliveries p [] = []
deliveries p (ch ∷ chs) = delivered p ch ++ deliveries (next_pending p ch) chs

-- Refinement: on any text without the character 0, from any moment on, the framer delivers the
-- lines of the text that are not empty and not too long, each as it was read, and one report for
-- each line that is too long.
pub feed_all-deliveries :
    (text : List ℕ) (m : LineFramer) (p : Pending)
    → Holds m p
    → IsText text
    → feed_all m text ≡ deliveries p text
unfolding feed_all deliveries
feed_all-deliveries [] m p h t = refl
feed_all-deliveries (ch ∷ text) m p h t =
    let r = feed-Refines m p ch h t.0 in
    ap (λ ds. ds ++ feed_all (feed m ch).0 text) r.1
    ∙ ap (λ ds. delivered p ch ++ ds)
        (feed_all-deliveries text (feed m ch).0 (next_pending p ch) r.0 t.1)
