-- ===== src/Svd48/Registers.antt =====
-- The ranges of registers of components/svd48/svd48_protocol.c.
use sistema_motriz_rs.Base.{
  ℕ, zero, suc, ◌+◌, ◌≤◌, ◌<◌, ◌≡◌, ◌↔◌, inl, inr, ◌∙◌, ap, true, arith, ◌==◌, u16, u16_max,
  Bool-cases,
}
use sistema_motriz_rs.Svd48.Protocol.{
  write_multiple_range_is_valid, register_is_runtime_actuation, any_runtime_actuation,
  register_range_has_runtime_actuation,
}

-- A register of the range that moves a motor.
abbrev pub ActuationIn : ℕ → ℕ → Type 0
ActuationIn start n =
    (reg : ℕ) × (start ≤ reg) × (reg < start + n) × (register_is_runtime_actuation reg ≡ true)

any_sound :
    (n start : ℕ)
    → start + n ≤ u16_max + 1
    → any_runtime_actuation start n ≡ true
    → ActuationIn start n
unfolding any_runtime_actuation
any_sound zero start h e = absurd (ground (arith, e))
any_sound (suc n) start h e = elim (Bool-cases (register_is_runtime_actuation (u16 start))) [
  | inl t ↦ (start, omega arith, omega arith, ap register_is_runtime_actuation (omega arith) ∙ t)
  | inr f ↦
      let r = any_sound n (start + 1) (omega arith) (ground (arith, e, f)) in
      (r.0, omega (arith, r.1), omega (arith, r.2), r.3)
]

any_complete :
    (n start reg : ℕ)
    → start + n ≤ u16_max + 1
    → start ≤ reg
    → reg < start + n
    → register_is_runtime_actuation reg ≡ true
    → any_runtime_actuation start n ≡ true
unfolding any_runtime_actuation
any_complete zero start reg h a b e = absurd (omega arith)
any_complete (suc n) start reg h a b e = elim (Bool-cases (reg == start)) [
  | inl s ↦
      let t : register_is_runtime_actuation (u16 start) ≡ true =
        ap register_is_runtime_actuation (ground (arith, s)) ∙ e in
      ground (arith, t)
  | inr s ↦
      ground
        (arith, any_complete n (start + 1) reg (omega arith) (ground (arith, s)) (omega arith) e)
]

valid_end :
    (start quantity : ℕ)
    → write_multiple_range_is_valid start quantity ≡ true
    → start + quantity ≤ u16_max + 1
unfolding write_multiple_range_is_valid
valid_end start quantity v = ground arith

-- The test on a range finds exactly the ranges that hold a register that moves a motor: in a valid
-- range the loop misses none and reports no other.
register_range_has_runtime_actuation_iff :
    (start quantity : ℕ)
    → write_multiple_range_is_valid start quantity ≡ true
    → (register_range_has_runtime_actuation start quantity ≡ true) ↔ ActuationIn start quantity
unfolding register_range_has_runtime_actuation
register_range_has_runtime_actuation_iff start quantity v =
    let w = valid_end start quantity v in
    (
      (λ e. any_sound quantity start w (ground (arith, e))),
      λ r. ground (arith, v, any_complete quantity start r.0 w r.1 r.2 r.3),
    )
