-- ===== src/SerialGateway/Confirmation.antt =====
-- What components/serial_gateway/serial_gateway_policy.c lets through.
use Prim.Native.String.{String}
use sistema_motriz_rs.Base.{
  ℕ, ap, sym, ◌∙◌, ◌-◌, ◌≡◌, Bool, true, List, [], ◌∷◌, Option, none, some, leb, length, arith, All,
  inl, inr, Bool-cases,
}
use sistema_motriz_rs.SerialGateway.Text.{same_text, same_text-like}
use sistema_motriz_rs.SerialGateway.Policy.{
  arg_is, is_any, argv_at, no_arg_command_allowed, lan_allowed, lan_command_allowed,
}

arg_is-like : (x : Option String) (a b : String) → arg_is x a ≡ true → arg_is x b ≡ same_text a b
unfolding arg_is
arg_is-like none a b h = absurd (ground (arith, h))
arg_is-like (some x) a b h = same_text-like x a b h

-- The commands that change what a driver keeps, or let a motor calibrate itself.
abbrev pub changing : List String
changing =
    "SVD48_HALL_CALIBRATE" ∷ "WRITE_REG" ∷ "WRITE_REGS" ∷ "SAVE_SVD48_CONFIG"
    ∷ "SET_SVD48_GEAR_RATIO" ∷ "SVD48_IDENTIFY" ∷ []

-- What the tests see of a command that is spelled like `a`, whatever its case.
lan_allowed-like :
    (x : Option String) (a : String) (argc : ℕ) (argv : List (Option String))
    → arg_is x a ≡ true
    → lan_allowed (arg_is x) argc argv ≡ lan_allowed (same_text a) argc argv
lan_allowed-like x a argc argv n = ap (λ f. lan_allowed f argc argv) (λ i b. arg_is-like x a b n i)

-- The line has at least two arguments, and the last asks for confirmation.
abbrev pub Confirmed : List (Option String) → Type 0
Confirmed argv =
    (leb 3 (length argv) ≡ true) × (arg_is (argv_at argv (length argv - 1)) "CONFIRM" ≡ true)

abbrev ConfirmedAt : ℕ → List (Option String) → Type 0
ConfirmedAt argc argv = (leb 3 argc ≡ true) × (arg_is (argv_at argv (argc - 1)) "CONFIRM" ≡ true)

hall_confirmed :
    (argc : ℕ) (argv : List (Option String))
    → lan_allowed (same_text "SVD48_HALL_CALIBRATE") argc argv ≡ true
    → ConfirmedAt argc argv
unfolding lan_allowed no_arg_command_allowed is_any same_text
hall_confirmed argc argv h = ground (arith, h)

write_confirmed :
    (argc : ℕ) (argv : List (Option String))
    → lan_allowed (same_text "WRITE_REG") argc argv ≡ true
    → ConfirmedAt argc argv
unfolding lan_allowed no_arg_command_allowed is_any same_text
write_confirmed argc argv h = ground (arith, h)

writes_confirmed :
    (argc : ℕ) (argv : List (Option String))
    → lan_allowed (same_text "WRITE_REGS") argc argv ≡ true
    → ConfirmedAt argc argv
unfolding lan_allowed no_arg_command_allowed is_any same_text
writes_confirmed argc argv h = ground (arith, h)

save_confirmed :
    (argc : ℕ) (argv : List (Option String))
    → lan_allowed (same_text "SAVE_SVD48_CONFIG") argc argv ≡ true
    → ConfirmedAt argc argv
unfolding lan_allowed no_arg_command_allowed is_any same_text
save_confirmed argc argv h = ground (arith, h)

gear_confirmed :
    (argc : ℕ) (argv : List (Option String))
    → lan_allowed (same_text "SET_SVD48_GEAR_RATIO") argc argv ≡ true
    → ConfirmedAt argc argv
unfolding lan_allowed no_arg_command_allowed is_any same_text
gear_confirmed argc argv h = ground (arith, h)

identify_confirmed :
    (argc : ℕ) (argv : List (Option String))
    → lan_allowed (same_text "SVD48_IDENTIFY") argc argv ≡ true
    → ConfirmedAt argc argv
unfolding lan_allowed no_arg_command_allowed is_any same_text
identify_confirmed argc argv h = ground (arith, h)

is_any-elim :
    (P : Type 0) (is : String → Bool) (names : List String)
    → is_any is names ≡ true
    → All (λ a. is a ≡ true → P) names
    → P
unfolding is_any
is_any-elim P is [] h k = absurd (ground (arith, h))
is_any-elim P is (a ∷ names) h k = elim (Bool-cases (is a)) [
  | inl e ↦ k.0 e
  | inr e ↦ is_any-elim P is names (ground (arith, e, h)) k.1
]

lan_command_allowed-tests :
    (argv : List (Option String))
    → lan_command_allowed (some argv) ≡ true
    → lan_allowed (arg_is (argv_at argv 0)) (length argv) argv ≡ true
unfolding lan_command_allowed
lan_command_allowed-tests argv h = ground (arith, h)

-- Over LAN, a command that changes what a driver keeps or that moves a motor to calibrate or identify
-- it is let through, in whatever case it is spelled, only with two arguments or more of which the last
-- is CONFIRM.
pub lan_changes-Confirmed :
    (argv : List (Option String))
    → is_any (arg_is (argv_at argv 0)) changing ≡ true
    → lan_command_allowed (some argv) ≡ true
    → Confirmed argv
lan_changes-Confirmed argv c h =
    let x = argv_at argv 0 in
    let n = length argv in
    let t = lan_command_allowed-tests argv h in
    is_any-elim (Confirmed argv) (arg_is x) changing c (
      (λ e. hall_confirmed n argv (sym (lan_allowed-like x "SVD48_HALL_CALIBRATE" n argv e) ∙ t)),
      (
        (λ e. write_confirmed n argv (sym (lan_allowed-like x "WRITE_REG" n argv e) ∙ t)),
        (
          (λ e. writes_confirmed n argv (sym (lan_allowed-like x "WRITE_REGS" n argv e) ∙ t)),
          (
            (λ e.
                save_confirmed n argv (sym (lan_allowed-like x "SAVE_SVD48_CONFIG" n argv e) ∙ t)),
            (
              (λ e.
                  gear_confirmed n argv
                    (sym (lan_allowed-like x "SET_SVD48_GEAR_RATIO" n argv e) ∙ t)),
              (
                (λ e.
                    identify_confirmed n argv
                      (sym (lan_allowed-like x "SVD48_IDENTIFY" n argv e) ∙ t)),
                tt,
              ),
            ),
          ),
        ),
      ),
    )
