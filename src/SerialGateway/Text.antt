-- ===== src/SerialGateway/Text.antt =====
-- `strcasecmp` of components/serial_gateway/serial_gateway_policy.c, in the C locale.
use Prim.Native.String.{String, [], ◌∷◌}
use Prim.Native.Char.{Char, code}
use sistema_motriz_rs.Base.{
  ℕ, ◌+◌, ◌≡◌, refl, Bool, true, false, ◌&&◌, leb, ◌==◌, if◌then◌else◌, arith, ap, ◌∙◌, ==_iff,
}

-- `tolower`
abbrev pub fold : Char → ℕ
fold c = if leb 65 (code c) && leb (code c) 90 then code c + 32 else code c

-- `strcasecmp(a, b) == 0`
unfoldable pub same_text : String → String → Bool
same_text [] [] = true
same_text [] (b ∷ t) = false
same_text (a ∷ s) [] = false
same_text (a ∷ s) (b ∷ t) = fold a == fold b && same_text s t

both : (p q : Bool) → (p && q) ≡ true → (p ≡ true) × (q ≡ true)
both p q h = ground arith

-- The comparison is one of folded texts: what equals a text compares like it.
pub same_text-like : (x a b : String) → same_text x a ≡ true → same_text x b ≡ same_text a b
unfolding same_text
same_text-like [] [] b h = refl
same_text-like [] (a ∷ s) b h = absurd (ground (arith, h))
same_text-like (x ∷ t) [] b h = absurd (ground (arith, h))
same_text-like (x ∷ t) (a ∷ s) [] h = refl
same_text-like (x ∷ t) (a ∷ s) (b ∷ u) h =
    let k = both (fold x == fold a) (same_text t s) h in
    ap (λ n. n == fold b && same_text t u) ((==_iff (fold x) (fold a)).0 k.0)
    ∙ ap (λ r. fold a == fold b && r) (same_text-like t s u k.1)
