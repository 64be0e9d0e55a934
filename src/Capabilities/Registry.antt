-- ===== src/Capabilities/Registry.antt =====
-- components/robot_capabilities/robot_capabilities.c: the registry of endpoints, and that its
-- endpoints have different ids. A NULL registry or endpoint is `none` of the calls with `_call`.
use sistema_motriz_rs.Base.{
  ℕ, ◌≤◌, ◌≡◌, ◌≢◌, refl, inl, inr, ◌⊎◌, not, ◌||◌, List, [], ◌∷◌, ◌++◌, Option, none, some, ltb,
  leb, ◌==◌, if◌then◌else◌, length, length-append, arith, Option-cases, get_elem?,
}
use sistema_motriz_rs.Capabilities.Endpoint.{Endpoint, endpoint_capabilities, is_some}

pub data RegistryError : Type 0 where
  registry_ok registry_invalid_argument registry_duplicate_id registry_full : RegistryError

abbrev pub registry_max : ℕ
registry_max = 16

-- The first `count` items.
pub record Registry (W F : Type 0) : Type 0 where
  pub items : List (Endpoint W F)

module _ {W F : Type 0} where
  abbrev pub registry_init : Registry W F
  registry_init = record { items = [] }

  unfoldable pub find_in : List (Endpoint W F) → ℕ → Option (Endpoint W F)
  find_in [] id = none
  find_in (e ∷ es) id = if e.id == id then some e else find_in es id

  unfoldable pub registry_find : Registry W F → ℕ → Option (Endpoint W F)
  registry_find r id = find_in r.items id

  unfoldable pub registry_add : Registry W F → Endpoint W F → Registry W F × RegistryError
  registry_add r e =
      if not (is_some e.name) || endpoint_capabilities e == 0
      then (r, registry_invalid_argument)
      else if is_some (registry_find r e.id)
      then (r, registry_duplicate_id)
      else if leb registry_max (length r.items)
      then (r, registry_full)
      else (record { items = r.items ++ (e ∷ []) }, registry_ok)

  unfoldable pub registry_at : Registry W F → ℕ → Option (Endpoint W F)
  registry_at r index = if ltb index (length r.items) then get_elem? r.items index else none

  unfoldable pub registry_find_call : Option (Registry W F) → ℕ → Option (Endpoint W F)
  registry_find_call none id = none
  registry_find_call (some r) id = registry_find r id

  unfoldable pub registry_add_call :
      Option (Registry W F) → Option (Endpoint W F) → Option (Registry W F) × RegistryError
  registry_add_call (some r) (some e) = let (r', k) = registry_add r e in (some r', k)
  registry_add_call r e = (r, registry_invalid_argument)

  -- No endpoint has the id of one behind it.
  abbrev pub Distinct : List (Endpoint W F) → Type 0
  Distinct [] = Unit
  Distinct (e ∷ es) = (find_in es e.id ≡ none) × Distinct es

  pub record IsSound (r : Registry W F) : Type 0 where
    pub distinct : Distinct r.items
    pub fits : length r.items ≤ registry_max

  find_in-append :
      (es : List (Endpoint W F)) (e : Endpoint W F) (id : ℕ)
      → find_in es id ≡ none
      → find_in (es ++ (e ∷ [])) id ≡ (if e.id == id then some e else none)
  unfolding find_in
  find_in-append [] e id h = refl
  find_in-append (x ∷ es) e id h = ground (arith, h, find_in-append es e id)

  Distinct-append :
      (es : List (Endpoint W F)) (e : Endpoint W F)
      → Distinct es
      → find_in es e.id ≡ none
      → Distinct (es ++ (e ∷ []))
  unfolding find_in
  Distinct-append [] e d h = (refl, tt)
  Distinct-append (x ∷ es) e d h = (
    ground (arith, h, d.0, find_in-append es e x.id),
    Distinct-append es e d.1 (ground (arith, h)),
  )

  -- Adding to a registry of different ids keeps the ids different and the count within the array. An
  -- accepted endpoint is found by its id, and a refused one changes nothing.
  pub registry_add-IsSound :
      (r : Registry W F) (e : Endpoint W F)
      → IsSound r
      → let a = registry_add r e in
        IsSound a.0
        × ((a.1 ≢ registry_ok) ⊎ (registry_find a.0 e.id ≡ some e))
        × ((a.1 ≡ registry_ok) ⊎ (a.0 ≡ r))
  unfolding registry_add registry_find
  registry_add-IsSound r e s = elim (Option-cases (find_in r.items e.id)) [
    | inr (x, h) ↦ ground (arith, h, s)
    | inl h ↦ ground (
      arith,
      h,
      s,
      Distinct-append r.items e s.distinct h,
      length-append r.items (e ∷ []),
      find_in-append r.items e e.id h,
    )
  ]
