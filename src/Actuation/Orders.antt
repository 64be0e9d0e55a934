-- ===== src/Actuation/Orders.antt =====
-- What the endpoints of components/actuation_coordinator/actuation_coordinator.c are told, by the ports
-- that are called and what they answer: from the world `w` to the world `v`.
use sistema_motriz_rs.Base.{
  ℕ, ◌≡◌, refl, sym, ◌⊎◌, inl, inr, Bool, true, false, List, [], ◌∷◌, ◌++◌, Option, none, some,
  if◌then◌else◌, All, Option-cases, Bool-cases,
}
use sistema_motriz_rs.Capabilities.Endpoint.{
  Endpoint, CapError, cap_ok, cap_unavailable, is_cap_ok, capability_stoppable,
  endpoint_has_capability, endpoint_stop,
}
use sistema_motriz_rs.Capabilities.Registry.{Registry, registry_find}
use sistema_motriz_rs.Actuation.Coordinator.{EndpointResult, rollback, stop_each}

abbrev pub Applied : EndpointResult → Type 0
Applied r = r.applied ≡ true

-- Whether a stop was ordered to undo the entry.
abbrev pub RolledBack : Bool → EndpointResult → Type 0
RolledBack b r = r.rollback_stop_attempted ≡ b

module _ {W F : Type 0} where
  -- The function of the port that stops an endpoint, where it can be called.
  abbrev pub stop_order : Endpoint W F → Option (W → W × CapError)
  stop_order e = elim e.stoppable [
    | none ↦ none
    | some port ↦ if port.has_context then port.stop else none
  ]

  -- The port was called and answered, or there is none to call, which is an error.
  abbrev pub Stopped : Endpoint W F → W → W → CapError → Type 0
  Stopped e w v error =
      ((f : W → W × CapError) × (stop_order e ≡ some f) × (f w ≡ (v, error)))
      ⊎ ((stop_order e ≡ none) × (v ≡ w) × (is_cap_ok error ≡ false))

  pub endpoint_stop-Stopped :
      (e : Endpoint W F) (w : W) → Stopped e w (endpoint_stop e w).0 (endpoint_stop e w).1
  unfolding endpoint_stop
  endpoint_stop-Stopped e w = elim (Option-cases e.stoppable) [
    | inl n ↦ rw n (inr (refl, refl, refl))
    | inr (port, n) ↦ elim (Bool-cases port.has_context) [
      | inr b ↦ elim (Option-cases port.stop) [
        | inl z ↦ rw (n, z, b) (inr (refl, refl, refl))
        | inr (f, z) ↦ rw (n, z, b) (inr (refl, refl, refl))
      ]
      | inl b ↦ elim (Option-cases port.stop) [
        | inl z ↦ rw (n, z, b) (inr (refl, refl, refl))
        | inr (f, z) ↦ rw (n, z, b) (inl (f, refl, refl))
      ]
    ]
  ]

  -- Each endpoint was ordered to stop, in their order, and the entries hold what they answered.
  abbrev pub AllStopped : List (Endpoint W F) → List EndpointResult → W → W → Type 0
  AllStopped [] [] w v = v ≡ w
  AllStopped [] (r ∷ rs) w v = ⊥
  AllStopped (e ∷ es) [] w v = ⊥
  AllStopped (e ∷ es) (r ∷ rs) w v =
      (u : W) × (r.endpoint_id ≡ e.id)
      × (r.applied ≡ is_cap_ok r.error)
      × Stopped e w u r.error
      × AllStopped es rs u v

  -- The endpoints that can be stopped.
  abbrev pub stoppables : List (Endpoint W F) → List (Endpoint W F)
  stoppables [] = []
  stoppables (e ∷ es) =
      if endpoint_has_capability e capability_stoppable then e ∷ stoppables es else stoppables es

  pub stop_each-AllStopped :
      (es : List (Endpoint W F)) (w : W)
      → AllStopped (stoppables es) (stop_each es w).1 w (stop_each es w).0
  unfolding stop_each
  stop_each-AllStopped [] w = refl
  stop_each-AllStopped (e ∷ es) w =
      let (u, error) = endpoint_stop e w in
      elim (Bool-cases (endpoint_has_capability e capability_stoppable)) [
        | inl h ↦ rw h (u, refl, refl, endpoint_stop-Stopped e w, stop_each-AllStopped es u)
        | inr h ↦ rw h (stop_each-AllStopped es w)
      ]

  abbrev pub Known : Registry W F → EndpointResult → Type 0
  Known registry r = (e : Endpoint W F) × (registry_find registry r.endpoint_id ≡ some e)

  -- The endpoint of each entry was ordered to stop, in the order of the entries, which hold what it
  -- answered.
  abbrev pub Halted : Registry W F → List EndpointResult → W → W → Type 0
  Halted registry [] w v = v ≡ w
  Halted registry (r ∷ rs) w v =
      (e : Endpoint W F) × (u : W) × (registry_find registry r.endpoint_id ≡ some e)
      × Stopped e w u r.rollback_stop_error
      × Halted registry rs u v

  pub rollback-Halted :
      (registry : Registry W F) (rs : List EndpointResult) (w : W)
      → All Applied rs
      → All (Known registry) rs
      → Halted registry (rollback registry rs w).1 w (rollback registry rs w).0
  unfolding rollback
  rollback-Halted registry [] w h k = refl
  rollback-Halted registry (r ∷ rs) w h k =
      let (e, f) = k.0 in
      let u = (endpoint_stop e w).0 in
      rw (h.0, f) (e, u, refl, endpoint_stop-Stopped e w, rollback-Halted registry rs u h.1 k.1)

  module _ {A : Type 0} (id_of : A → ℕ) (set : Endpoint W F → A → W → W × CapError) where
    -- Each endpoint was told its setpoint, in their order, and answered that all is well.
    abbrev pub Carried : Registry W F → List A → W → W → Type 0
    Carried registry [] w v = v ≡ w
    Carried registry (a ∷ more) w v =
        (e : Endpoint W F) × (u : W) × (registry_find registry (id_of a) ≡ some e)
        × (set e a w ≡ (u, cap_ok))
        × Carried registry more u v

    -- The endpoint is not in the registry, or was told and answered with an error.
    abbrev pub Refused : Registry W F → A → W → W → CapError → Type 0
    Refused registry a w v error =
        (is_cap_ok error ≡ false)
        × (((registry_find registry (id_of a) ≡ none) × (v ≡ w) × (error ≡ cap_unavailable))
            ⊎ ((e : Endpoint W F) × (registry_find registry (id_of a) ≡ some e)
                × (set e a w ≡ (v, error))))

    pub Carried-append :
        (registry : Registry W F) (before : List A) (a : A) (w v u : W) (e : Endpoint W F)
        → Carried registry before w v
        → registry_find registry (id_of a) ≡ some e
        → set e a v ≡ (u, cap_ok)
        → Carried registry (before ++ (a ∷ [])) w u
    Carried-append registry [] a w v u e c f s = (e, u, f, rw (sym c) s, refl)
    Carried-append registry (b ∷ before) a w v u e (x, y, g, t, c) f s =
        (x, y, g, t, Carried-append registry before a y v u e c f s)
