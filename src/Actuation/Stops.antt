-- ===== src/Actuation/Stops.antt =====
-- The stop of all endpoints in components/actuation_coordinator/actuation_coordinator.c, and the lock
-- that its calls take.
use mathlib.Core.Path.{subst}
use sistema_motriz_rs.Base.{
  ℕ, ◌+◌, ◌-◌, ◌<◌, ◌≤◌, ◌≡◌, ◌↔◌, refl, ◌∙◌, true, false, List, [], ◌∷◌, some, ◌==◌, length, arith,
  All, Bool-cases, Option-cases, inl, inr,
}
use sistema_motriz_rs.Capabilities.Endpoint.{
  Endpoint, CapError, cap_ok, capability_stoppable, endpoint_has_capability, endpoint_stop,
  is_cap_ok,
}
use sistema_motriz_rs.Capabilities.Registry.{Registry, registry_find, find_in}
use sistema_motriz_rs.Actuation.Coordinator.{
  EndpointResult, LockPort, Coordinator, success, count_applied, stop_found, rollback,
  found_required, set_found, apply_locked, apply_setpoints, stop_each, stop_all, stop_endpoint,
  stop_or_unavailable,
}
use sistema_motriz_rs.Actuation.Orders.{Applied, AllStopped, stoppables, stop_each-AllStopped}

-- `depth` tells how often the lock is held, by the lock's operations.
pub record Counts {W : Type 0} (depth : W → ℕ) (lock : LockPort W) : Type 0 where
  pub taken : (w : W) → (lock.acquire w).1 ≡ true → depth (lock.acquire w).0 ≡ depth w + 1
  pub refused : (w : W) → (lock.acquire w).1 ≡ false → depth (lock.acquire w).0 ≡ depth w
  pub returned : (w : W) → depth (lock.release w) ≡ depth w - 1

count_applied_iff :
    (rs : List EndpointResult)
    → (count_applied rs ≤ length rs) × ((count_applied rs ≡ length rs) ↔ All Applied rs)
count_applied_iff [] = ground arith
count_applied_iff (r ∷ rs) = ground (arith, count_applied_iff rs)

-- The endpoint answered that all is well.
abbrev pub AnsweredOk : EndpointResult → Type 0
AnsweredOk r = r.error ≡ cap_ok

module _ {W F : Type 0} where
  AllStopped-Applied :
      (es : List (Endpoint W F)) (rs : List EndpointResult) (w v : W)
      → AllStopped es rs w v
      → All Applied rs ↔ All AnsweredOk rs
  AllStopped-Applied [] [] w v a = ((λ h. tt), (λ h. tt))
  AllStopped-Applied [] (r ∷ rs) w v a = absurd a
  AllStopped-Applied (e ∷ es) [] w v a = absurd a
  AllStopped-Applied (e ∷ es) (r ∷ rs) w v (u, i, p, s, a) =
      let k = AllStopped-Applied es rs u v a in ground (arith, p, k)

  -- With the lock taken, the stop of all endpoints calls the stop of every endpoint that can be stopped
  -- and has a port to call, in the order of the registry and whatever the others answer, and nothing
  -- else but that the lock is given back. The report holds an entry for each of them, with what it
  -- answered, and the outcome is SUCCESS exactly if there is such an endpoint and every one answered
  -- that all is well.
  pub stop_all-covers :
      (c : Coordinator W F) (w : W)
      → (c.lock.acquire w).1 ≡ true
      → let r = stop_all c w in
        (v : W) × (r.0 ≡ c.lock.release v)
        × AllStopped (stoppables c.registry.items) r.1.endpoints (c.lock.acquire w).0 v
        × ((r.1.outcome ≡ success) ↔ ((0 < length r.1.endpoints) × All AnsweredOk r.1.endpoints))
  unfolding stop_all
  stop_all-covers c w h =
      let w₁ = (c.lock.acquire w).0 in
      let t = stop_each c.registry.items w₁ in
      let a = stop_each-AllStopped c.registry.items w₁ in
      let k = AllStopped-Applied (stoppables c.registry.items) t.1 w₁ t.0 a in
      rw h (t.0, refl, a, ground (arith, count_applied_iff t.1, k))

  find_in-All :
      (P : Endpoint W F → Type 0) (es : List (Endpoint W F)) (id : ℕ) (e : Endpoint W F)
      → All P es
      → find_in es id ≡ some e
      → P e
  unfolding find_in
  find_in-All P [] id e h k = absurd (ground (arith, k))
  find_in-All P (x ∷ es) id e h k = elim (Bool-cases (x.id == id)) [
    | inl y ↦ subst P (ground (arith, y, k)) h.0
    | inr n ↦ find_in-All P es id e h.1 (ground (arith, n, k))
  ]

  module _ (depth : W → ℕ) where
    -- A stop leaves the lock alone.
    abbrev pub StopKeeps : Endpoint W F → Type 0
    StopKeeps e = (w : W) → depth (endpoint_stop e w).0 ≡ depth w

    stop_found-keeps :
        (registry : Registry W F) (id : ℕ) (w : W)
        → All StopKeeps registry.items
        → depth (stop_found (registry_find registry id) w).0 ≡ depth w
    unfolding registry_find
    stop_found-keeps registry id w h = elim (Option-cases (find_in registry.items id)) [
      | inl n ↦ rw n refl
      | inr (e, n) ↦ rw n (find_in-All StopKeeps registry.items id e h n w)
    ]

    stop_or-keeps :
        (registry : Registry W F) (id : ℕ) (w : W)
        → All StopKeeps registry.items
        → depth (stop_or_unavailable (registry_find registry id) w).0 ≡ depth w
    unfolding registry_find
    stop_or-keeps registry id w h = elim (Option-cases (find_in registry.items id)) [
      | inl n ↦ rw n refl
      | inr (e, n) ↦ rw n (find_in-All StopKeeps registry.items id e h n w)
    ]

    rollback-keeps :
        (registry : Registry W F) (rs : List EndpointResult) (w : W)
        → All StopKeeps registry.items
        → depth (rollback registry rs w).0 ≡ depth w
    unfolding rollback
    rollback-keeps registry [] w h = refl
    rollback-keeps registry (r ∷ rs) w h = elim (Bool-cases r.applied) [
      | inl a ↦ rw a (rollback-keeps registry rs _ h ∙ stop_found-keeps registry r.endpoint_id w h)
      | inr a ↦ rw a (rollback-keeps registry rs w h)
    ]

    stop_each-keeps :
        (es : List (Endpoint W F)) (w : W) → All StopKeeps es → depth (stop_each es w).0 ≡ depth w
    unfolding stop_each
    stop_each-keeps [] w h = refl
    stop_each-keeps (e ∷ es) w h =
        elim (Bool-cases (endpoint_has_capability e capability_stoppable)) [
          | inl s ↦ rw s (stop_each-keeps es _ h.1 ∙ h.0 w)
          | inr s ↦ rw s (stop_each-keeps es w h.1)
        ]

    module _ {A : Type 0} (id_of : A → ℕ) (set : Endpoint W F → A → W → W × CapError) where
      -- A setpoint leaves the lock alone.
      abbrev pub SetKeeps : Endpoint W F → Type 0
      SetKeeps e = (a : A) (w : W) → depth (set e a w).0 ≡ depth w

      set_found-keeps :
          (registry : Registry W F) (a : A) (w : W)
          → All SetKeeps registry.items
          → depth (set_found id_of set (registry_find registry (id_of a)) a w).0 ≡ depth w
      unfolding registry_find
      set_found-keeps registry a w h = elim (Option-cases (find_in registry.items (id_of a))) [
        | inl n ↦ rw n refl
        | inr (e, n) ↦ rw n (find_in-All SetKeeps registry.items (id_of a) e h n a w)
      ]

      apply_locked-keeps :
          (registry : Registry W F) (requests : List A) (done : List EndpointResult) (w : W)
          → All SetKeeps registry.items
          → All StopKeeps registry.items
          → depth (apply_locked id_of set registry done requests w).0 ≡ depth w
      unfolding apply_locked
      apply_locked-keeps registry [] done w h k = refl
      apply_locked-keeps registry (a ∷ more) done w h k =
          let found = registry_find registry (id_of a) in
          let tried = set_found id_of set found a w in
          let s = set_found-keeps registry a w h in
          elim (Bool-cases (is_cap_ok tried.1)) [
            | inl e ↦ rw e (apply_locked-keeps registry more _ tried.0 h k ∙ s)
            | inr e ↦ elim (Bool-cases (found_required found)) [
              | inl r ↦ rw (e, r) (rollback-keeps registry done tried.0 k ∙ s)
              | inr r ↦ rw (e, r) s
            ]
          ]

      -- The calls that set endpoints, and those that stop one or all, leave the lock as they found
      -- it, on every path: where it was not taken, where a setpoint failed, and where all went well.
      pub calls-release :
          (c : Coordinator W F) (requests : List A) (id : ℕ) (w : W)
          → Counts depth c.lock
          → All SetKeeps c.registry.items
          → All StopKeeps c.registry.items
          → (depth (apply_setpoints id_of set c requests w).0 ≡ depth w)
            × (depth (stop_endpoint c id w).0 ≡ depth w)
            × (depth (stop_all c w).0 ≡ depth w)
      unfolding apply_setpoints stop_endpoint stop_all
      calls-release c requests id w n h k =
          let a = c.lock.acquire w in
          let kept = apply_locked-keeps c.registry requests [] a.0 h k in
          let one = stop_or-keeps c.registry id a.0 k in
          let all = stop_each-keeps c.registry.items a.0 k in
          ground (
            arith,
            n.taken w,
            n.refused w,
            kept,
            one,
            all,
            n.returned (apply_locked id_of set c.registry [] requests a.0).0,
            n.returned (stop_or_unavailable (registry_find c.registry id) a.0).0,
            n.returned (stop_each c.registry.items a.0).0,
          )
