-- ===== src/Actuation/Reports.antt =====
-- What components/actuation_coordinator/actuation_coordinator.c does and reports of setpoints.
use mathlib.Core.Path.{subst}
use sistema_motriz_rs.Base.{
  ℕ, suc, ◌≡◌, refl, sym, ap, ◌∙◌, ◌⊎◌, ◌||◌, ◌<◌, ◌≤◌, inl, inr, Bool, true, false, List, [], ◌∷◌,
  ◌++◌, map, Option, some, Option-cases, ltb, ◌==◌, if◌then◌else◌, length, arith, All, All-append,
  append_nil, append_one, Bool-cases,
}
use sistema_motriz_rs.Capabilities.Endpoint.{Endpoint, CapError, cap_ok, is_cap_ok}
use sistema_motriz_rs.Capabilities.Registry.{Registry, registry_find}
use sistema_motriz_rs.Actuation.Orders.{
  Applied, RolledBack, Carried, Refused, Known, Halted, Carried-append, rollback-Halted,
}
use sistema_motriz_rs.Actuation.Coordinator.{
  EndpointResult, Report, Coordinator, success, attempt, partial_or_failure, count_applied,
  rollback, found_required, stop_found, set_found, apply_locked, apply_setpoints, max_setpoints,
}

abbrev pub ids : List EndpointResult → List ℕ
ids rs = map (λ r. r.endpoint_id) rs

module _ {W F A : Type 0} (id_of : A → ℕ) (set : Endpoint W F → A → W → W × CapError) where
  -- Every endpoint of a request was told its setpoint and answered that all is well.
  pub record Completed (registry : Registry W F) (requests : List A) (w v : W) (r : Report)
      : Type 0 where
    pub said : r.outcome ≡ success
    pub same_ids : ids r.endpoints ≡ map id_of requests
    pub all_applied : All Applied r.endpoints
    pub counted : r.applied ≡ length requests
    pub carried : Carried id_of set registry requests w v

  -- One request failed: the endpoints before it were told theirs, and then told to stop if it names a
  -- required endpoint, and those behind it were not told anything.
  pub record Interrupted (registry : Registry W F) (requests : List A) (w v : W) (r : Report)
      : Type 0 where
    pub before : List A
    pub request : A
    pub later : List A
    pub good : List EndpointResult
    pub bad : EndpointResult
    pub reached : W
    pub tried : W
    pub all_requests : requests ≡ before ++ (request ∷ later)
    pub split : r.endpoints ≡ good ++ (bad ∷ [])
    pub good_ids : ids good ≡ map id_of before
    pub bad_id : bad.endpoint_id ≡ id_of request
    pub bad_applied : bad.applied ≡ false
    pub good_applied : All Applied good
    pub counted : r.applied ≡ length good
    pub said : r.outcome ≡ partial_or_failure (length good)
    pub carried : Carried id_of set registry before w reached
    pub refused : Refused id_of set registry request reached tried bad.error
    pub undone :
        found_required (registry_find registry (id_of request)) ≡ true
        → All (RolledBack true) good × Halted registry good tried v
    pub left :
        found_required (registry_find registry (id_of request)) ≡ false
        → All (RolledBack false) good × (v ≡ tried)

count_applied-length : (rs : List EndpointResult) → All Applied rs → count_applied rs ≡ length rs
count_applied-length [] h = refl
count_applied-length (r ∷ rs) h = ground (arith, h.0, count_applied-length rs h.1)

ids-append :
    (rs : List EndpointResult) (r : EndpointResult)
    → ids (rs ++ (r ∷ [])) ≡ ids rs ++ (r.endpoint_id ∷ [])
ids-append [] r = refl
ids-append (x ∷ rs) r = ap (λ l. x.endpoint_id ∷ l) (ids-append rs r)

ids-length : (rs : List EndpointResult) → length (ids rs) ≡ length rs
ids-length [] = refl
ids-length (r ∷ rs) = ap suc (ids-length rs)

length-map :
    {A : Type 0} (f : A → ℕ) (requests : List A) → length (map f requests) ≡ length requests
length-map f [] = refl
length-map f (a ∷ more) = ap suc (length-map f more)

map-append_one :
    {A : Type 0} (f : A → ℕ) (before : List A) (a : A)
    → map f (before ++ (a ∷ [])) ≡ map f before ++ (f a ∷ [])
map-append_one f [] a = refl
map-append_one f (b ∷ before) a = ap (λ l. f b ∷ l) (map-append_one f before a)

is_cap_ok_sound : (e : CapError) → is_cap_ok e ≡ true → e ≡ cap_ok
is_cap_ok_sound e h = ground arith

module _ {W F : Type 0} where
  rollback-ids :
      (registry : Registry W F) (rs : List EndpointResult) (w : W)
      → ids (rollback registry rs w).1 ≡ ids rs
  unfolding rollback
  rollback-ids registry [] w = refl
  rollback-ids registry (r ∷ rs) w =
      let u = (stop_found (registry_find registry r.endpoint_id) w).0 in
      elim (Bool-cases r.applied) [
        | inl h ↦ rw h (ap (λ l. r.endpoint_id ∷ l) (rollback-ids registry rs u))
        | inr h ↦ rw h (ap (λ l. r.endpoint_id ∷ l) (rollback-ids registry rs w))
      ]

  rollback-length :
      (registry : Registry W F) (rs : List EndpointResult) (w : W)
      → length (rollback registry rs w).1 ≡ length rs
  rollback-length registry rs w =
      sym (ids-length (rollback registry rs w).1)
      ∙ ap length (rollback-ids registry rs w)
      ∙ ids-length rs

  rollback-undone :
      (registry : Registry W F) (rs : List EndpointResult) (w : W)
      → All Applied rs
      → All Applied (rollback registry rs w).1 × All (RolledBack true) (rollback registry rs w).1
  unfolding rollback
  rollback-undone registry [] w h = (tt, tt)
  rollback-undone registry (r ∷ rs) w h =
      let u = (stop_found (registry_find registry r.endpoint_id) w).0 in
      let k = rollback-undone registry rs u h.1 in ground (arith, h.0, k)

  -- The entries of the report and the world when the setpoint of an endpoint fails.
  abbrev undo :
      Registry W F → Option (Endpoint W F) → List EndpointResult → W → W × List EndpointResult
  undo registry found done w = if found_required found then rollback registry done w else (w, done)

  undo-ids :
      (registry : Registry W F) (found : Option (Endpoint W F)) (done : List EndpointResult) (w : W)
      → ids (undo registry found done w).1 ≡ ids done
  undo-ids registry found done w = elim (Bool-cases (found_required found)) [
    | inl h ↦ rw h (rollback-ids registry done w)
    | inr h ↦ rw h refl
  ]

  undo-Applied :
      (registry : Registry W F) (found : Option (Endpoint W F)) (done : List EndpointResult) (w : W)
      → All Applied done
      → All Applied (undo registry found done w).1
  undo-Applied registry found done w h = elim (Bool-cases (found_required found)) [
    | inl e ↦ rw e (rollback-undone registry done w h).0
    | inr e ↦ rw e h
  ]

  undo-required :
      (registry : Registry W F) (found : Option (Endpoint W F)) (done : List EndpointResult) (w : W)
      → All Applied done
      → All (Known registry) done
      → found_required found ≡ true
      → All (RolledBack true) (undo registry found done w).1
        × Halted registry (undo registry found done w).1 w (undo registry found done w).0
  undo-required registry found done w h k e =
      rw e ((rollback-undone registry done w h).1, rollback-Halted registry done w h k)

  undo-optional :
      (registry : Registry W F) (found : Option (Endpoint W F)) (done : List EndpointResult) (w : W)
      → All (RolledBack false) done
      → found_required found ≡ false
      → All (RolledBack false) (undo registry found done w).1 × ((undo registry found done w).0 ≡ w)
  undo-optional registry found done w h e = rw e (h, refl)

  module _ {A : Type 0} (id_of : A → ℕ) (set : Endpoint W F → A → W → W × CapError) where
    set_found-cases :
        (registry : Registry W F) (a : A) (w : W)
        → let tried = set_found id_of set (registry_find registry (id_of a)) a w in
          ((is_cap_ok tried.1 ≡ true)
            × ((e : Endpoint W F) × (registry_find registry (id_of a) ≡ some e)
                × (set e a w ≡ (tried.0, cap_ok))))
          ⊎ Refused id_of set registry a w tried.0 tried.1
    set_found-cases registry a w = elim (Option-cases (registry_find registry (id_of a))) [
      | inl n ↦ rw n (inr (refl, inl (refl, refl, refl)))
      | inr (e, n) ↦ elim (Bool-cases (is_cap_ok (set e a w).1)) [
        | inl y ↦
            rw n
              (inl (y, (e, refl, ap (λ z. ((set e a w).0, z)) (is_cap_ok_sound (set e a w).1 y))))
        | inr b ↦ rw n (inr (b, inr (e, refl, refl)))
      ]
    ]

    -- What holds before a request: the entries `done` are of the requests `prior`.
    record Going (registry : Registry W F) (done : List EndpointResult) (prior : List A) (w u : W)
        : Type 0 where
      applied : All Applied done
      kept : All (RolledBack false) done
      known : All (Known registry) done
      same : ids done ≡ map id_of prior
      carried : Carried id_of set registry prior w u

    Going-length :
        (registry : Registry W F) (done : List EndpointResult) (prior : List A) (w u : W)
        → Going registry done prior w u
        → length done ≡ length prior
    Going-length registry done prior w u g =
        sym (ids-length done) ∙ ap length g.same ∙ length-map id_of prior

    Going-next :
        (registry : Registry W F) (done : List EndpointResult) (prior : List A) (a : A) (w u : W)
        (e : Endpoint W F) (v : W) (entry : EndpointResult)
        → Going registry done prior w u
        → entry.endpoint_id ≡ id_of a
        → entry.applied ≡ true
        → entry.rollback_stop_attempted ≡ false
        → registry_find registry (id_of a) ≡ some e
        → set e a u ≡ (v, cap_ok)
        → Going registry (done ++ (entry ∷ [])) (prior ++ (a ∷ [])) w v
    Going-next registry done prior a w u e v entry g i p k f s = record {
      applied = All-append Applied done (entry ∷ []) g.applied (p, tt);
      kept = All-append (RolledBack false) done (entry ∷ []) g.kept (k, tt);
      known =
          All-append (Known registry) done (entry ∷ []) g.known
            ((e, ap (registry_find registry) i ∙ f), tt);
      same =
          ids-append done entry
          ∙ ap (λ l. l ++ (entry.endpoint_id ∷ [])) g.same
          ∙ ap (λ j. map id_of prior ++ (j ∷ [])) i
          ∙ sym (map-append_one id_of prior a);
      carried = Carried-append id_of set registry prior a w u v e g.carried f s;
    }

    apply_locked-done :
        (registry : Registry W F) (done : List EndpointResult) (prior requests : List A) (w u : W)
        → Going registry done prior w u
        → let r = apply_locked id_of set registry done requests u in
          let all = prior ++ requests in
          Completed id_of set registry all w r.0 r.1 ⊎ Interrupted id_of set registry all w r.0 r.1
    unfolding apply_locked
    apply_locked-done registry done prior [] w u g = rw (append_nil prior) (
        inl (record {
          said = refl;
          same_ids = g.same;
          all_applied = g.applied;
          counted = count_applied-length done g.applied ∙ Going-length registry done prior w u g;
          carried = g.carried;
        }))
    apply_locked-done registry done prior (a ∷ more) w u g =
        let found = registry_find registry (id_of a) in
        let tried = set_found id_of set found a u in
        let entry : Bool → EndpointResult =
          λ b. record (attempt (id_of a) tried.1) { applied = b } in
        elim (set_found-cases registry a u) [
          | inl (y, (e, f, t)) ↦
              let next =
                Going-next registry done prior a w u e tried.0 (entry true) g refl refl refl f t in
              let r = apply_locked id_of set registry (done ++ (entry true ∷ [])) more tried.0 in
              rw y (
                subst
                  (λ l.
                    Completed id_of set registry l w r.0 r.1
                    ⊎ Interrupted id_of set registry l w r.0 r.1)
                  (append_one prior a more)
                  (apply_locked-done registry (done ++ (entry true ∷ [])) (prior ++ (a ∷ [])) more w
                    tried.0 next))
          | inr z ↦
              let back = undo registry found done tried.0 in
              let n = undo-ids registry found done tried.0 in
              let c =
                count_applied-length done g.applied
                ∙ sym (ids-length done)
                ∙ ap length (sym n)
                ∙ ids-length back.1 in
              rw (z.0) (
                inr (record {
                  before = prior;
                  request = a;
                  later = more;
                  good = back.1;
                  bad = entry false;
                  reached = u;
                  tried = tried.0;
                  all_requests = refl;
                  split = refl;
                  good_ids = n ∙ g.same;
                  bad_id = refl;
                  bad_applied = refl;
                  good_applied = undo-Applied registry found done tried.0 g.applied;
                  counted = c;
                  said = ap partial_or_failure c;
                  carried = g.carried;
                  refused = z;
                  undone = undo-required registry found done tried.0 g.applied g.known;
                  left = undo-optional registry found done tried.0 g.kept;
                }))
        ]

    -- With the lock taken and between 1 and 16 requests, there are two cases. Either every endpoint is
    -- told its setpoint, in the order of the requests, and answers that all is well; then the outcome
    -- is SUCCESS. Or the first endpoint that is not in the registry or answers with an error ends the
    -- call: those before it were told theirs and answered well; if the failed one is a required one of
    -- the registry each of them is then ordered to stop, in the same order, where its port can be
    -- called, and else none is; those behind it are not told anything; and the outcome is PARTIAL,
    -- or FAILURE if it was the first. Nothing else is done but that the lock is given back.
    pub apply_setpoints-reports :
        (c : Coordinator W F) (requests : List A) (w : W)
        → (c.lock.acquire w).1 ≡ true
        → 0 < length requests
        → length requests ≤ max_setpoints
        → let r = apply_setpoints id_of set c requests w in
          let w₁ = (c.lock.acquire w).0 in
          (v : W) × (r.0 ≡ c.lock.release v)
          × (Completed id_of set c.registry requests w₁ v r.1
              ⊎ Interrupted id_of set c.registry requests w₁ v r.1)
    unfolding apply_setpoints
    apply_setpoints-reports c requests w h l u =
        let w₁ = (c.lock.acquire w).0 in
        let start : Going c.registry [] [] w₁ w₁ = record {
          applied = tt;
          kept = tt;
          known = tt;
          same = refl;
          carried = refl;
        } in
        let k = apply_locked-done c.registry [] [] requests w₁ w₁ start in
        let few : (length requests == 0 || ltb max_setpoints (length requests)) ≡ false =
          ground arith in
        rw (few, h) ((apply_locked id_of set c.registry [] requests w₁).0, refl, k)
