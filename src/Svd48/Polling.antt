-- ===== src/Svd48/Polling.antt =====
-- When components/svd48/svd48_poll_service.c polls, and how long it sleeps.
use sistema_motriz_rs.Base.{
  ℕ, zero, suc, ◌+◌, ◌≤◌, ◌<◌, ◌≡◌, inl, inr, refl, ap, ◌∙◌, true, false, List, [], ◌∷◌, some,
  arith, ltb, if◌then◌else◌, u32, u32_max, sub_u32, All, Bool-cases,
}
use sistema_motriz_rs.Svd48.PollService.{
  DeviceResult, PollEntry, int32_max, time_reached, failure_backoff_ms, after_poll, poll_delay,
  failures_after, is_waiting, shortest_delay, poll_entry, backoff_max_ms,
}

failure_backoff_bounded : (failures : ℕ) → failure_backoff_ms failures ≤ backoff_max_ms
unfolding failure_backoff_ms
failure_backoff_bounded zero = omega arith
failure_backoff_bounded (suc n) = ground arith

poll_delay_bounded :
    (e : PollEntry) (result : DeviceResult)
    → e.period_ms < int32_max
    → (e.period_ms ≤ poll_delay e result) × (poll_delay e result < int32_max)
unfolding poll_delay
poll_delay_bounded e result p = ground (arith, failure_backoff_bounded (failures_after e))

later_deadline :
    (at elapsed delay : ℕ)
    → at ≤ u32_max
    → elapsed < delay
    → delay < int32_max
    → time_reached (u32 (at + elapsed)) (u32 (at + delay)) ≡ false
unfolding time_reached
later_deadline at elapsed delay w h d = ground arith

after_poll-is_waiting :
    (e : PollEntry) (result : DeviceResult) (completed_at elapsed : ℕ)
    → e.period_ms < int32_max
    → completed_at ≤ u32_max
    → elapsed < e.period_ms
    → is_waiting (after_poll e result completed_at) (u32 (completed_at + elapsed)) ≡ true
unfolding is_waiting after_poll
after_poll-is_waiting e result completed_at elapsed p w h =
    let b = poll_delay_bounded e result p in
    rw (later_deadline completed_at elapsed (poll_delay e result) w (omega (arith, b.0)) b.1) refl

module _ {W : Type 0} (clock_ms : W → ℕ × W) (device_poll : ℕ → W → DeviceResult × W) where
  -- The world when the poll of an entry is over.
  abbrev pub polled_world : PollEntry → W → W
  polled_world e w = (device_poll e.device (clock_ms w).1).1

  polled_entry :
      (e : PollEntry) (w : W)
      → (poll_entry clock_ms device_poll e w).1 ≡ true
      → (poll_entry clock_ms device_poll e w).0
        ≡ after_poll e (device_poll e.device (clock_ms w).1).0 (clock_ms (polled_world e w)).0
  unfolding poll_entry
  polled_entry e w h = elim (Bool-cases (is_waiting e (clock_ms w).0)) [
    | inl t ↦ absurd (ground (arith, t, h))
    | inr f ↦ rw f refl
  ]

  waiting_entry :
      (e : PollEntry) (w : W)
      → is_waiting e (clock_ms w).0 ≡ true
      → poll_entry clock_ms device_poll e w ≡ (e, false, (clock_ms w).1)
  unfolding poll_entry
  waiting_entry e w h = rw h refl

  -- A device that was polled, with whatever result, is not polled again before its period has
  -- passed: at a time less than a period after the end of that poll the loop only reads the clock,
  -- also where the clock of 32 bits has wrapped between.
  pub poll_entry_spaced :
      (e : PollEntry) (w later : W) (elapsed : ℕ)
      → e.period_ms < int32_max
      → (clock_ms (polled_world e w)).0 ≤ u32_max
      → (poll_entry clock_ms device_poll e w).1 ≡ true
      → (clock_ms later).0 ≡ u32 ((clock_ms (polled_world e w)).0 + elapsed)
      → elapsed < e.period_ms
      → let e' = (poll_entry clock_ms device_poll e w).0 in
        poll_entry clock_ms device_poll e' later ≡ (e', false, (clock_ms later).1)
  poll_entry_spaced e w later elapsed p c h t d =
      let e' = (poll_entry clock_ms device_poll e w).0 in
      waiting_entry e' later (
        ap (λ now. is_waiting e' now) t
        ∙ ap (λ x. is_waiting x (u32 ((clock_ms (polled_world e w)).0 + elapsed)))
            (polled_entry e w h)
        ∙ after_poll-is_waiting e (device_poll e.device (clock_ms w).1).0
            (clock_ms (polled_world e w)).0 elapsed p c d)

-- Nobody oversleeps: if the service finds no entry due and sleeps for the shortest delay, no deadline
-- has passed before that delay is over, and it is at most what was asked for.
pub shortest_delay_bounded :
    (es : List PollEntry) (now maximum delay : ℕ)
    → shortest_delay es now maximum ≡ some delay
    → (delay ≤ maximum)
      × All (λ e. (is_waiting e now ≡ true) × (delay ≤ sub_u32 e.next_poll_ms now)) es
unfolding shortest_delay
shortest_delay_bounded [] now maximum delay h = ground (arith, h)
shortest_delay_bounded (e ∷ es) now maximum delay h = elim (Bool-cases (is_waiting e now)) [
  | inl w ↦
      let candidate = sub_u32 e.next_poll_ms now in
      let r =
        shortest_delay_bounded es now (if ltb candidate maximum then candidate else maximum) delay
          (ground (arith, w, h)) in
      ground (arith, w, r)
  | inr d ↦ absurd (ground (arith, d, h))
]
