-- ===== src/Poh/Running.antt =====
-- The thread of `PohService` does not panic.
use tiny_solana.Common.{
  ℕ, ◌+◌, ◌%◌, ◌<◌, ◌≤◌, ◌≡◌, refl, ap, ◌∙◌, inl, inr, some, none, List, [], ◌∷◌, ◌++◌, ◌⊎◌, ◌==◌,
  length, arith, Bool-cases, if◌then◌else◌,
}
use tiny_solana.Common.Result.{ok, ◌>>=◌}
use tiny_solana.Common.Word.{u64_mod, wrapping_add, saturating_sub}
use tiny_solana.Types.{Digest}
use tiny_solana.Poh.{
  PohRecorder, Received, batch, empty, disconnected, hashes_per_batch, hash, tick, tick_if_due,
  should_tick, next_slot, recorded, service_round,
}
use tiny_solana.Poh.Hashing.{hash-SameHeights}
use tiny_solana.Poh.Heights.{
  IsTimed, hash-IsTimed, tick-IsTimed, record_hash-IsTimed, SameHeights-IsTimed,
}
use tiny_solana.Poh.Service.{Round, PohService, stop, pauses_of, step, run}

module _ (sha256 : Digest) where
  -- The heights of a round's recorder, after the one before.
  abbrev Follows : PohRecorder → PohRecorder → Type 0
  Follows r s =
      IsTimed s × (s.ticks_per_slot ≡ r.ticks_per_slot) × (s.tick_count ≤ r.tick_count + 1)

  tick_count-tick :
      (r s : PohRecorder)
      → tick sha256 r ≡ ok s
      → (s.ticks_per_slot ≡ r.ticks_per_slot) × (s.tick_count ≤ r.tick_count + 1)
  unfolding tick
  tick_count-tick r s e =
      let h = hash sha256 (saturating_sub r.hashes_per_tick r.hashes_since_last_tick) r in
      let (slots, _, _, count, _) =
        hash-SameHeights sha256 (saturating_sub r.hashes_per_tick r.hashes_since_last_tick) r in
      let ticked : PohRecorder = record h {
        hashes_since_last_tick = 0;
        tick_count = wrapping_add h.tick_count 1;
      } in
      elim (Bool-cases (h.ticks_per_slot == 0)) [
        | inl none_ ↦ absurd (ground arith)
        | inr pos ↦ elim (Bool-cases (wrapping_add h.tick_count 1 % h.ticks_per_slot == 0)) [
          | inl full ↦
              let made : tick sha256 r ≡ ok (next_slot ticked) = rw (tick, pos, full) refl in
              let same : s ≡ next_slot ticked = cc in rw same (slots, omega (arith, count))
          | inr within ↦
              let made : tick sha256 r ≡ ok ticked = rw (tick, pos, within) refl in
              let same : s ≡ ticked = cc in rw same (slots, omega (arith, count))
        ]
      ]

  tick_if_due-Follows :
      (r : PohRecorder)
      → IsTimed r
      → r.tick_count + r.ticks_per_slot + 1 < u64_mod
      → (s : PohRecorder) × (tick_if_due sha256 r ≡ ok s) × Follows r s
  tick_if_due-Follows r t room = elim (Bool-cases (should_tick r)) [
    | inl due ↦
        let (s, ticked, t') = tick-IsTimed sha256 r t room in
        let (slots, count) = tick_count-tick r s ticked in (s, rw due ticked, (t', slots, count))
    | inr early ↦ (r, rw early refl, (t, refl, omega arith))
  ]

  round-Follows :
      (received : Received) (r : PohRecorder)
      → IsTimed r
      → r.tick_count + r.ticks_per_slot + 1 < u64_mod
      → (service_round sha256 received r ≡ none)
        ⊎ ((s : PohRecorder) × (service_round sha256 received r ≡ some (ok s)) × Follows r s)
  unfolding service_round
  round-Follows (batch h) r t room = inr (
    recorded sha256 h r,
    ap (λ p. some (ok p.1)) (record_hash-IsTimed sha256 h r t),
    (
      SameHeights-IsTimed sha256 (recorded sha256 h r) r (refl, refl, refl, refl, refl) t,
      refl,
      omega arith,
    ),
  )
  round-Follows empty r t room =
      let h = hash sha256 hashes_per_batch r in
      let (slots, _, _, count, _) = hash-SameHeights sha256 hashes_per_batch r in
      let (s, done, (t', slots', count')) =
        tick_if_due-Follows h (hash-IsTimed sha256 hashes_per_batch r t) (rw (slots, count) room) in
      inr (s, ap some done, (t', slots' ∙ slots, omega (arith, count, count')))
  round-Follows disconnected r t room = inl refl

  module _ (ideal : ℕ) where
    step-Follows :
        (round : Round) (s : PohService)
        → IsTimed s.recorder
        → s.recorder.tick_count + s.recorder.ticks_per_slot + 1 < u64_mod
        → (u : PohService) × (step sha256 ideal round s ≡ ok u) × Follows s.recorder u.recorder
    unfolding step
    step-Follows round s t room = elim (Bool-cases round.exit) [
      | inl e ↦ (stop s, rw (step, e) refl, (t, refl, omega arith))
      | inr e ↦ elim (round-Follows round.received s.recorder t room) [
        | inl ended ↦ (stop s, rw (step, e, ended) refl, (t, refl, omega arith))
        | inr (r, done, follows) ↦ (
          record s { recorder = r; pauses = s.pauses ++ pauses_of ideal round round.received },
          rw (step, e, done) refl,
          follows,
        )
      ]
    ]

    -- The service, started with at least one tick in a slot and with the slot and the heights of its
    -- recorder in order, never panics, whatever its rounds find: records, empty rounds, a closed channel
    -- or a request to exit; and the slot and the heights are in order afterwards. The tick count, one
    -- slot and the number of rounds together stay below 2 ^ 64. (Without a tick in a slot, a tick
    -- panics.)
    pub run_total :
        (rounds : List Round) (s : PohService)
        → IsTimed s.recorder
        → s.recorder.tick_count + s.recorder.ticks_per_slot + length rounds < u64_mod
        → (u : PohService) × (run sha256 ideal rounds s ≡ ok u) × IsTimed u.recorder
    unfolding run
    run_total [] s t room = (s, refl, t)
    run_total (round ∷ rounds) s t room = elim (Bool-cases s.is_running) [
      | inr over ↦ (
        s,
        ap (λ b. if b then step sha256 ideal round s >>= run sha256 ideal rounds else ok s) over,
        t,
      )
      | inl running ↦
          let (u, stepped, (t', slots, count)) = step-Follows round s t (omega (arith, room)) in
          let (v, done, t'') = run_total rounds u t' (omega (arith, slots, count, room)) in
          (
            v,
            ap (λ b. if b then step sha256 ideal round s >>= run sha256 ideal rounds else ok s)
                  running
                ∙ ap (λ x. x >>= run sha256 ideal rounds) stepped
                ∙ done,
            t'',
          )
    ]
