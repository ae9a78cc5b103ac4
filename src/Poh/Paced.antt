-- ===== src/Poh/Paced.antt =====
-- What the thread of `PohService` does to the recorder.
use tiny_solana.Common.{
  ℕ, ◌+◌, ◌*◌, ◌-◌, ◌%◌, ◌<◌, ◌≤◌, ◌≡◌, ◌≢◌, refl, ap, ◌∙◌, inl, inr, true, false, some, List, [],
  ◌∷◌, ◌++◌, ◌==◌, length, arith, if◌then◌else◌, Bool-cases, All,
}
use tiny_solana.Common.Result.{ok, ◌>>=◌}
use tiny_solana.Common.Word.{u64_mod, wrapping_add}
use tiny_solana.Types.{Digest}
use tiny_solana.Poh.{
  PohRecorder, empty, hashes_per_batch, hash, tick, tick_if_due, next_slot, should_tick,
  service_round,
}
use tiny_solana.Poh.Hashing.{hash-SameHeights, num_hashes-hash, hashes_since_last_tick-hash}
use tiny_solana.Poh.Service.{Round, PohService, stop, after_round, pauses_of, step, run}

module _ (sha256 : Digest) where
  -- A tick that is due ends the tick without hashing.
  tick_due :
      (r : PohRecorder)
      → r.hashes_per_tick ≤ r.hashes_since_last_tick
      → r.ticks_per_slot ≢ 0
      → r.tick_count + 1 < u64_mod
      → (s : PohRecorder) × (tick sha256 r ≡ ok s)
        × (s.tick_count ≡ r.tick_count + 1)
        × (s.num_hashes ≡ r.num_hashes)
        × (s.hashes_since_last_tick ≡ 0)
        × (s.hashes_per_tick ≡ r.hashes_per_tick)
        × (s.ticks_per_slot ≡ r.ticks_per_slot)
  unfolding tick hash
  tick_due r due slots room =
      let none_left : r.hashes_per_tick - r.hashes_since_last_tick ≡ 0 = omega arith in
      let pos : (r.ticks_per_slot == 0) ≡ false = ground arith in
      let ticked : PohRecorder = record r {
        hashes_since_last_tick = 0;
        tick_count = wrapping_add r.tick_count 1;
      } in
      elim (Bool-cases (wrapping_add r.tick_count 1 % r.ticks_per_slot == 0)) [
        | inl full ↦ (
          next_slot ticked,
          rw (tick, none_left, pos, full) refl,
          omega arith,
          refl,
          refl,
          refl,
          refl,
        )
        | inr within ↦
            (ticked, rw (tick, none_left, pos, within) refl, omega arith, refl, refl, refl, refl)
      ]

  tick_if_due-due :
      (r s : PohRecorder)
      → should_tick r ≡ true
      → tick sha256 r ≡ ok s
      → tick_if_due sha256 r ≡ ok s
  tick_if_due-due r s due ticked = rw due ticked

  -- A recorder whose service has not fallen behind: it has just ticked.
  abbrev pub HasTicked : PohRecorder → Type 0
  HasTicked r =
      (r.hashes_since_last_tick ≡ 0)
      × (r.hashes_per_tick ≤ hashes_per_batch)
      × (r.ticks_per_slot ≢ 0)

  -- A round without a record, and its tick.
  idle_round :
      (r : PohRecorder)
      → HasTicked r
      → r.tick_count + 1 < u64_mod
      → r.num_hashes + hashes_per_batch < u64_mod
      → (s : PohRecorder) × (service_round sha256 empty r ≡ some (ok s))
        × HasTicked s
        × (s.tick_count ≡ r.tick_count + 1)
        × (s.num_hashes ≡ r.num_hashes + hashes_per_batch)
  unfolding service_round
  idle_round r h ticks hashes =
      let hashed = hash sha256 hashes_per_batch r in
      let (slots, per_tick, _, count, _) = hash-SameHeights sha256 hashes_per_batch r in
      let since : hashed.hashes_since_last_tick ≡ hashes_per_batch =
        hashes_since_last_tick-hash sha256 hashes_per_batch r (omega (arith, h.0))
        ∙ omega (arith, h.0) in
      let due : hashed.hashes_per_tick ≤ hashed.hashes_since_last_tick =
        omega (arith, since, per_tick, h.1) in
      let (s, ticked, count', hashes', since', per_tick', slots') =
        tick_due hashed due (rw slots h.2) (rw count ticks) in
      let is_due : should_tick hashed ≡ true = ground arith in
      (
        s,
        ap some (tick_if_due-due hashed s is_due ticked),
        (since', omega (arith, per_tick', per_tick, h.1), rw (slots', slots) h.2),
        omega (arith, count', count),
        hashes' ∙ num_hashes-hash sha256 hashes_per_batch r hashes,
      )

  -- The rounds find the channel empty, and no request to exit.
  abbrev pub AreIdle : List Round → Type 0
  AreIdle rounds = All (λ round. (round.exit ≡ false) × (round.received ≡ empty)) rounds

  -- What the theorem says of the recorder after so many rounds.
  abbrev pub TicksEach : ℕ → PohRecorder → PohRecorder → Type 0
  TicksEach n r s =
      (s.tick_count ≡ r.tick_count + n) × (s.num_hashes ≡ r.num_hashes + n * hashes_per_batch)

  module _ (ideal : ℕ) where
    idle_step :
        (round : Round) (s : PohService)
        → round.exit ≡ false
        → round.received ≡ empty
        → HasTicked s.recorder
        → s.is_running ≡ true
        → s.recorder.tick_count + 1 < u64_mod
        → s.recorder.num_hashes + hashes_per_batch < u64_mod
        → (t : PohService) × (step sha256 ideal round s ≡ ok t)
          × HasTicked t.recorder
          × (t.is_running ≡ true)
          × TicksEach 1 s.recorder t.recorder
    unfolding step
    idle_step round s stay found h running ticks hashes =
        let (r, done, h', count, num) = idle_round s.recorder h ticks hashes in
        (
          record s { recorder = r; pauses = s.pauses ++ pauses_of ideal round round.received },
          ap
                (λ b.
                  if b
                  then ok (stop s)
                  else after_round sha256 ideal round s
                      (service_round sha256 round.received s.recorder))
                stay
              ∙ ap (after_round sha256 ideal round s)
                  (ap (λ x. service_round sha256 x s.recorder) found ∙ done),
          h',
          running,
          (count, omega (arith, num)),
        )

    -- While the service finds its channel empty and no request to exit, and a tick asks for no more
    -- hashes than a batch has, every round makes one tick, and every tick takes a batch of 128
    -- hashes, however few hashes a tick asks for. The recorder has just ticked, it has ticks to a
    -- slot, and its counters stay below 2 ^ 64.
    pub run_idle :
        (rounds : List Round) (s : PohService)
        → AreIdle rounds
        → s.is_running ≡ true
        → HasTicked s.recorder
        → s.recorder.tick_count + length rounds < u64_mod
        → s.recorder.num_hashes + length rounds * hashes_per_batch < u64_mod
        → (t : PohService) × (run sha256 ideal rounds s ≡ ok t)
          × (t.is_running ≡ true)
          × TicksEach (length rounds) s.recorder t.recorder
    unfolding run
    run_idle [] s idle running h ticks hashes = (s, refl, running, (omega arith, omega arith))
    run_idle (round ∷ rounds) s idle running h ticks hashes =
        let (t, stepped, h', running', (count, num)) =
          idle_step round s idle.0.0 idle.0.1 h running (omega (arith, ticks))
            (omega (arith, hashes)) in
        let (u, done, running'', (count', num')) =
          run_idle rounds t idle.1 running' h' (omega (arith, count, ticks))
            (omega (arith, num, hashes)) in
        (
          u,
          ap (λ b. if b then step sha256 ideal round s >>= run sha256 ideal rounds else ok s)
                running
              ∙ ap (λ x. x >>= run sha256 ideal rounds) stepped
              ∙ done,
          running'',
          (omega (arith, count, count'), omega (arith, num, num')),
        )
