-- ===== src/Firmware/Heartbeat/Timing.antt =====
-- How often the tests of Heartbeat.c answer true, for the polling of the main loop.
use power_monitor.Prelude.{
  ℕ, zero, suc, ◌+◌, ◌-◌, ◌%◌, ◌≤◌, ◌<◌, ◌≡◌, ◌↔◌, refl, Bool, true, false, arith, leb, inl, inr,
  Bool-cases,
}
use power_monitor.Firmware.Heartbeat.{Heartbeat, tick, run, is_10ms, is_1s}

-- `n` interrupts in a row, while the main loop is busy elsewhere.
pub ticks : ℕ → Heartbeat → Heartbeat
ticks zero h = h
ticks (suc n) h = ticks n (tick h)

-- `n` milliseconds taken over in a row.
pub runs : ℕ → Heartbeat → Heartbeat
runs zero h = h
runs (suc n) h = runs n (run h).1

-- What `n` ticks leave.
pub ticks_lem :
    (n : ℕ) (h : Heartbeat)
    → h.ms_counter < 256
    → ((ticks n h).ms_counter ≡ (h.ms_counter + n) % 256)
      × ((ticks n h).count_10ms ≡ h.count_10ms)
      × ((ticks n h).count_1s ≡ h.count_1s)
unfolding ticks tick
ticks_lem zero h lt = (omega arith, refl, refl)
ticks_lem (suc n) h lt =
    let (ms, c10, c1) = ticks_lem n (tick h) (omega arith) in (omega (arith, ms), c10, c1)

-- What `n` runs leave where at least `n` milliseconds are pending and no counter wraps.
pub runs_lem :
    (n : ℕ) (h : Heartbeat)
    → n ≤ h.ms_counter
    → h.count_10ms + n < 256
    → h.count_1s + n < 65536
    → ((runs n h).ms_counter ≡ h.ms_counter - n)
      × ((runs n h).count_10ms ≡ h.count_10ms + n)
      × ((runs n h).count_1s ≡ h.count_1s + n)
unfolding runs run
runs_lem zero h le c10 c1 = (omega arith, omega arith, omega arith)
runs_lem (suc n) h le c10 c1 = ground (arith, runs_lem n (run h).1)

-- With no tick pending, `n` ticks and then `n` calls of `Hearbeat_Run` leave none pending and add
-- `n` to the 10 ms and the 1 s counter, where `n` is below 256 and neither counter overflows.
pub runs-ticks :
    (n : ℕ) (h : Heartbeat)
    → h.ms_counter ≡ 0
    → n < 256
    → h.count_10ms + n < 256
    → h.count_1s + n < 65536
    → let h' = runs n (ticks n h) in
      (h'.ms_counter ≡ 0) × (h'.count_10ms ≡ h.count_10ms + n) × (h'.count_1s ≡ h.count_1s + n)
runs-ticks n h idle lt c10 c1 =
    let (ms, t10, t1) = ticks_lem n h (omega arith) in
    let (rms, r10, r1) =
      runs_lem n (ticks n h) (omega (arith, ms)) (omega (arith, t10)) (omega (arith, t1)) in
    (omega (arith, rms, ms), omega (arith, r10, t10), omega (arith, r1, t1))

-- With no tick pending, 256 ticks without a call of `Hearbeat_Run` leave nothing for it to take
-- over.
pub ticks_wrap : (h : Heartbeat) → h.ms_counter ≡ 0 → (run (ticks 256 h)).0 ≡ false
unfolding run
ticks_wrap h idle = let (ms, t10, t1) = ticks_lem 256 h (omega arith) in ground (arith, ms)

-- One round of the main loop at a steady pace: one tick, `Hearbeat_Run`, and both tests.
pub round : Heartbeat → Bool × Bool × Heartbeat
round h =
    let (_, h₁) = run (tick h) in
    let (ten, h₂) = is_10ms h₁ in let (second, h₃) = is_1s h₂ in (ten, second, h₃)

pub rounds : ℕ → Heartbeat → Heartbeat
rounds zero h = h
rounds (suc n) h = rounds n (round h).2

-- Where the counters stand after `n` rounds.
abbrev pub At : ℕ → Heartbeat → Type 0
At n h = (h.ms_counter ≡ 0) × (h.count_10ms ≡ n % 10) × (h.count_1s ≡ n % 1000)

round_step :
    (n : ℕ) (h : Heartbeat)
    → At n h
    → At (n + 1) (round h).2
      × ((round h).0 ≡ leb 10 (n % 10 + 1))
      × ((round h).1 ≡ leb 1000 (n % 1000 + 1))
unfolding round run tick is_10ms is_1s
round_step n h c = ground arith

rounds-At : (n k : ℕ) (h : Heartbeat) → At k h → At (k + n) (rounds n h)
unfolding rounds
rounds-At zero k h c = omega arith
rounds-At (suc n) k h c =
    let r = rounds-At n (k + 1) (round h).2 (round_step k h c).0 in omega arith

-- From counters that stand at a common start, with one tick for each round of the main loop, the
-- round after `n` rounds answers true to the 10 ms test exactly if `n + 1` is a multiple of 10, and
-- to the 1 s test exactly if it is a multiple of 1000.
pub round_exact :
    (n : ℕ) (h : Heartbeat)
    → At 0 h
    → (((round (rounds n h)).0 ≡ true) ↔ ((n + 1) % 10 ≡ 0))
      × (((round (rounds n h)).1 ≡ true) ↔ ((n + 1) % 1000 ≡ 0))
round_exact n h c =
    let (_, ten, second) = round_step (0 + n) (rounds n h) (rounds-At n 0 h c) in
    rw (ten, second) (ground arith)

-- What a round leaves in the counters that it tests.
pub round_bounds :
    (h : Heartbeat)
    → h.count_10ms < 10
    → h.count_1s < 1000
    → let h' = (is_1s (is_10ms (run h).1).1).1 in (h'.count_10ms < 10) × (h'.count_1s < 1000)
unfolding run is_10ms is_1s
round_bounds h ten second = ground arith

pub tick_counts :
    (h : Heartbeat) → ((tick h).count_10ms ≡ h.count_10ms) × ((tick h).count_1s ≡ h.count_1s)
unfolding tick
tick_counts h = (refl, refl)

pub run_counts :
    (h : Heartbeat)
    → ((run h).1.count_10ms ≤ h.count_10ms + 1) × ((run h).1.count_1s ≤ h.count_1s + 1)
unfolding run
run_counts h = ground arith

pub is_10ms_counts :
    (h : Heartbeat)
    → h.count_10ms ≤ 10
    → ((is_10ms h).1.count_10ms < 10) × ((is_10ms h).1.count_1s ≡ h.count_1s)
unfolding is_10ms
is_10ms_counts h le = ground arith

pub is_1s_counts :
    (h : Heartbeat)
    → h.count_1s ≤ 1000
    → ((is_1s h).1.count_1s < 1000) × ((is_1s h).1.count_10ms ≡ h.count_10ms)
unfolding is_1s
is_1s_counts h le = ground arith

-- A tick does not change what the tests see.
pub is_10ms-tick : (h : Heartbeat) → is_10ms (tick h) ≡ ((is_10ms h).0, tick (is_10ms h).1)
unfolding is_10ms tick
is_10ms-tick h = elim (Bool-cases (leb 10 h.count_10ms)) [ inl e ↦ rw e refl | inr e ↦ rw e refl ]

pub is_1s-tick : (h : Heartbeat) → is_1s (tick h) ≡ ((is_1s h).0, tick (is_1s h).1)
unfolding is_1s tick
is_1s-tick h = elim (Bool-cases (leb 1000 h.count_1s)) [ inl e ↦ rw e refl | inr e ↦ rw e refl ]
