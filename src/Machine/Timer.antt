-- ===== src/Machine/Timer.antt =====
-- FrodOS/timer.c: the tick counter, the programming of the timer, and the wait on ticks.
pub mod Sleep
use frod_os.Prelude.{
  ℕ, ◌/◌, ◌%◌, ◌^◌, zero, suc, Bool, true, false, ◌&&◌, ◌==◌, ltb, if◌then◌else◌, Option, none,
  some, List, [], ◌∷◌, add32, mul32,
}

abbrev pit_frequency_hz : ℕ
pit_frequency_hz = 100

abbrev pit_base_frequency : ℕ
pit_base_frequency = 1193182

-- On `system_ticks`.
unfoldable pub timer_callback : ℕ → ℕ
timer_callback system_ticks = add32 system_ticks 1

-- The ports after the writes.
unfoldable pub timer_init : List (ℕ × ℕ) → List (ℕ × ℕ)
timer_init ports =
    let divisor = pit_base_frequency / pit_frequency_hz in
    (0x40, divisor / 2 ^ 8 % 256) ∷ (0x40, divisor % 256) ∷ (0x43, 0x36) ∷ ports

-- The interrupts of the timer that come in one turn of the loop of `sleep`.
unfoldable pub ticks_pass : ℕ → ℕ → ℕ
ticks_pass zero system_ticks = system_ticks
ticks_pass (suc n) system_ticks = ticks_pass n (timer_callback system_ticks)

-- `turns` is what the machine does: for each `hlt`, the timer interrupts until the next test, 0 if
-- it was another interrupt that ended it. `none` is a wait that outlasts them; else the counter at
-- the end and the turns that are left.
unfoldable pub sleep_loop : List ℕ → ℕ → ℕ → Option (ℕ × List ℕ)
sleep_loop [] target_ticks system_ticks =
    if ltb system_ticks target_ticks then none else some (system_ticks, [])
sleep_loop (n ∷ turns) target_ticks system_ticks =
    let rest = sleep_loop turns target_ticks (ticks_pass n system_ticks) in
    if ltb system_ticks target_ticks then rest else some (system_ticks, n ∷ turns)

unfoldable pub ticks_to_wait : ℕ → ℕ
ticks_to_wait ms = if ms / 10 == 0 && ltb 0 ms then 1 else ms / 10

unfoldable pub sleep : List ℕ → ℕ → ℕ → Option (ℕ × List ℕ)
sleep turns ms system_ticks = sleep_loop turns (add32 system_ticks (ticks_to_wait ms)) system_ticks

unfoldable pub get_uptime_ms : ℕ → ℕ
get_uptime_ms system_ticks = mul32 system_ticks 10
