-- ===== src/Machine/Timer/Sleep.antt =====
-- When a sleep ends.
use frod_os.Prelude.{
  ℕ, zero, suc, ◌+◌, ◌*◌, ◌^◌, ◌≤◌, ◌<◌, ◌≡◌, ap, ◌∙◌, arith, Bool-cases, inl, inr, ltb, some, List,
  [], ◌∷◌, take, drop, add32,
}
use frod_os.Machine.Timer.{
  timer_callback, ticks_pass, sleep_loop, ticks_to_wait, sleep, get_uptime_ms,
}

abbrev pub sum : List ℕ → ℕ
sum [] = 0
sum (n ∷ ns) = n + sum ns

ticks_pass_lem : (n ticks : ℕ) → ticks + n < 2 ^ 32 → ticks_pass n ticks ≡ ticks + n
unfolding ticks_pass timer_callback
ticks_pass_lem zero ticks h = omega arith
ticks_pass_lem (suc n) ticks h =
    let e : add32 ticks 1 ≡ ticks + 1 = omega arith in
    rw e (ticks_pass_lem n (ticks + 1) (omega arith) ∙ omega arith)

-- The turns of a wait for a count of `target`: the fewest with which it is reached.
abbrev pub Enough : List ℕ → ℕ → ℕ → ℕ → Type 0
Enough turns target ticks n =
    (target ≤ ticks + sum (take n turns)) × ((k : ℕ) → k < n → ticks + sum (take k turns) < target)

Enough-more :
    (t n target ticks : ℕ) (turns : List ℕ)
    → ticks < target
    → Enough turns target (ticks + t) n
    → Enough (t ∷ turns) target ticks (suc n)
Enough-more t n target ticks turns h (reached, least) = (omega arith, λ k. λ l. below k l)
  where
    below : (k : ℕ) → k < suc n → ticks + sum (take k (t ∷ turns)) < target
    below zero l = omega arith
    below (suc k) l = omega (arith, least k (omega arith))

sleep_loop_lem :
    (turns : List ℕ) (target ticks : ℕ)
    → ticks + sum turns < 2 ^ 32
    → target ≤ ticks + sum turns
    → (n : ℕ) × Enough turns target ticks n
      × (sleep_loop turns target ticks ≡ some (ticks + sum (take n turns), drop n turns))
unfolding sleep_loop
sleep_loop_lem [] target ticks h e =
    (0, (omega arith, λ k. λ l. absurd (omega arith)), ground arith)
sleep_loop_lem (t ∷ turns) target ticks h e = elim (Bool-cases (ltb ticks target)) [
  | inr done ↦ (
    0,
    (ground arith, λ k. λ l. absurd (omega arith)),
    rw done (ap (λ x. some (x, t ∷ turns)) (omega arith)),
  )
  | inl waits ↦
      let (n, enough, ends) = sleep_loop_lem turns target (ticks + t) (omega arith) (omega arith) in
      (
        suc n,
        Enough-more t n target ticks turns (ground arith) enough,
        rw (waits, ticks_pass_lem t ticks (omega arith), ends)
            (ap (λ x. some (x, drop n turns)) (omega arith)),
      )
]

-- Where the counter does not wrap and enough ticks come, a sleep ends, and after the fewest turns
-- that bring its ticks. If the uptime in ms does not wrap either, it has then grown by more than the
-- given time less 10 ms.
pub sleep_lem :
    (turns : List ℕ) (ms ticks : ℕ)
    → ticks + sum turns < 2 ^ 32
    → ticks_to_wait ms ≤ sum turns
    → (n : ℕ) × Enough turns (ticks + ticks_to_wait ms) ticks n
      × (sleep turns ms ticks ≡ some (ticks + sum (take n turns), drop n turns))
      × ((ticks + sum (take n turns)) * 10 < 2 ^ 32
          → get_uptime_ms ticks + ms < get_uptime_ms (ticks + sum (take n turns)) + 10)
unfolding sleep get_uptime_ms
sleep_lem turns ms ticks h e =
    let (n, enough, ends) = sleep_loop_lem turns (ticks + ticks_to_wait ms) ticks h (omega arith) in
    let target : add32 ticks (ticks_to_wait ms) ≡ ticks + ticks_to_wait ms = omega arith in
    (n, enough, rw target ends, λ l. (unfold ticks_to_wait in ground (arith, enough.0)))

-- With a counter and a time of 32 bits: where the target passes 2^32, a sleep ends at once.
sleep_wraps :
    (turns : List ℕ) (ms ticks : ℕ)
    → ticks < 2 ^ 32
    → ms < 2 ^ 32
    → 2 ^ 32 ≤ ticks + ticks_to_wait ms
    → sleep turns ms ticks ≡ some (ticks, turns)
unfolding sleep sleep_loop ticks_to_wait
sleep_wraps [] ms ticks h l e = ground arith
sleep_wraps (t ∷ turns) ms ticks h l e = ground arith
