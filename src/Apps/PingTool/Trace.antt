-- ===== src/Apps/PingTool/Trace.antt =====
-- What the ping tool prints.
use alpha_smart_router.Base.{
  ℕ, zero, suc, ◌+◌, ◌*◌, ◌≡◌, refl, ◌∙◌, ap, some, none, List, [], ◌∷◌, ◌++◌, arith, Text, Option,
}
use alpha_smart_router.Apps.PingTool.{
  ℤ, pos, negsuc, Line, ping, starting, finished, heading, Event, print, sleep_ms, Exit, returned,
  terminated, pings, simulate_ping, target_of, count_of, main,
}

-- How often the loop runs.
abbrev pub times : ℤ → ℕ
times (pos n) = n
times (negsuc n) = 0

abbrev pub slept : List Event → ℕ
slept [] = 0
slept (sleep_ms t ∷ es) = t + slept es
slept (e ∷ es) = slept es

abbrev pub lines : List Event → List Line
lines [] = []
lines (print l ∷ es) = l ∷ lines es
lines (e ∷ es) = lines es

lines-append : (es fs : List Event) → lines (es ++ fs) ≡ lines es ++ lines fs
lines-append [] fs = refl
lines-append (print l ∷ es) fs = ap (λ m. l ∷ m) (lines-append es fs)
lines-append (sleep_ms t ∷ es) fs = lines-append es fs

slept-append : (es fs : List Event) → slept (es ++ fs) ≡ slept es + slept fs
slept-append [] fs = omega arith
slept-append (print l ∷ es) fs = slept-append es fs
slept-append (sleep_ms t ∷ es) fs = omega (arith, slept-append es fs)

module _ (dist : ℕ → ℕ) (target : Text) where
  -- The lines of as many pings, from one number on.
  abbrev pub numbered : (i n : ℕ) → List Line
  numbered i zero = []
  numbered i (suc n) = ping target i (dist i) ∷ numbered (i + 1) n

  pings_lem :
      (i n : ℕ)
      → (lines (pings dist target i n) ≡ numbered i n) × (slept (pings dist target i n) ≡ 500 * n)
  unfolding pings
  pings_lem i zero = (refl, omega arith)
  pings_lem i (suc n) =
      let (same, total) = pings_lem (i + 1) n in
      (ap (λ l. ping target i (dist i) ∷ l) same, omega (arith, total))

  simulate_ping_lem :
      (count : ℤ)
      → (lines (simulate_ping dist target count) ≡ numbered 0 (times count))
        × (slept (simulate_ping dist target count) ≡ 500 * times count)
  unfolding simulate_ping
  simulate_ping_lem (pos n) = pings_lem 0 n
  simulate_ping_lem (negsuc n) = (refl, omega arith)

module _ (stoi : Text → Option ℤ) (dist : ℕ → ℕ) (argv : List Text) where
  -- What the program does, by what becomes of its count.
  abbrev pub Does : Option ℤ → List Event × Exit → Type 0
  Does none (events, exit) = (events ≡ []) × (exit ≡ terminated)
  Does (some count) (events, exit) =
      (lines events
        ≡ (starting
            ∷ heading (target_of argv) count
            ∷ numbered dist (target_of argv) 0 (times count))
          ++ (finished ∷ []))
      × (slept events ≡ 500 * times count)
      × (exit ≡ returned 0)

  by_count : (out : Option ℤ) → count_of stoi argv ≡ out → Does out (main stoi dist argv)
  unfolding main
  by_count none e = rw (e, main) (refl, refl)
  by_count (some count) e =
      let target = target_of argv in
      let (same, total) = simulate_ping_lem dist target count in
      let shown =
        lines-append (simulate_ping dist target count) (print finished ∷ [])
        ∙ ap (λ l. l ++ (finished ∷ [])) same in
      let time = slept-append (simulate_ping dist target count) (print finished ∷ []) in
      rw (e, main)
        (ap (λ l. starting ∷ heading target count ∷ l) shown, omega (arith, time, total), refl)

  -- If the count is a number: the program prints the two lines of its head, one line for each
  -- ping, numbered from 0 with the number drawn for it, none for a negative count, and its last
  -- line; it sleeps half a second for each ping; and it returns 0. Else an exception ends it before
  -- it prints anything.
  pub main_lem : Does (count_of stoi argv) (main stoi dist argv)
  main_lem = by_count (count_of stoi argv) refl
