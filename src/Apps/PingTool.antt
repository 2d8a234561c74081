-- ===== src/Apps/PingTool.antt =====
-- The helper apps/ping_tool/src/main.cpp. What it does is the list of what it prints and of its
-- sleeps. `std::stoi` and the random numbers are parameters.
pub mod Trace
mod Tests
use alpha_smart_router.Base.{
  ℕ, zero, suc, ◌+◌, Option, none, some, List, [], ◌∷◌, ◌++◌, get_elem?, Text, text,
}

-- `int`
pub data ℤ : Type 0 where
  pos : ℕ → ℤ
  negsuc : ℕ → ℤ

-- The lines, with what is put into them.
pub data Line : Type 0 where
  starting finished : Line
  heading : (target : Text) (count : ℤ) → Line
  ping : (target : Text) (seq rtt : ℕ) → Line

pub data Event : Type 0 where
  print : Line → Event
  sleep_ms : ℕ → Event

-- What is left of a program: that it returns a code, or that an exception ends it.
pub data Exit : Type 0 where
  returned : ℕ → Exit
  terminated : Exit

-- The iterations of the loop from `i` on, of which `n` are left; `dist i` is the i-th number drawn.
unfoldable pub pings : (dist : ℕ → ℕ) (target : Text) (i n : ℕ) → List Event
pings dist target i zero = []
pings dist target i (suc n) =
    print (ping target i (dist i)) ∷ sleep_ms 500 ∷ pings dist target (i + 1) n

unfoldable pub simulate_ping : (dist : ℕ → ℕ) (target : Text) → ℤ → List Event
unfolding pings
simulate_ping dist target (pos n) = pings dist target 0 n
simulate_ping dist target (negsuc n) = []

-- `(argc > 1) ? argv[1] : "10.0.0.1"`
abbrev pub target_of : (argv : List Text) → Text
target_of argv = elim (get_elem? argv 1) [ none ↦ text "10.0.0.1" | some t ↦ t ]

-- `(argc > 2) ? std::stoi(argv[2]) : 5`; none for an exception.
abbrev pub count_of : (stoi : Text → Option ℤ) (argv : List Text) → Option ℤ
count_of stoi argv = elim (get_elem? argv 2) [ none ↦ some (pos 5) | some t ↦ stoi t ]

unfoldable pub main : (stoi : Text → Option ℤ) (dist : ℕ → ℕ) (argv : List Text) → List Event × Exit
unfolding simulate_ping
main stoi dist argv =
    let target = target_of argv in
    elim (count_of stoi argv) [
      | none ↦ ([], terminated)
      | some count ↦ (
        (print starting ∷ print (heading target count) ∷ simulate_ping dist target count)
            ++ print finished ∷ [],
        returned 0,
      )
    ]
