-- ===== src/Apps/PingTool/Tests.antt =====
-- The ping tool on small inputs.
use alpha_smart_router.Base.{
  ℕ, ◌+◌, ◌≡◌, refl, Option, none, some, [], ◌∷◌, Text, text, text_eq, if◌then◌else◌,
}
use alpha_smart_router.Apps.PingTool.{
  ℤ, pos, negsuc, ping, starting, finished, heading, print, sleep_ms, returned, terminated, pings,
  simulate_ping, main,
}

-- A `std::stoi` that knows two numbers.
abbrev stoi : Text → Option ℤ
stoi t =
    if text_eq t (text "2")
    then some (pos 2)
    else if text_eq t (text "-1")
    then some (negsuc 0)
    else none

abbrev dist : ℕ → ℕ
dist i = i + 10

abbrev tool : Text
tool = text "ping_tool"

abbrev host : Text
host = text "10.0.0.9"

twice : main stoi dist (tool ∷ host ∷ text "2" ∷ []) ≡ (
  print starting
      ∷ print (heading host (pos 2))
      ∷ print (ping host 0 10)
      ∷ sleep_ms 500
      ∷ print (ping host 1 11)
      ∷ sleep_ms 500
      ∷ print finished
      ∷ [],
  returned 0,
)
unfolding main simulate_ping pings text_eq
twice = refl

below_zero :
    main stoi dist (tool ∷ host ∷ text "-1" ∷ [])
    ≡ (print starting ∷ print (heading host (negsuc 0)) ∷ print finished ∷ [], returned 0)
unfolding main simulate_ping pings text_eq
below_zero = refl

no_number : main stoi dist (tool ∷ host ∷ text "x" ∷ []) ≡ ([], terminated)
unfolding main simulate_ping pings text_eq
no_number = refl
