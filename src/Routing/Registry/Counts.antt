-- ===== src/Routing/Registry/Counts.antt =====
-- What a sequence of calls counts, and what it leaves of the maps that readers hold.
use alpha_smart_router.Base.{
  ℕ, ◌+◌, ◌%◌, ◌^◌, ◌<◌, ◌≡◌, ◌≢◌, refl, ◌∙◌, sym, ap, Bool, List, [], ◌∷◌, ◌++◌, if◌then◌else◌,
  length, arith,
}
use alpha_smart_router.Routing.Validation.{InetPton}
use alpha_smart_router.Routing.Registry.{
  RegistryErr, ok, exists, not_found, invalid, capacity, Mode, add, replace, upsert,
  ServiceRegistry, create, deref, clear, add_service, replace_service, upsert_service, Map,
}
use alpha_smart_router.Routing.Registry.State.{deref-kept}
use mathlib.Core.List.{append-nil, append_assoc}
use alpha_smart_router.Routing.Registry.Snapshots.{
  count_success, Effect, rejected, refused, stored, mutate-Effect, Removal, remove_service-Removal,
  kept, copied, erased,
}
use alpha_smart_router.Routing.Registry.Calls.{
  Call, adding, replacing, upserting, removing, clearing, answer, run, Reply, code, done,
}
use alpha_smart_router.Routing.Registry.Calls

-- 1 for a reply of a call that published a map
abbrev pub publications : Reply → ℕ
publications (code ok) = 1
publications (code e) = 0
publications (Calls.erased b) = if b then 1 else 0
publications done = 1

-- 1 for a reply with an error
abbrev pub errors : Reply → ℕ
errors (code ok) = 0
errors (code e) = 1
errors (Calls.erased b) = 0
errors done = 0

abbrev pub total : (Reply → ℕ) → List Reply → ℕ
total count [] = 0
total count (x ∷ xs) = count x + total count xs

-- The counters fit their type.
record Fits (r : ServiceRegistry) : Type 0 where
  version : r.version < 2 ^ 64
  failures : r.stats.failures < 2 ^ 64

-- How a call goes from one registry to another: what it adds to the counters, and that the heap
-- grows at its end.
record Counted (r : ServiceRegistry) (x : Reply × ServiceRegistry) : Type 0 where
  version : x.1.version ≡ (r.version + publications x.0) % 2 ^ 64
  failures : x.1.stats.failures ≡ (r.stats.failures + errors x.0) % 2 ^ 64
  more : List Map
  heap : x.1.heap ≡ r.heap ++ more

errors_bad : (e : RegistryErr) → e ≢ ok → (publications (code e) ≡ 0) × (errors (code e) ≡ 1)
errors_bad ok bad = absurd (bad refl)
errors_bad exists bad = (refl, refl)
errors_bad not_found bad = (refl, refl)
errors_bad invalid bad = (refl, refl)
errors_bad capacity bad = (refl, refl)

Effect-Counted :
    (mode : Mode) (r : ServiceRegistry) (x : RegistryErr × ServiceRegistry)
    → Fits r
    → Effect mode r x
    → Counted r (code x.0, x.1)
Effect-Counted mode r _ fits (rejected e bad) =
    let (none_published, one_error) = errors_bad e bad in
    record {
      version = omega (arith, fits.version, none_published);
      failures = omega (arith, one_error);
      more = [];
      heap = sym (append-nil _);
    }
Effect-Counted mode r _ fits (refused e m bad) =
    let (none_published, one_error) = errors_bad e bad in
    record {
      version = omega (arith, fits.version, none_published);
      failures = omega (arith, one_error);
      more = m ∷ [];
      heap = refl;
    }
Effect-Counted mode r _ fits (stored m) = record {
  version = refl;
  failures = failures_kept mode;
  more = m ∷ [];
  heap = refl;
}
  where
    failures_kept :
        (mode : Mode) → (count_success mode r.stats).failures ≡ (r.stats.failures + 0) % 2 ^ 64
    failures_kept add = omega (arith, fits.failures)
    failures_kept replace = omega (arith, fits.failures)
    failures_kept upsert = omega (arith, fits.failures)

Removal-Counted :
    (r : ServiceRegistry) (x : Bool × ServiceRegistry)
    → Fits r
    → Removal r x
    → Counted r (Calls.erased x.0, x.1)
Removal-Counted r _ fits kept = record {
  version = omega (arith, fits.version);
  failures = omega (arith, fits.failures);
  more = [];
  heap = sym (append-nil _);
}
Removal-Counted r _ fits (copied m) = record {
  version = omega (arith, fits.version);
  failures = omega (arith, fits.failures);
  more = m ∷ [];
  heap = refl;
}
Removal-Counted r _ fits (erased m) = record {
  version = refl;
  failures = omega (arith, fits.failures);
  more = m ∷ [];
  heap = refl;
}

answer-Counted :
    (inet_pton : InetPton) (r : ServiceRegistry) (c : Call)
    → Fits r
    → Counted r (answer inet_pton r c)
unfolding answer add_service replace_service upsert_service clear
answer-Counted inet_pton r (adding k pops) fits =
    Effect-Counted add r _ fits (mutate-Effect inet_pton add r k pops)
answer-Counted inet_pton r (replacing k pops) fits =
    Effect-Counted replace r _ fits (mutate-Effect inet_pton replace r k pops)
answer-Counted inet_pton r (upserting k pops) fits =
    Effect-Counted upsert r _ fits (mutate-Effect inet_pton upsert r k pops)
answer-Counted inet_pton r (removing k) fits = Removal-Counted r _ fits (remove_service-Removal r k)
answer-Counted inet_pton r clearing fits = record {
  version = refl;
  failures = omega (arith, fits.failures);
  more = [] ∷ [];
  heap = refl;
}

Counted-Fits : (r : ServiceRegistry) (x : Reply × ServiceRegistry) → Counted r x → Fits x.1
Counted-Fits r x counted = record {
  version = omega (arith, counted.version);
  failures = omega (arith, counted.failures);
}

-- The same of a sequence of calls.
record CountedRun (r : ServiceRegistry) (x : List Reply × ServiceRegistry) : Type 0 where
  version : x.1.version ≡ (r.version + total publications x.0) % 2 ^ 64
  failures : x.1.stats.failures ≡ (r.stats.failures + total errors x.0) % 2 ^ 64
  more : List Map
  heap : x.1.heap ≡ r.heap ++ more

run-Counted :
    (inet_pton : InetPton) (r : ServiceRegistry) (cs : List Call)
    → Fits r
    → CountedRun r (run inet_pton r cs)
unfolding run
run-Counted inet_pton r [] fits = record {
  version = omega (arith, fits.version);
  failures = omega (arith, fits.failures);
  more = [];
  heap = sym (append-nil _);
}
run-Counted inet_pton r (c ∷ cs) fits =
    let first = answer-Counted inet_pton r c fits in
    let r' = (answer inet_pton r c).1 in
    let rest = run-Counted inet_pton r' cs (Counted-Fits r _ first) in
    record {
      version = omega (arith, first.version, rest.version);
      failures = omega (arith, first.failures, rest.failures);
      more = first.more ++ rest.more;
      heap =
          rest.heap
          ∙ ap (λ h. h ++ rest.more) first.heap
          ∙ append_assoc r.heap first.more rest.more;
    }

CountedRun-Fits :
    (r : ServiceRegistry) (x : List Reply × ServiceRegistry) → CountedRun r x → Fits x.1
CountedRun-Fits r x counted = record {
  version = omega (arith, counted.version);
  failures = omega (arith, counted.failures);
}

create-Fits : Fits create
unfolding create
create-Fits = record { version = omega arith; failures = omega arith }

-- After any calls on a new registry the version is the number of calls that published a map, and
-- the failures are the number of calls that returned an error, both modulo 2^64.
pub registry_counts :
    (inet_pton : InetPton) (cs : List Call)
    → let (replies, r) = run inet_pton create cs in
      (r.version ≡ total publications replies % 2 ^ 64)
      × (r.stats.failures ≡ total errors replies % 2 ^ 64)
unfolding create
registry_counts inet_pton cs =
    let counted = run-Counted inet_pton create cs create-Fits in
    (omega (arith, counted.version), omega (arith, counted.failures))

pub run-grows :
    (inet_pton : InetPton) (before after : List Call)
    → let r = (run inet_pton create before).1 in
      (more : List Map) × ((run inet_pton r after).1.heap ≡ r.heap ++ more)
run-grows inet_pton before after =
    let fits = CountedRun-Fits create _ (run-Counted inet_pton create before create-Fits) in
    let grown = run-Counted inet_pton (run inet_pton create before).1 after fits in
    (grown.more, grown.heap)

-- A map of the heap that a reader holds after some calls on a new registry stays what it was,
-- whatever calls come after.
pub snapshots_stay :
    (inet_pton : InetPton) (before after : List Call) (p : ℕ)
    → let r = (run inet_pton create before).1 in
      p < length r.heap → deref (run inet_pton r after).1.heap p ≡ deref r.heap p
snapshots_stay inet_pton before after p allocated =
    let r = (run inet_pton create before).1 in
    let (more, grown) = run-grows inet_pton before after in
    ap (λ h. deref h p) grown ∙ deref-kept r.heap more p allocated
