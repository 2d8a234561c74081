-- ===== src/Routing/Registry/Overtaken.antt =====
-- Two writers of a `ServiceRegistry` at once (src/alpha/routing/service_registry.cpp, `mutate`): a
-- mutation takes its snapshot, other calls run to their end, and then it does the rest.
use alpha_smart_router.Base.{
  ◌⊎◌, ℕ, ◌≡◌, ◌≢◌, refl, ◌∙◌, sym, ap, not, Option, none, some, List, ◌++◌, ltb, if◌then◌else◌,
  length, length-append, Text, text_key, arith, Bool-cases, inl, inr,
}
use alpha_smart_router.Routing.Pop.{PopList}
use alpha_smart_router.Routing.Validation.{
  InetPton, max_services, max_id_len, validate_id, validate_pops,
}
use alpha_smart_router.Routing.Registry.{
  RegistryErr, ok, invalid, capacity, Map, Mode, add, replace, upsert, ServiceRegistry, create,
  deref, current, snapshot, count_failure, make_shared, mutate_copy, mutate_snapshot, mutate,
}
use alpha_smart_router.Routing.Registry.Invariant.{registry-IsValid}
use alpha_smart_router.Routing.Registry.Counts.{run-grows}
use alpha_smart_router.Routing.Registry.State.{
  Points, copy_outcome, current_there, deref-kept, mutate_snapshot-outcome,
}
use alpha_smart_router.Routing.Registry.Calls.{Call, run}

-- `mutate`, with the registry at its snapshot and the registry that the rest of it finds.
unfoldable pub mutate_late :
    InetPton → Mode → (seen now : ServiceRegistry) → Text → PopList → RegistryErr × ServiceRegistry
unfolding mutate_snapshot
mutate_late inet_pton mode seen now service_id pops =
    if not (validate_id service_id max_id_len)
    then (invalid, count_failure now)
    else if not (validate_pops inet_pton pops)
    then (invalid, count_failure now)
    else mutate_snapshot mode now (snapshot seen) service_id pops

ok_cases : (e : RegistryErr) → (e ≡ ok) ⊎ (e ≢ ok)
ok_cases ok = inl refl
ok_cases e = inr (λ same. cc)

abbrev republished : ServiceRegistry → Option ℕ → ServiceRegistry
republished r q = record r { published = q }

-- What is published meanwhile makes no difference to a mutation that succeeds.
copy-republished :
    (mode : Mode) (r : ServiceRegistry) (q : Option ℕ) (next : ℕ) (k : Text) (pops : PopList)
    → let late = mutate_copy mode r next k pops in
      let alone = mutate_copy mode (republished r q) next k pops in
      (late.0 ≡ alone.0) × (late.0 ≡ ok → current late.1 ≡ current alone.1)
unfolding mutate_copy current
copy-republished add r q next k pops = ground arith
copy-republished replace r q next k pops = ground arith
copy-republished upsert r q next k pops = (refl, λ e. refl)

snapshot-republished :
    (mode : Mode) (r : ServiceRegistry) (q : Option ℕ) (snap : Option ℕ) (k : Text) (pops : PopList)
    → let late = mutate_snapshot mode r snap k pops in
      let alone = mutate_snapshot mode (republished r q) snap k pops in
      (late.0 ≡ alone.0) × (late.0 ≡ ok → current late.1 ≡ current alone.1)
unfolding mutate_snapshot
snapshot-republished mode r q none k pops = (refl, λ e. cc)
snapshot-republished mode r q (some snap) k pops =
    elim (Bool-cases (ltb max_services (length (deref r.heap snap)))) [
      | inl over ↦ rw (over, mutate_snapshot) (refl, λ e. cc)
      | inr fits ↦
          rw (fits, mutate_snapshot)
            (copy-republished mode (make_shared r (deref r.heap snap)) q (length r.heap) k pops)
    ]

module _ (inet_pton : InetPton) (seen now : ServiceRegistry) (points : Points seen)
    (more : List Map) (grown : now.heap ≡ seen.heap ++ more) where
  -- The registry now, as if nothing had been published since the snapshot.
  abbrev unmoved : ServiceRegistry
  unmoved = republished now seen.published

  unmoved-Points : Points unmoved
  unmoved-Points = record {
    pointer = points.pointer;
    there = points.there;
    allocated =
        omega
          (arith, points.allocated, ap (length {A = Map}) grown, length-append {0} seen.heap more);
  }

  unmoved-current : current unmoved ≡ current seen
  unmoved-current =
      current_there unmoved points.there
      ∙ ap (λ h. deref h points.pointer) grown
      ∙ deref-kept seen.heap more points.pointer points.allocated
      ∙ sym (current_there seen points.there)

  unmoved-mutate :
      (mode : Mode) (k : Text) (pops : PopList)
      → let on_unmoved = mutate_snapshot mode unmoved seen.published k pops in
        let on_seen = mutate_snapshot mode seen seen.published k pops in
        ◌≡◌ {A = RegistryErr × Map}
          (on_unmoved.0, current on_unmoved.1)
          (on_seen.0, current on_seen.1)
  unmoved-mutate mode k pops =
      mutate_snapshot-outcome inet_pton mode unmoved seen.published k pops unmoved-Points refl
      ∙ ap (λ m. if ltb max_services (length m) then (capacity, m) else copy_outcome mode m k pops)
          unmoved-current
      ∙ sym (mutate_snapshot-outcome inet_pton mode seen seen.published k pops points refl)

  late_lem :
      (mode : Mode) (k : Text) (pops : PopList)
      → let (e, r) = mutate_late inet_pton mode seen now k pops in
        let (e', r') = mutate inet_pton mode seen k pops in
        (e ≡ e') × (e ≡ ok → current r ≡ current r')
  unfolding mutate_late mutate
  late_lem mode k pops = elim (Bool-cases (validate_id k max_id_len)) [
    | inr bad ↦ rw (bad, mutate_late, mutate) (refl, λ e. cc)
    | inl good ↦ elim (Bool-cases (validate_pops inet_pton pops)) [
      | inr bad' ↦ rw (good, bad', mutate_late, mutate) (refl, λ e. cc)
      | inl good' ↦
          let (code, kept) = snapshot-republished mode now seen.published seen.published k pops in
          let same = unmoved-mutate mode k pops in
          rw (good, good', mutate_late, mutate)
            (
              code ∙ ap (λ (x : RegistryErr × Map). x.0) same,
              λ e. kept e ∙ ap (λ (x : RegistryErr × Map). x.1) same,
            )
    ]
  ]

-- Mutations are not serialized. When a mutation has taken its snapshot, and any other calls run to
-- their end before it does the rest, it returns what it would have returned without them; and it
-- fails, or readers find what they would find had those calls never been made: the changes of those
-- that succeeded are lost.
pub overtaken_lem :
    (inet_pton : InetPton) (before between : List Call) (mode : Mode) (k : Text) (pops : PopList)
    → let seen = (run inet_pton create before).1 in
      let now = (run inet_pton seen between).1 in
      let (e, r) = mutate_late inet_pton mode seen now k pops in
      let (e', r') = mutate inet_pton mode seen k pops in
      (e ≡ e') × ((e ≢ ok) ⊎ (current r ≡ current r'))
overtaken_lem inet_pton before between mode k pops =
    let seen = (run inet_pton create before).1 in
    let now = (run inet_pton seen between).1 in
    let (more, grown) = run-grows inet_pton before between in
    let (code, lost) =
      late_lem inet_pton seen now (registry-IsValid inet_pton before).points more grown mode k
        pops in
    (
      code,
      elim (ok_cases (mutate_late inet_pton mode seen now k pops).0) [
        | inl done ↦ inr (lost done)
        | inr fails ↦ inl fails
      ],
    )
