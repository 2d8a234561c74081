-- ===== src/Routing/Registry/Writers/Alone.antt =====
-- The accesses of a writer with nobody in between, beside the operations of the registry.
use alpha_smart_router.Base.{◌≡◌, refl, ◌∙◌, sym, ap, Bool, true, [], length, Text}
use alpha_smart_router.Routing.Pop.{PopList}
use alpha_smart_router.Routing.Validation.{InetPton}
use alpha_smart_router.Routing.Registry.{
  RegistryErr, ok, Mode, Map, ServiceRegistry, current, mutate, remove_service, clear,
}
use alpha_smart_router.Routing.Registry.State.{
  Points, outcome, remove_outcome, mutate-outcome, remove_service-outcome, deref-end,
}
use alpha_smart_router.Routing.Registry.Snapshots.{
  Effect, rejected, refused, stored, mutate-Effect, Removal, kept, copied, erased,
  remove_service-Removal,
}
use alpha_smart_router.Routing.Registry.Writers.{
  mutated, removed, cleared, Shared, mutating, removing, clearing, store, count_version,
  count_change, Reach, here, next,
}

-- A registry with no writer.
abbrev pub alone : ServiceRegistry → Shared
alone r = record { registry = r; writers = [] }

module _ (inet_pton : InetPton) where
  effect_alone :
      (mode : Mode) (r : ServiceRegistry) (k : Text) (pops : PopList)
      (x : RegistryErr × ServiceRegistry)
      → Effect mode r x
      → (x.0, current x.1) ≡ outcome inet_pton mode (current r) k pops
      → x.0 ≡ ok
      → Reach inet_pton (alone r) (alone x.1)
  unfolding current
  effect_alone mode r k pops _ (rejected e bad) same good = absurd (bad good)
  effect_alone mode r k pops _ (refused e m bad) same good = absurd (bad good)
  effect_alone mode r k pops _ (stored m) same good =
      let own : outcome inet_pton mode (current r) k pops ≡ (ok, m) =
        sym same ∙ ap (λ (l : Map). (ok, l)) (deref-end r.heap m) in
      next
        (next
          (next (next here (mutating mode k pops m own))
            (store [] [] (length r.heap) (mutated mode) refl))
          (count_version [] [] (mutated mode) refl))
        (count_change [] [] (mutated mode) refl)

  -- A mutation that succeeds is the four accesses of its writer.
  pub mutate_alone :
      (mode : Mode) (r : ServiceRegistry) (k : Text) (pops : PopList)
      → Points r
      → let (e, r') = mutate inet_pton mode r k pops in
        e ≡ ok → Reach inet_pton (alone r) (alone r')
  mutate_alone mode r k pops points good =
      effect_alone mode r k pops _ (mutate-Effect inet_pton mode r k pops)
        (mutate-outcome inet_pton mode r k pops points) good

  removal_alone :
      (r : ServiceRegistry) (k : Text) (x : Bool × ServiceRegistry)
      → Removal r x
      → (x.0, current x.1) ≡ remove_outcome (current r) k
      → x.0 ≡ true
      → Reach inet_pton (alone r) (alone x.1)
  unfolding current
  removal_alone r k _ kept same good = cc
  removal_alone r k _ (copied m) same good = cc
  removal_alone r k _ (erased m) same good =
      let own : remove_outcome (current r) k ≡ (true, m) =
        sym same ∙ ap (λ (l : Map). (true, l)) (deref-end r.heap m) in
      next
        (next (next (next here (removing k m own)) (store [] [] (length r.heap) removed refl))
          (count_version [] [] removed refl))
        (count_change [] [] removed refl)

  -- So is a removal that finds the service.
  pub remove_alone :
      (r : ServiceRegistry) (k : Text)
      → Points r
      → let (done, r') = remove_service r k in done ≡ true → Reach inet_pton (alone r) (alone r')
  remove_alone r k points good =
      removal_alone r k _ (remove_service-Removal r k) (remove_service-outcome r k points) good

  -- So is `clear`.
  pub clear_alone : (r : ServiceRegistry) → Reach inet_pton (alone r) (alone (clear r))
  unfolding clear
  clear_alone r =
      next
        (next (next (next here clearing) (store [] [] (length r.heap) cleared refl))
          (count_version [] [] cleared refl))
        (count_change [] [] cleared refl)
