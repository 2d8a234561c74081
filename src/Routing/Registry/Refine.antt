-- ===== src/Routing/Registry/Refine.antt =====
-- A `ServiceRegistry` beside the directory that it promises.
use alpha_smart_router.Base.{
  ℕ, ◌≡◌, ◌≢◌, refl, ◌∙◌, ap, ap₂, Bool, List, [], ◌∷◌, if◌then◌else◌, map, Text, find, text_key,
}
use mathlib.Core.Path.{fun_ext}
use alpha_smart_router.Routing.Pop.{PopList}
use alpha_smart_router.Routing.Validation.{InetPton}
use alpha_smart_router.Routing.Registry.{
  RegistryErr, ok, exists, not_found, invalid, capacity, Mode, add, replace, upsert, Map,
  ServiceRegistry, create, current, deref, mutate, remove_service, clear, add_service,
  replace_service, upsert_service, increment,
}
use alpha_smart_router.Routing.Registry.State.{
  mutate-outcome, remove_service-outcome, clear-outcome,
}
use alpha_smart_router.Routing.Registry.Snapshots.{
  Effect, rejected, refused, stored, mutate-Effect, Removal, kept, copied, erased,
  remove_service-Removal,
}
use alpha_smart_router.Routing.Registry.Calls.{
  Call, adding, replacing, upserting, removing, clearing, Reply, code, answer,
}
use alpha_smart_router.Routing.Registry.Calls
use alpha_smart_router.Routing.Registry.Invariant.{IsValid, create-IsValid, answer-IsValid}
use alpha_smart_router.Routing.Registry.Readers.{length-keys, readers_there}
use alpha_smart_router.Routing.Registry.Requests.{
  Request, changing, copying, having, sizing, listing, versioning,
}
use alpha_smart_router.Routing.Registry.Requests
use alpha_smart_router.Routing.Registry.Directory.{Directory, put, drop}
use alpha_smart_router.Routing.Registry.Directory
use alpha_smart_router.Routing.Registry.Views.{
  view, view_at, seen, bumped, outcome_at, removal_at, contains-keys, remove_outcome-remove,
  outcome-mutate,
}

module _ (inet_pton : InetPton) where
  bumped_failed : (e : RegistryErr) (v : ℕ) → e ≢ ok → v ≡ bumped e v
  bumped_failed ok v bad = absurd (bad refl)
  bumped_failed exists v bad = refl
  bumped_failed not_found v bad = refl
  bumped_failed invalid v bad = refl
  bumped_failed capacity v bad = refl

  Effect-version :
      (mode : Mode) (r : ServiceRegistry) (x : RegistryErr × ServiceRegistry)
      → Effect mode r x
      → x.1.version ≡ bumped x.0 r.version
  Effect-version mode r _ (rejected e bad) = bumped_failed e r.version bad
  Effect-version mode r _ (refused e m bad) = bumped_failed e r.version bad
  Effect-version mode r _ (stored m) = refl

  Removal-version :
      (r : ServiceRegistry) (x : Bool × ServiceRegistry)
      → Removal r x
      → x.1.version ≡ (if x.0 then increment r.version else r.version)
  Removal-version r _ kept = refl
  Removal-version r _ (copied m) = refl
  Removal-version r _ (erased m) = refl

  mutate_refines :
      (mode : Mode) (r : ServiceRegistry) (k : Text) (x : PopList)
      → IsValid inet_pton r
      → let (e, r') = mutate inet_pton mode r k x in
        (e, view r') ≡ Directory.mutate inet_pton mode (view r) k x
  mutate_refines mode r k x v =
      let e = (mutate inet_pton mode r k x).0 in
      let r' = (mutate inet_pton mode r k x).1 in
      ap (λ (n : ℕ). (e, view_at (current r') n))
        (Effect-version mode r _ (mutate-Effect inet_pton mode r k x))
      ∙ ap (outcome_at r.version) (mutate-outcome inet_pton mode r k x v.points)
      ∙ outcome-mutate inet_pton mode (current r) k x r.version

  remove_refines :
      (r : ServiceRegistry) (k : Text)
      → IsValid inet_pton r
      → let (b, r') = remove_service r k in
        (b, view r') ≡ Directory.remove ((view r).lookup k) (view r) k
  remove_refines r k v =
      let b = (remove_service r k).0 in
      let r' = (remove_service r k).1 in
      ap (λ (n : ℕ). (b, view_at (current r') n)) (Removal-version r _ (remove_service-Removal r k))
      ∙ ap (removal_at r.version) (remove_service-outcome r k v.points)
      ∙ remove_outcome-remove (current r) k r.version v.valid.unique

  abbrev shown : Requests.Response × ServiceRegistry → Directory.Response × Directory
  shown (response, r) = (seen response, view r)

  pub serve_refines :
      (r : ServiceRegistry) (q : Request)
      → IsValid inet_pton r
      → shown (Requests.serve inet_pton r q) ≡ Directory.serve inet_pton (view r) q
  unfolding find Requests.serve Directory.serve answer add_service replace_service upsert_service
      clear
  serve_refines r (changing (adding k x)) v =
      ap (λ (y : RegistryErr × Directory). (Directory.replied (code y.0), y.1))
        (mutate_refines add r k x v)
  serve_refines r (changing (replacing k x)) v =
      ap (λ (y : RegistryErr × Directory). (Directory.replied (code y.0), y.1))
        (mutate_refines replace r k x v)
  serve_refines r (changing (upserting k x)) v =
      ap (λ (y : RegistryErr × Directory). (Directory.replied (code y.0), y.1))
        (mutate_refines upsert r k x v)
  serve_refines r (changing (removing k)) v =
      ap (λ (y : Bool × Directory). (Directory.replied (Calls.erased y.0), y.1))
        (remove_refines r k v)
  serve_refines r (changing clearing) v =
      ap (λ (m : Map). (Directory.replied Calls.done, view_at m (increment r.version)))
        (clear-outcome r)
  serve_refines r (copying k) v =
      ap (λ x. (Directory.pops x, view r)) ((readers_there r r.published v.points refl).2 k).1
  serve_refines r (having k) v =
      ap (λ b. (Directory.there b, view r)) ((readers_there r r.published v.points refl).2 k).0
  serve_refines r sizing v =
      ap (λ n. (Directory.amount n, view r)) (readers_there r r.published v.points refl).0
  serve_refines r listing v =
      ap (λ l. (seen (Requests.names l), view r)) (readers_there r r.published v.points refl).1
      ∙ ap₂ (λ f n. (Directory.names f n, view r)) (fun_ext (λ k. contains-keys k (current r)))
          (length-keys (current r))
  serve_refines r versioning v = refl

  pub serve-IsValid :
      (r : ServiceRegistry) (q : Request)
      → IsValid inet_pton r
      → IsValid inet_pton (Requests.serve inet_pton r q).1
  unfolding Requests.serve
  serve-IsValid r (changing c) v = answer-IsValid inet_pton r c v
  serve-IsValid r (copying k) v = v
  serve-IsValid r (having k) v = v
  serve-IsValid r sizing v = v
  serve-IsValid r listing v = v
  serve-IsValid r versioning v = v

  pub valid_refines :
      (r : ServiceRegistry) (qs : List Request)
      → IsValid inet_pton r
      → let (responses, r') = Requests.run inet_pton r qs in
        (map seen responses, view r') ≡ Directory.run inet_pton (view r) qs
  unfolding Requests.run Directory.run
  valid_refines r [] v = refl
  valid_refines r (q ∷ qs) v =
      let r' = (Requests.serve inet_pton r q).1 in
      let answer = seen (Requests.serve inet_pton r q).0 in
      ap (λ (y : List Directory.Response × Directory). (answer ∷ y.0, y.1))
        (valid_refines r' qs (serve-IsValid r q v))
      ∙ ap
          (λ (y : Directory.Response × Directory).
            let (answers, d) = Directory.run inet_pton y.1 qs in (y.0 ∷ answers, d))
          (serve_refines r q v)

  -- From a new registry, whatever the requests, mutations and reads in any order: every response is
  -- that of the directory, where of a listing it is seen which services stand in it and how long it
  -- is; and in the end readers find the services, the PoPs, the size and the version of the
  -- directory.
  pub run_refines_directory :
      (qs : List Request)
      → let (responses, r) = Requests.run inet_pton create qs in
        (map seen responses, view r) ≡ Directory.run inet_pton Directory.empty qs
  unfolding create current deref find
  run_refines_directory qs = valid_refines create qs (create-IsValid inet_pton)
