-- ===== src/Routing/Registry/Directory.antt =====
-- What `ServiceRegistry` promises to one thread after another: a directory of services. It has no
-- heap, no snapshots and no order of its services.
use alpha_smart_router.Base.{
  ℕ, ◌+◌, ◌-◌, Bool, true, false, not, Option, none, some, List, [], ◌∷◌, ltb, if◌then◌else◌, Text,
  text_eq,
}
use alpha_smart_router.Routing.Pop.{PopList}
use alpha_smart_router.Routing.Validation.{
  InetPton, max_services, max_id_len, validate_id, validate_pops,
}
use alpha_smart_router.Routing.Registry.{
  RegistryErr, ok, exists, not_found, invalid, capacity, Mode, add, replace, upsert, increment,
}
use alpha_smart_router.Routing.Registry.Calls.{
  adding, replacing, upserting, removing, clearing, Reply, code, erased, done,
}
use alpha_smart_router.Routing.Registry.Requests.{
  Request, changing, copying, having, sizing, listing, versioning,
}

pub record Directory : Type 0 where
  pub lookup : Text → Option PopList
  pub count : ℕ
  pub version : ℕ

abbrev pub empty : Directory
empty = record { lookup = λ k. none; count = 0; version = 0 }

-- What a reader learns of a request. Of a listing, it is which services are in it, and how many.
pub data Response : Type 0 where
  replied : Reply → Response
  pops : PopList → Response
  there : Bool → Response
  amount : ℕ → Response
  names : (Text → Bool) → ℕ → Response

-- A new entry for a service.
abbrev pub put : Text → PopList → (Text → Option PopList) → Text → Option PopList
put k x f j = if text_eq k j then some x else f j

abbrev pub drop : Text → (Text → Option PopList) → Text → Option PopList
drop k f j = if text_eq k j then none else f j

-- A mutation with valid input, from what the service has. An upsert of a service that is there
-- keeps what it has.
unfoldable pub accept : Mode → Option PopList → Directory → Text → PopList → RegistryErr × Directory
accept add none d k x =
    (ok, record { lookup = put k x d.lookup; count = d.count + 1; version = increment d.version })
accept add (some old) d k x = (exists, d)
accept replace none d k x = (not_found, d)
accept replace (some old) d k x =
    (ok, record { lookup = put k x d.lookup; count = d.count; version = increment d.version })
accept upsert none d k x =
    (ok, record { lookup = put k x d.lookup; count = d.count + 1; version = increment d.version })
accept upsert (some old) d k x = (ok, record d { version = increment d.version })

unfoldable pub remove : Option PopList → Directory → Text → Bool × Directory
remove none d k = (false, d)
remove (some old) d k =
    (true, record { lookup = drop k d.lookup; count = d.count - 1; version = increment d.version })

abbrev pub found : Option PopList → Bool
found none = false
found (some x) = true

abbrev pub pops_of : Option PopList → PopList
pops_of none = []
pops_of (some x) = x

module _ (inet_pton : InetPton) where
  unfoldable pub mutate : Mode → Directory → Text → PopList → RegistryErr × Directory
  unfolding accept
  mutate mode d k x =
      if not (validate_id k max_id_len)
      then (invalid, d)
      else if not (validate_pops inet_pton x)
      then (invalid, d)
      else if ltb max_services d.count
      then (capacity, d)
      else accept mode (d.lookup k) d k x

  abbrev coded : RegistryErr × Directory → Response × Directory
  coded (e, d) = (replied (code e), d)

  abbrev erasing : Bool × Directory → Response × Directory
  erasing (b, d) = (replied (erased b), d)

  unfoldable pub serve : Directory → Request → Response × Directory
  unfolding mutate remove
  serve d (changing (adding k x)) = coded (mutate add d k x)
  serve d (changing (replacing k x)) = coded (mutate replace d k x)
  serve d (changing (upserting k x)) = coded (mutate upsert d k x)
  serve d (changing (removing k)) = erasing (remove (d.lookup k) d k)
  serve d (changing clearing) =
      (replied done, record { lookup = λ k. none; count = 0; version = increment d.version })
  serve d (copying k) = (pops (pops_of (d.lookup k)), d)
  serve d (having k) = (there (found (d.lookup k)), d)
  serve d sizing = (amount d.count, d)
  serve d listing = (names (λ k. found (d.lookup k)) d.count, d)
  serve d versioning = (amount d.version, d)

  unfoldable pub run : Directory → List Request → List Response × Directory
  unfolding serve
  run d [] = ([], d)
  run d (q ∷ qs) =
      let (answer, d') = serve d q in let (answers, d'') = run d' qs in (answer ∷ answers, d'')
