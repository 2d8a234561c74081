-- ===== src/Routing/Registry/Requests.antt =====
-- All public operations of a `ServiceRegistry`, those that read it too.
use alpha_smart_router.Base.{ℕ, Bool, List, [], ◌∷◌, Text}
use alpha_smart_router.Routing.Pop.{PopList}
use alpha_smart_router.Routing.Validation.{InetPton}
use alpha_smart_router.Routing.Registry.{
  ServiceRegistry, get_pops_copy, has_service, size, list_services,
}
use alpha_smart_router.Routing.Registry.Calls.{Call, Reply, answer}

pub data Request : Type 0 where
  changing : Call → Request
  copying having : Text → Request
  sizing listing versioning : Request

pub data Response : Type 0 where
  replied : Reply → Response
  pops : PopList → Response
  there : Bool → Response
  amount : ℕ → Response
  names : List Text → Response

module _ (inet_pton : InetPton) where
  unfoldable pub serve : ServiceRegistry → Request → Response × ServiceRegistry
  unfolding answer
  serve r (changing c) = let (reply, r') = answer inet_pton r c in (replied reply, r')
  serve r (copying service_id) = (pops (get_pops_copy r service_id), r)
  serve r (having service_id) = (there (has_service r service_id), r)
  serve r sizing = (amount (size r), r)
  serve r listing = (names (list_services r), r)
  serve r versioning = (amount r.version, r)

  unfoldable pub run : ServiceRegistry → List Request → List Response × ServiceRegistry
  unfolding serve
  run r [] = ([], r)
  run r (q ∷ qs) =
      let (response, r') = serve r q in
      let (responses, r'') = run r' qs in (response ∷ responses, r'')
