-- ===== src/Routing/Registry/Calls.antt =====
-- The public operations of a `ServiceRegistry` as calls, and a sequence of them.
use alpha_smart_router.Base.{Bool, List, [], ◌∷◌, Text}
use alpha_smart_router.Routing.Pop.{PopList}
use alpha_smart_router.Routing.Validation.{InetPton}
use alpha_smart_router.Routing.Registry.{
  RegistryErr, ServiceRegistry, add_service, replace_service, upsert_service, remove_service, clear,
}

pub data Call : Type 0 where
  adding replacing upserting : Text → PopList → Call
  removing : Text → Call
  clearing : Call

-- What a call returns: a code, whether a service was erased, or nothing.
pub data Reply : Type 0 where
  code : RegistryErr → Reply
  erased : Bool → Reply
  done : Reply

abbrev coded : RegistryErr × ServiceRegistry → Reply × ServiceRegistry
coded (e, r) = (code e, r)

abbrev erasing : Bool × ServiceRegistry → Reply × ServiceRegistry
erasing (b, r) = (erased b, r)

unfoldable pub answer : InetPton → ServiceRegistry → Call → Reply × ServiceRegistry
unfolding add_service replace_service upsert_service
answer inet_pton r (adding k pops) = coded (add_service inet_pton r k pops)
answer inet_pton r (replacing k pops) = coded (replace_service inet_pton r k pops)
answer inet_pton r (upserting k pops) = coded (upsert_service inet_pton r k pops)
answer inet_pton r (removing k) = erasing (remove_service r k)
answer inet_pton r clearing = (done, clear r)

unfoldable pub run : InetPton → ServiceRegistry → List Call → List Reply × ServiceRegistry
unfolding answer
run inet_pton r [] = ([], r)
run inet_pton r (c ∷ cs) =
    let (reply, r') = answer inet_pton r c in
    let (replies, r'') = run inet_pton r' cs in (reply ∷ replies, r'')
