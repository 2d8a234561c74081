-- ===== src/Routing/Registry/Abstract.antt =====
-- `ServiceRegistry`s up to what their callers see, as a quotient.
use alpha_smart_router.Base.{◌≡◌, ◌∙◌, sym, ap, List}
use mathlib.Core.Quot
use mathlib.Core.Quot.{Quot, Quot-set}
use native.Mathlib.Nat.{ℕ_set}
use alpha_smart_router.Routing.Validation.{InetPton}
use alpha_smart_router.Routing.Registry.{ServiceRegistry}
use alpha_smart_router.Routing.Registry.Invariant.{IsValid}
use alpha_smart_router.Routing.Registry.Requests.{Request}
use alpha_smart_router.Routing.Registry.Requests
use alpha_smart_router.Routing.Registry.Directory
use alpha_smart_router.Routing.Registry.Refine.{serve_refines, serve-IsValid}
use alpha_smart_router.Routing.Registry.Directory.{Directory}
use alpha_smart_router.Routing.Registry.Views.{view}
use alpha_smart_router.Routing.Registry.Indistinct.{observed, indistinct_iff}

Directory-set : IsSet Directory
Directory-set = hlevel ℕ_set

module _ (inet_pton : InetPton) where
  abbrev pub Registry : Type 0
  Registry = (r : ServiceRegistry) × IsValid inet_pton r

  -- All requests are answered alike.
  abbrev pub Alike : Registry → Registry → Type 0
  Alike r s = (qs : List Request) → observed inet_pton r.0 qs ≡ observed inet_pton s.0 qs

  abbrev pub Abstract : Type 0
  Abstract = Quot Alike

  -- The directory of an abstract registry.
  pub directory_of : Abstract → Directory
  directory_of =
      Quot.lift Directory-set (λ r. view r.0)
        (λ r s same. (indistinct_iff inet_pton r.0 s.0 r.1 s.1).0 same)

  served : Request → Registry → Registry
  served q r = ((Requests.serve inet_pton r.0 q).1, serve-IsValid inet_pton r.0 q r.1)

  view-served :
      (q : Request) (r : Registry)
      → view (served q r).0 ≡ (Directory.serve inet_pton (view r.0) q).1
  unfolding served
  view-served q r =
      ap (λ (x : Directory.Response × Directory). x.1) (serve_refines inet_pton r.0 q r.1)

  served-Alike : (q : Request) (r s : Registry) → Alike r s → Alike (served q r) (served q s)
  served-Alike q r s same =
      let one = indistinct_iff inet_pton r.0 s.0 r.1 s.1 in
      let two =
        indistinct_iff inet_pton (served q r).0 (served q s).0 (served q r).1 (served q s).1 in
      two.1 (
        view-served q r
        ∙ ap (λ d. (Directory.serve inet_pton d q).1) (one.0 same)
        ∙ sym (view-served q s))

  -- The abstract registry after a request.
  pub after : Request → Abstract → Abstract
  after q =
      Quot.lift Quot-set (λ r. Quot.mk (served q r))
        (λ r s same. Quot.sound (served-Alike q r s same))

  directory_of-injective : (a b : Abstract) → directory_of a ≡ directory_of b → a ≡ b
  unfolding directory_of
  directory_of-injective =
      Quot.ind (λ a. hlevel Quot-set)
        (λ r.
          Quot.ind (λ b. hlevel Quot-set)
            (λ s e. Quot.sound ((indistinct_iff inet_pton r.0 s.0 r.1 s.1).1 e)))

  directory_of-after :
      (q : Request) (a : Abstract)
      → directory_of (after q a) ≡ (Directory.serve inet_pton (directory_of a) q).1
  unfolding directory_of after
  directory_of-after q = Quot.ind (λ a. hlevel Directory-set) (λ r. view-served q r)

  -- The registries that satisfy their invariant, as a type in which those that answer all requests
  -- alike are equal, are embedded in the directories: those with the same directory are equal; and
  -- a request does to the directory what the specification says.
  pub directory_of_embeds :
      ((a b : Abstract) → directory_of a ≡ directory_of b → a ≡ b)
      × ((q : Request) (a : Abstract)
          → directory_of (after q a) ≡ (Directory.serve inet_pton (directory_of a) q).1)
  directory_of_embeds = (directory_of-injective, directory_of-after)
