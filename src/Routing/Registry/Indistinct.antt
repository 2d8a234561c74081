-- ===== src/Routing/Registry/Indistinct.antt =====
-- Which `ServiceRegistry`s no sequence of requests tells apart.
use alpha_smart_router.Base.{
  ◌≡◌, ◌↔◌, refl, ◌∙◌, sym, ap, Option, none, some, List, [], ◌∷◌, map, Text, text_key,
}
use alpha_smart_router.Routing.Pop.{PopList}
use alpha_smart_router.Routing.Validation.{InetPton}
use alpha_smart_router.Routing.Registry.{ServiceRegistry}
use alpha_smart_router.Routing.Registry.Invariant.{IsValid}
use alpha_smart_router.Routing.Registry.Requests.{Request, copying, having, sizing, versioning}
use alpha_smart_router.Routing.Registry.Requests
use alpha_smart_router.Routing.Registry.Directory.{Directory, found, pops_of}
use alpha_smart_router.Routing.Registry.Directory
use alpha_smart_router.Routing.Registry.Views.{view, seen}
use alpha_smart_router.Routing.Registry.Refine.{valid_refines}

option-eq : (a b : Option PopList) → found a ≡ found b → pops_of a ≡ pops_of b → a ≡ b
option-eq none none same e = refl
option-eq none (some y) same e = cc
option-eq (some x) none same e = cc
option-eq (some x) (some y) same e = ap some e

module _ (inet_pton : InetPton) where
  -- What the callers of a registry see of its responses to some requests.
  abbrev pub observed : ServiceRegistry → List Request → List Directory.Response
  observed r qs = map seen (Requests.run inet_pton r qs).0

  module _ (r s : ServiceRegistry) (vr : IsValid inet_pton r) (vs : IsValid inet_pton s) where
    abbrev Same : Type 0
    Same = (qs : List Request) → observed r qs ≡ observed s qs

    -- What the two directories answer.
    both :
        Same
        → (qs : List Request)
        → (Directory.run inet_pton (view r) qs).0 ≡ (Directory.run inet_pton (view s) qs).0
    both same qs =
        let first = λ (x : List Directory.Response × Directory). x.0 in
        sym (ap first (valid_refines inet_pton r qs vr))
        ∙ same qs
        ∙ ap first (valid_refines inet_pton s qs vs)

    same_lookup : Same → (k : Text) → (view r).lookup k ≡ (view s).lookup k
    unfolding Directory.run Directory.serve
    same_lookup same k =
        option-eq ((view r).lookup k) ((view s).lookup k) (cc (both same (having k ∷ [])))
          (cc (both same (copying k ∷ [])))

    same_count : Same → (view r).count ≡ (view s).count
    unfolding Directory.run Directory.serve
    same_count same = cc (both same (sizing ∷ []))

    same_version : Same → (view r).version ≡ (view s).version
    unfolding Directory.run Directory.serve
    same_version same = cc (both same (versioning ∷ []))

    -- Two registries that satisfy their invariant answer all requests alike, the order of a listing
    -- aside, exactly if readers find the same PoPs for each service in both, and their sizes and
    -- their versions are the same.
    pub indistinct_iff : ((qs : List Request) → observed r qs ≡ observed s qs) ↔ (view r ≡ view s)
    indistinct_iff = (
      λ same. λ i. record {
        lookup = λ k. same_lookup same k i;
        count = same_count same i;
        version = same_version same i;
      },
      λ e qs.
          let first = λ (x : List Directory.Response × Directory). x.0 in
          ap first (valid_refines inet_pton r qs vr)
          ∙ ap (λ d. (Directory.run inet_pton d qs).0) e
          ∙ sym (ap first (valid_refines inet_pton s qs vs)),
    )
