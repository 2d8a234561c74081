-- ===== src/Routing/Validation.antt =====
-- The input checks of `ServiceRegistry` (src/alpha/routing/service_registry.cpp), and the limits of
-- include/alpha/routing/service_registry.hpp.
-- `inet_pton` is the C library's, which says of an address family and a text whether the text is
-- an address of that family.
pub mod Unique
use alpha_smart_router.Base.{
  ℕ, zero, suc, Bool, true, false, ◌||◌, ◌&&◌, not, List, [], ◌∷◌, ltb, leb, ◌==◌, if◌then◌else◌,
  length, Text, text_eq, text_lt, map,
}
use alpha_smart_router.Routing.Pop.{Pop, PopList}

-- `struct Limits`
abbrev pub max_services : ℕ
max_services = 128

abbrev pub max_pops_per_service : ℕ
max_pops_per_service = 32

abbrev pub max_id_len : ℕ
max_id_len = 32

abbrev pub max_region_len : ℕ
max_region_len = 32

abbrev pub max_ip_len : ℕ
max_ip_len = 64

pub data AddressFamily : Type 0 where
  af_inet af_inet6 : AddressFamily

abbrev pub InetPton : Type 0
InetPton = AddressFamily → Text → Bool

abbrev pub is_empty {ℓ} : {A : Type ℓ} → List A → Bool
is_empty [] = true
is_empty (x ∷ xs) = false

-- the letters, digits, `_` and `-` of an identifier
pub id_char : ℕ → Bool
id_char c =
    c == b'_'
    || (c == b'-'
        || ((leb b'0' c && leb c b'9')
            || ((leb b'A' c && leb c b'Z') || (leb b'a' c && leb c b'z'))))

pub id_chars : Text → Bool
id_chars [] = true
id_chars (c ∷ cs) = if not (id_char c) then false else id_chars cs

unfoldable pub validate_id : Text → ℕ → Bool
unfolding id_chars id_char
validate_id id max_len =
    if is_empty id || ltb max_len (length id)
    then false
    else if ltb (length id) 2
    then false
    else id_chars id

-- `std::string(ip).c_str()`, as C reads it: up to the first NUL.
pub c_str : Text → Text
c_str [] = []
c_str (c ∷ cs) = if c == 0 then [] else c ∷ c_str cs

-- `std::sort` of the views by their order
pub insert_text : Text → List Text → List Text
insert_text t [] = t ∷ []
insert_text t (u ∷ us) = if text_lt u t then u ∷ insert_text t us else t ∷ u ∷ us

pub sort_texts : List Text → List Text
unfolding insert_text
sort_texts [] = []
sort_texts (t ∷ ts) = insert_text t (sort_texts ts)

-- `std::adjacent_find(…) != end`
pub adjacent_equal : List Text → Bool
adjacent_equal [] = false
adjacent_equal (t ∷ []) = false
adjacent_equal (t ∷ u ∷ us) = text_eq t u || adjacent_equal (u ∷ us)

abbrev pub ids_of : PopList → List Text
ids_of = map (λ (p : Pop). p.id)

module _ (inet_pton : InetPton) where
  unfoldable pub validate_ip : Text → Bool
  unfolding c_str
  validate_ip ip =
      if is_empty ip || ltb max_ip_len (length ip)
      then false
      else if inet_pton AddressFamily.af_inet (c_str ip)
      then true
      else if inet_pton AddressFamily.af_inet6 (c_str ip)
      then true
      else false

  -- The loop over the PoPs: whether the fields of each are valid.
  pub validate_fields : PopList → Bool
  unfolding validate_id validate_ip
  validate_fields [] = true
  validate_fields (p ∷ ps) =
      if not (validate_id p.id max_id_len)
      then false
      else if not (validate_id p.region max_region_len)
      then false
      else if not (validate_ip p.ip)
      then false
      else validate_fields ps

  unfoldable pub validate_pops : PopList → Bool
  unfolding validate_fields sort_texts adjacent_equal
  validate_pops pops =
      if is_empty pops || ltb max_pops_per_service (length pops)
      then false
      else if not (validate_fields pops)
      then false
      else if adjacent_equal (sort_texts (ids_of pops))
      then false
      else true
