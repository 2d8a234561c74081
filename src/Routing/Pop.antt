-- ===== src/Routing/Pop.antt =====
-- The point of presence of include/alpha/routing/pop.hpp.
use alpha_smart_router.Base.{ℕ, List, Text}

pub data Health : Type 0 where
  up degraded down : Health

pub record Pop : Type 0 where
  pub id : Text
  pub region : Text
  pub ip : Text
  pub weight : ℕ  -- std::uint16_t
  pub health : Health

abbrev pub PopList : Type 0
PopList = List Pop

-- `Pop{id, region, ip}`
abbrev pub default_pop : Text → Text → Text → Pop
default_pop id region ip = record {
  id = id;
  region = region;
  ip = ip;
  weight = 100;
  health = Health.up;
}
