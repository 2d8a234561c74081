-- ===== src/Config/Constants.antt =====
-- The defaults of include/alpha/config/constants.hpp that the loader uses; those of the ingress
-- selector and of the simulated oracle stand with their components.
-- A decimal is the quotient of two integers: both are exact doubles, and the quotient and the
-- literal are both the double that is nearest to the same number.
use alpha_smart_router.Base.{ℕ, Bool, true}
use alpha_smart_router.Routing.Doubles.{Doubles}

abbrev pub dscp_be : ℕ
dscp_be = 0x00

abbrev pub dscp_cs1 : ℕ
dscp_cs1 = 0x08

abbrev pub dscp_af31 : ℕ
dscp_af31 = 0x28

abbrev pub dscp_ef : ℕ
dscp_ef = 0x2E

abbrev pub qos_bulk_max_lat_us : ℕ
qos_bulk_max_lat_us = 20000

abbrev pub qos_bulk_max_jitter_us : ℕ
qos_bulk_max_jitter_us = 10000

abbrev pub qos_be_max_lat_us : ℕ
qos_be_max_lat_us = 15000

abbrev pub qos_be_max_jitter_us : ℕ
qos_be_max_jitter_us = 8000

abbrev pub qos_int_max_lat_us : ℕ
qos_int_max_lat_us = 8000

abbrev pub qos_int_max_jitter_us : ℕ
qos_int_max_jitter_us = 3000

abbrev pub qos_rt_max_lat_us : ℕ
qos_rt_max_lat_us = 4000

abbrev pub qos_rt_max_jitter_us : ℕ
qos_rt_max_jitter_us = 1500

abbrev pub failover_return_to_primary : Bool
failover_return_to_primary = true

abbrev pub failover_min_hold_ms : ℕ
failover_min_hold_ms = 3000

abbrev pub failover_recovery_hold_ms : ℕ
failover_recovery_hold_ms = 5000

module _ (d : Doubles) where
  open d use {Double, of_nat, div}

  abbrev pub decimal : (n k : ℕ) → Double
  decimal n k = div (of_nat n) (of_nat k)

  abbrev pub qos_bulk_max_loss : Double
  qos_bulk_max_loss = decimal 5 100

  abbrev pub qos_be_max_loss : Double
  qos_be_max_loss = decimal 2 100

  abbrev pub qos_int_max_loss : Double
  qos_int_max_loss = decimal 1 100

  abbrev pub qos_rt_max_loss : Double
  qos_rt_max_loss = decimal 5 1000

  abbrev pub qos_weight_latency : Double
  qos_weight_latency = decimal 6 10

  abbrev pub qos_weight_jitter : Double
  qos_weight_jitter = decimal 3 10

  abbrev pub qos_weight_loss : Double
  qos_weight_loss = decimal 1 10

  abbrev pub failover_improve_pct_to_switch : Double
  failover_improve_pct_to_switch = decimal 10 100
