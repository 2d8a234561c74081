-- ===== src/Config/Loader.antt =====
-- `Loader` of include/alpha/config/config_loader.hpp and src/alpha/config/config_loader.cpp.
pub mod Defaults
mod Tests
use alpha_smart_router.Base.{ℕ, List, [], ◌∷◌, Text}
use alpha_smart_router.Routing.Doubles.{Doubles}
use alpha_smart_router.Routing.QosPolicy.{
  QosClass, bulk, best_effort, interactive, realtime, QosThresholds, QosWeights, QosConfig,
}
use alpha_smart_router.Routing.FailoverPolicy.{FailoverConfig}
use alpha_smart_router.Routing.IngressSelector
use alpha_smart_router.Routing.IngressSelector.{IngressConfig}
use alpha_smart_router.Config.Constants.{
  dscp_be, dscp_cs1, dscp_af31, dscp_ef, qos_bulk_max_lat_us, qos_bulk_max_jitter_us,
  qos_be_max_lat_us, qos_be_max_jitter_us, qos_int_max_lat_us, qos_int_max_jitter_us,
  qos_rt_max_lat_us, qos_rt_max_jitter_us, failover_return_to_primary, failover_min_hold_ms,
  failover_recovery_hold_ms, decimal, qos_bulk_max_loss, qos_be_max_loss, qos_int_max_loss,
  qos_rt_max_loss, qos_weight_latency, qos_weight_jitter, qos_weight_loss,
  failover_improve_pct_to_switch,
}

module _ (d : Doubles) where
  -- `QoSThresholds{}`
  abbrev pub default_thresholds : QosThresholds d
  default_thresholds = record {
    max_latency_us = 10000;
    max_jitter_us = 5000;
    max_loss = decimal d 1 100;
  }

  unfoldable pub default_qos : QosConfig d
  default_qos = record {
    thresholds_by_class =
        (
          bulk,
          record {
            max_latency_us = qos_bulk_max_lat_us;
            max_jitter_us = qos_bulk_max_jitter_us;
            max_loss = qos_bulk_max_loss d;
          },
        )
        ∷ (
          best_effort,
          record {
            max_latency_us = qos_be_max_lat_us;
            max_jitter_us = qos_be_max_jitter_us;
            max_loss = qos_be_max_loss d;
          },
        )
        ∷ (
          interactive,
          record {
            max_latency_us = qos_int_max_lat_us;
            max_jitter_us = qos_int_max_jitter_us;
            max_loss = qos_int_max_loss d;
          },
        )
        ∷ (
          realtime,
          record {
            max_latency_us = qos_rt_max_lat_us;
            max_jitter_us = qos_rt_max_jitter_us;
            max_loss = qos_rt_max_loss d;
          },
        )
        ∷ [];
    default_thresholds = default_thresholds;
    weights = record {
      latency = qos_weight_latency d;
      jitter = qos_weight_jitter d;
      loss = qos_weight_loss d;
    };
    dscp_by_class =
        (bulk, dscp_cs1)
        ∷ (best_effort, dscp_be)
        ∷ (interactive, dscp_af31)
        ∷ (realtime, dscp_ef)
        ∷ [];
  }

  -- `FailoverConfig{}`
  abbrev pub default_failover : FailoverConfig d
  default_failover = record {
    primary_path_id = [];
    return_to_primary = failover_return_to_primary;
    improve_pct_to_switch = failover_improve_pct_to_switch d;
    min_hold_ms = failover_min_hold_ms;
    recovery_hold_ms = failover_recovery_hold_ms;
  }

  pub record RouterConfig : Type 0 where
    pub qos : QosConfig d
    pub failover : FailoverConfig d
    pub ingress : IngressConfig

  -- `Loader::load_from_file`, which reads no file.
  unfoldable pub load_from_file : Text → RouterConfig
  unfolding default_qos
  load_from_file path = record {
    qos = default_qos;
    failover = default_failover;
    ingress = IngressSelector.default_config;
  }
