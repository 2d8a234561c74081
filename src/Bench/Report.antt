-- ===== src/Bench/Report.antt =====
-- What `run_one` of benchmarks/src/spsc_bench.cpp reports of a run.
use alpha_smart_router.Base.{ℕ, ◌≡◌, refl, false, if◌then◌else◌, Text}
use alpha_smart_router.Routing.Doubles.{Doubles, Ordered}

module _ (d : Doubles) where
  open d use {Double, gt, mul, div, of_nat}

  pub record Result : Type 0 where
    pub name : Text
    pub n : ℕ
    pub seconds : Double
    pub items_per_s : Double
    pub ops_per_s : Double
    pub ns_per_pair : Double

  -- The end of `run_one`, with the nanoseconds from `t_start` to `t_end`.
  unfoldable pub report : (name : Text) (n elapsed_ns : ℕ) → Result
  report name n elapsed_ns =
      let seconds = div (of_nat elapsed_ns) (of_nat 1000000000) in
      let items_per_s = if gt seconds (of_nat 0) then div (of_nat n) seconds else of_nat 0 in
      record {
        name = name;
        n = n;
        seconds = seconds;
        items_per_s = items_per_s;
        ops_per_s = mul (of_nat 2) items_per_s;
        ns_per_pair =
            if gt items_per_s (of_nat 0) then div (of_nat 1000000000) items_per_s else of_nat 0;
      }

  -- A run that took no time that the clock can tell has no rates, and divides by nothing.
  pub report_instant :
      (name : Text) (n elapsed_ns : ℕ)
      → Ordered d
      → gt (div (of_nat elapsed_ns) (of_nat 1000000000)) (of_nat 0) ≡ false
      → ((report name n elapsed_ns).items_per_s ≡ of_nat 0)
        × ((report name n elapsed_ns).ns_per_pair ≡ of_nat 0)
  unfolding report
  report_instant name n elapsed_ns o none_passed =
      rw (none_passed, o.gt_irrefl (of_nat 0)) (refl, refl)
