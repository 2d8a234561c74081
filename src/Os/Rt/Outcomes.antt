-- ===== src/Os/Rt/Outcomes.antt =====
-- What a call of `bind_and_prioritize` leaves of the thread, when it succeeds and when it fails.
use alpha_smart_router.Base.{
  ℕ, ◌≡◌, ◌⊎◌, inl, inr, refl, ◌∙◌, sym, ap, Bool, true, false, ◌==◌, arith, Bool-cases,
}
use alpha_smart_router.Os.Rt.{
  ℤ, pos, negsuc, RtConfig, Pthread, Documented, class_of, set_sched, and_sched,
}
use alpha_smart_router.Os.Rt.Linux
use alpha_smart_router.Os.Rt.Qnx

module _ (p : Pthread) (docs : Documented p) where
  open p use {Thread, Mask, cpu_zero, cpu_set, setaffinity, setschedparam, affinity, scheduling}

  -- Where the thread is asked to run.
  abbrev pub asked : ℤ → Thread → Mask
  asked (negsuc n) t = affinity t
  asked (pos cpu) t = cpu_set cpu cpu_zero

  -- Real-time as asked and where it is asked; or, after a failure, as urgent as before, and where it
  -- was or where it is asked.
  abbrev pub Outcome : ℤ → RtConfig → Thread → Bool × Thread → Type 0
  Outcome cpu cfg t (true, t') =
      (affinity t' ≡ asked cpu t) × (scheduling t' ≡ (class_of p cfg.policy, cfg.priority))
  Outcome cpu cfg t (false, t') =
      (scheduling t' ≡ scheduling t) × ((affinity t' ≡ affinity t) ⊎ (affinity t' ≡ asked cpu t))

  -- After the affinity.
  sched-Outcome :
      (cpu : ℤ) (cfg : RtConfig) (t t1 : Thread)
      → affinity t1 ≡ asked cpu t
      → scheduling t1 ≡ scheduling t
      → Outcome cpu cfg t (set_sched p cfg.policy cfg.priority t1)
  unfolding set_sched
  sched-Outcome cpu cfg t t1 placed same =
      let error = (setschedparam (class_of p cfg.policy) cfg.priority t1).0 in
      elim (Bool-cases (error == 0)) [
        | inl done ↦ rw done (
          docs.scheduling_only _ cfg.priority t1 ∙ placed,
          docs.scheduling_set _ cfg.priority t1 (ground arith),
        )
        | inr fails ↦
            let stays = docs.scheduling_fails _ cfg.priority t1 (ground arith) in
            rw fails (ap scheduling stays ∙ same, inr (ap affinity stays ∙ placed))
      ]

  linux_at :
      (cpu : ℤ) (cfg : RtConfig) (t : Thread)
      → Outcome cpu cfg t (and_sched p cfg (Linux.set_affinity p cpu t))
  unfolding Linux.set_affinity and_sched
  linux_at (negsuc n) cfg t = sched-Outcome (negsuc n) cfg t t refl refl
  linux_at (pos cpu) cfg t =
      let mask = cpu_set cpu cpu_zero in
      elim (Bool-cases ((setaffinity mask t).0 == 0)) [
        | inl done ↦ rw done (
            sched-Outcome (pos cpu) cfg t _ (docs.affinity_set mask t (ground arith))
              (docs.affinity_only mask t))
        | inr fails ↦
            let stays = docs.affinity_fails mask t (ground arith) in
            rw fails (ap scheduling stays, inl (ap affinity stays))
      ]

  -- The thread library does what its manual says. On Linux, a call that returns true has made the
  -- thread real-time with the policy and the priority of the configuration, on the processor that it
  -- names, or where the thread was if it names none. A call that returns false leaves the thread's
  -- scheduling as it was; the thread stays where it was or is already on the processor.
  pub linux-Outcome :
      (cfg : RtConfig) (t : Thread) → Outcome cfg.cpu cfg t (Linux.bind_and_prioritize p cfg t)
  unfolding Linux.bind_and_prioritize
  linux-Outcome cfg t = linux_at cfg.cpu cfg t

module _ (p : Pthread) where
  open p use {Thread}

  -- On QNX a call that names a processor fails and changes nothing, and a call that names none does
  -- what it does on Linux.
  pub qnx_outcome :
      (cfg : RtConfig) (t : Thread)
      → ((cpu : ℕ) → cfg.cpu ≡ pos cpu → Qnx.bind_and_prioritize p cfg t ≡ (false, t))
        × ((n : ℕ)
            → cfg.cpu ≡ negsuc n
            → Qnx.bind_and_prioritize p cfg t ≡ Linux.bind_and_prioritize p cfg t)
  unfolding Qnx.bind_and_prioritize Linux.bind_and_prioritize
  qnx_outcome cfg t = (
    λ cpu e. ap (λ (c : ℤ). and_sched p cfg (Qnx.set_affinity p c t)) e,
    λ n e.
        ap (λ (c : ℤ). and_sched p cfg (Qnx.set_affinity p c t)) e
        ∙ sym (ap (λ (c : ℤ). and_sched p cfg (Linux.set_affinity p c t)) e),
  )
