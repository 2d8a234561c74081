-- ===== src/Routing/PolicyBinding/Threads/Alone.antt =====
-- The writer's steps with nobody in between, beside the operations of the binding.
use alpha_smart_router.Base.{ℕ, Bool, ◌≡◌, refl}
use alpha_smart_router.Routing.PolicyBinding.{ChooseFn, PolicyBinding, publish_policy, clear_policy}
use alpha_smart_router.Routing.PolicyBinding.Threads.{
  Update, Writer, Shared, enter, store_first, store_second, leave, Reach, next,
}

module _ (class : ℕ → ChooseFn) where
  abbrev pub update : Update → PolicyBinding → PolicyBinding
  update (Update.publish policy) b = publish_policy b (class policy) policy
  update Update.clear b = clear_policy b

  -- From any state in which the writer is idle it can make an update, after which the binding is as
  -- the operation leaves it.
  pub Reach-update :
      {ordered : Bool} {seq : ℕ} {u0 : Update} {s : Shared} (u : Update)
      → Reach class ordered seq u0 s
      → s.writer ≡ Writer.idle
      → (t : Shared) × Reach class ordered seq u0 t
        × (t.binding ≡ update u s.binding)
        × (t.writer ≡ Writer.idle)
  unfolding publish_policy clear_policy
  Reach-update (Update.publish policy) r e = (
    _,
    next
        (next (next (next r (enter (Update.publish policy) e)) (store_first refl))
          (store_second refl))
        (leave refl),
    refl,
    refl,
  )
  Reach-update Update.clear r e = (
    _,
    next (next (next (next r (enter Update.clear e)) (store_first refl)) (store_second refl))
        (leave refl),
    refl,
    refl,
  )
