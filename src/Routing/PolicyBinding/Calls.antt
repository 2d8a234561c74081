-- ===== src/Routing/PolicyBinding/Calls.antt =====
-- What a call through a binding does.
use alpha_smart_router.Base.{
  ℕ, zero, suc, ◌+◌, ◌%◌, ◌≡◌, refl, ◌∙◌, bit_or, true, false, Option, none, some, List, arith,
  ◌==◌, if◌then◌else◌, bit_and-one, bit_or-one,
}
use alpha_smart_router.Routing.PathSelection.{CandidateRef, PacketContext, u32_mod}
use alpha_smart_router.Routing.PolicyBinding.{
  Policy, thunk_of, select_static, choose_thunk, Memory, put, PolicyBinding, publish_policy,
  clear_policy, both, attempt, snapshot_binding, call, select_path, choose,
}

attempt_lem :
    (rounds : ℕ) (b : PolicyBinding)
    → attempt (suc rounds) b
      ≡ (if b.seq % 2 == 0 then (both b.fn b.state, b.fn, b.state) else (false, none, none))
unfolding attempt
attempt_lem zero b = ground (arith, bit_and-one b.seq)
attempt_lem (suc rounds) b = ground (arith, bit_and-one b.seq, attempt_lem rounds b)

thunk_of-fits :
    (p : Policy) (cands : List CandidateRef) (pkt : PacketContext)
    → choose_thunk (thunk_of p) p cands pkt ≡ select_static p cands pkt
unfolding choose_thunk select_static
thunk_of-fits (Policy.round_robin idx) cands pkt = refl
thunk_of-fits (Policy.flow_hash skip) cands pkt = refl
thunk_of-fits (Policy.latency_aware cfg salt) cands pkt = refl

pub published_even : (seq : ℕ) → ((bit_or seq 1 + 1) % u32_mod % 2 == 0) ≡ true
published_even seq = ground (arith, bit_or-one seq)

-- A call through a stable binding.
pub select-stable :
    (b : PolicyBinding) (memory : Memory) (cands : List CandidateRef) (pkt : PacketContext)
    → (b.seq % 2 == 0) ≡ true
    → select_path b memory cands pkt
      ≡ (if both b.fn b.state then call b.fn b.state memory cands pkt else some (0, memory))
unfolding select_path snapshot_binding
select-stable b memory cands pkt even = rw (attempt_lem 3 b, even) refl

-- A result of `select_static` of the object at `a`, with the object written back.
abbrev pub write_back : Memory → ℕ → Option (ℕ × Policy) → Option (ℕ × Memory)
write_back memory a none = none
write_back memory a (some (id, p)) = some (id, put memory a p)

pub call_lem :
    (memory : Memory) (a : ℕ) (p : Policy) (cands : List CandidateRef) (pkt : PacketContext)
    → memory a ≡ some p
    → call (some (thunk_of p)) (some a) memory cands pkt
      ≡ write_back memory a (select_static p cands pkt)
unfolding call
call_lem memory a p cands pkt there =
    rw (there, call) (rw (thunk_of-fits p cands pkt, call) (ground arith))

-- Whatever was bound before, also by a writer that never finished: once the object at `a` is
-- published at its own class, a call through the binding is a call of that object, as if it were
-- bound at compile time, and all other objects stay as they are.
pub select-publish :
    (b : PolicyBinding) (memory : Memory) (a : ℕ) (p : Policy) (cands : List CandidateRef)
    (pkt : PacketContext)
    → memory a ≡ some p
    → select_path (publish_policy b (thunk_of p) a) memory cands pkt
      ≡ write_back memory a (select_static p cands pkt)
unfolding publish_policy
select-publish b memory a p cands pkt there =
    select-stable (publish_policy b (thunk_of p) a) memory cands pkt (published_even b.seq)
    ∙ call_lem memory a p cands pkt there

-- A call chooses no path, which it answers by 0, and no policy runs, if the binding is cleared, or
-- its sequence number is odd, or one of its pointers is null, or the worker has no binding.
pub choose_nothing :
    (b : PolicyBinding) (memory : Memory) (cands : List CandidateRef) (pkt : PacketContext)
    → (select_path (clear_policy b) memory cands pkt ≡ some (0, memory))
      × (b.seq % 2 ≡ 1 → select_path b memory cands pkt ≡ some (0, memory))
      × (both b.fn b.state ≡ false → select_path b memory cands pkt ≡ some (0, memory))
      × (choose none memory cands pkt ≡ some (0, memory))
unfolding clear_policy choose select_path snapshot_binding
choose_nothing b memory cands pkt = (
  select-stable (clear_policy b) memory cands pkt (published_even b.seq),
  λ odd. rw (attempt_lem 3 b) (ground arith),
  λ null. rw (attempt_lem 3 b) (ground arith),
  refl,
)
