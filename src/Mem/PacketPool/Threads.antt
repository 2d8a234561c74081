-- ===== src/Mem/PacketPool/Threads.antt =====
-- A pool between its two threads, as include/alpha/mem/packet_pool.hpp recommends them: the one
-- acquires handles, the other releases those that clients hold, interleaved at each access of the
-- free list (src/alpha/mem/packet_pool.cpp, `acquire` and `release`, which are its `pop` and
-- `push`).
pub mod Places
use alpha_smart_router.Base.{ℕ, ◌≡◌, List, [], ◌∷◌, ◌++◌}
use alpha_smart_router.Mem.Spsc.{SpscQueue}
use alpha_smart_router.Mem.Spsc.Threads.{Producer, Consumer, Produce, Consume}
use alpha_smart_router.Mem.PacketPool.{copied}

-- The handle that the releasing thread is about to give back.
abbrev pub holding : Producer ℕ → List ℕ
holding Producer.resting = []
holding (Producer.loaded h t n) = h ∷ []
holding (Producer.granted h t n) = h ∷ []
holding (Producer.wrote h n) = h ∷ []

-- `freed` has the handles that were free at the start and then those released, `acquired` those that
-- were acquired, in their orders.
pub record Pool : Type 0 where
  pub ring : SpscQueue ℕ
  pub releasing : Producer ℕ
  pub acquiring : Consumer ℕ
  pub freed : List ℕ
  pub acquired : List ℕ
  pub clients : List ℕ

pub data Step (s : Pool) : Pool → Type 0 where
  -- an access of `acquire` other than the last of one that succeeds
  acquire_access :
      {q : SpscQueue ℕ} {c : Consumer ℕ}
      → Consume copied s.ring s.acquired s.acquiring q s.acquired c
      → Step s (record s { ring = q; acquiring = c })
  -- that last access: a client has the handle
  acquire_ends :
      {q : SpscQueue ℕ} {c : Consumer ℕ} {h : ℕ}
      → Consume copied s.ring s.acquired s.acquiring q (s.acquired ++ (h ∷ [])) c
      → Step s (record s {
        ring = q;
        acquiring = c;
        acquired = s.acquired ++ (h ∷ []);
        clients = h ∷ s.clients;
      })
  -- the first access of a `release` of a handle that a client has
  release_begins :
      {q : SpscQueue ℕ} {p : Producer ℕ} {h : ℕ} (l r : List ℕ)
      → s.clients ≡ l ++ (h ∷ r)
      → holding s.releasing ≡ []
      → Produce s.ring s.freed s.releasing q s.freed p
      → holding p ≡ h ∷ []
      → Step s (record s { ring = q; releasing = p; clients = l ++ r })
  -- an access in its middle
  release_access :
      {q : SpscQueue ℕ} {p : Producer ℕ}
      → Produce s.ring s.freed s.releasing q s.freed p
      → holding p ≡ holding s.releasing
      → Step s (record s { ring = q; releasing = p })
  -- its last access, when the free list is full: the client has the handle again
  release_fails :
      {q : SpscQueue ℕ} {p : Producer ℕ} {h : ℕ}
      → Produce s.ring s.freed s.releasing q s.freed p
      → holding s.releasing ≡ h ∷ []
      → holding p ≡ []
      → Step s (record s { ring = q; releasing = p; clients = h ∷ s.clients })
  -- its last access, when there is room
  release_ends :
      {q : SpscQueue ℕ} {p : Producer ℕ} {h : ℕ}
      → Produce s.ring s.freed s.releasing q (s.freed ++ (h ∷ [])) p
      → holding s.releasing ≡ h ∷ []
      → holding p ≡ []
      → Step s (record s { ring = q; releasing = p; freed = s.freed ++ (h ∷ []) })

-- Both threads outside a call, with the handles `free` on the list.
abbrev pub start : SpscQueue ℕ → (free held : List ℕ) → Pool
start ring free held = record {
  ring = ring;
  releasing = Producer.resting;
  acquiring = Consumer.resting;
  freed = free;
  acquired = [];
  clients = held;
}

pub data Reach (ring : SpscQueue ℕ) (free held : List ℕ) : Pool → Type 0 where
  here : Reach ring free held (start ring free held)
  next : {s t : Pool} → Reach ring free held s → Step s t → Reach ring free held t
