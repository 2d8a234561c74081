-- ===== src/Mem/PacketPool/Threads/Places.antt =====
-- Where the handles of a pool are while its two threads are at work.
use alpha_smart_router.Base.{
  ℕ, ◌+◌, ◌*◌, ◌%◌, ◌≢◌, get_elem?, ◌≡◌, refl, ◌∙◌, sym, ap, ap₂, subst, List, [], ◌∷◌, ◌++◌, arith,
  length, length-append,
}
use mathlib.Core.List.{Nodup, Perm, append-nil, append_assoc, append_cancel_left, perm_middle}
use mathlib.Core.List.Perm
use alpha_smart_router.Mem.Spsc.{SpscQueue}
use alpha_smart_router.Mem.Spsc.Invariant.{Frame, tail_next-ne-head}
use alpha_smart_router.Mem.Spsc.Threads.{Producer, Consumer}
use alpha_smart_router.Mem.Spsc.Threads.Invariant.{in_hand, taken, Inv}
use alpha_smart_router.Mem.Spsc.Threads.ProducerSteps.{Produce-Inv}
use alpha_smart_router.Mem.Spsc.Threads.ConsumerSteps.{Consume-Inv}
use alpha_smart_router.Mem.Spsc.Threads.Linear.{length-in_hand, Produce-capacity, Consume-capacity}
use alpha_smart_router.Mem.PacketPool.{PacketPool, copied}
use alpha_smart_router.Mem.PacketPool.Create.{handles, length-handles}
use alpha_smart_router.Mem.PacketPool.Owners.{Owns, handles-Nodup, length-perm}
use alpha_smart_router.Mem.PacketPool.Threads.{
  holding, Pool, Step, acquire_access, acquire_ends, release_begins, release_access, release_fails,
  release_ends, start, Reach, here, next,
}

acquired_moves :
    (after held clients : List ℕ) (h : ℕ)
    → Perm (after ++ (held ++ (h ∷ clients))) ((h ∷ after) ++ (held ++ clients))
acquired_moves after held clients h =
    subst (λ l. Perm l ((h ∷ after) ++ (held ++ clients))) (append_assoc after held (h ∷ clients))
      (subst (λ l. Perm ((after ++ held) ++ (h ∷ clients)) (h ∷ l))
        (append_assoc after held clients) (perm_middle (after ++ held) clients))

module _ (all : List ℕ) where
  -- The handles that are free, `free`, that one which is being released and those that clients have
  -- are all of them.
  abbrev Places : Pool → (free : List ℕ) → Type 0
  Places s free = Perm (free ++ (holding s.releasing ++ s.clients)) all

  record Good (s : Pool) : Type 0 where
    rest : List ℕ
    inv : Inv s.ring s.freed s.acquired s.releasing s.acquiring rest
    free : List ℕ
    split : s.freed ≡ s.acquired ++ free
    places : Places s free

  -- What is free is what has been freed and not yet acquired.
  Inv-split :
      (q : SpscQueue ℕ) (freed acquired rest : List ℕ) (p : Producer ℕ) (c : Consumer ℕ)
      → Inv q freed acquired p c rest
      → freed ≡ acquired ++ (in_hand c ++ rest)
  Inv-split q freed acquired rest p c inv = inv.split

  taken-free :
      (freed acquired free after : List ℕ) (h : ℕ)
      → freed ≡ acquired ++ free
      → freed ≡ (acquired ++ (h ∷ [])) ++ after
      → free ≡ h ∷ after
  taken-free freed acquired free after h before later =
      append_cancel_left acquired free (h ∷ after)
        (sym before ∙ later ∙ append_assoc acquired (h ∷ []) after)

  Step-Good : {s t : Pool} → Step s t → Good s → Good t
  Step-Good {s} (acquire_access m) g =
      let (rest, inv) = Consume-Inv copied _ _ _ s.releasing g.rest m g.inv in
      record { rest = rest; inv = inv; free = g.free; split = g.split; places = g.places }
  Step-Good {s} (acquire_ends {q} {c} {h} m) g =
      let (rest, inv) = Consume-Inv copied _ _ _ s.releasing g.rest m g.inv in
      let after = in_hand c ++ rest in
      let first = taken-free s.freed s.acquired g.free after h g.split inv.split in
      record {
        rest = rest;
        inv = inv;
        free = after;
        split = inv.split;
        places =
            Perm.trans (acquired_moves after (holding s.releasing) s.clients h)
              (subst (λ l. Perm (l ++ (holding s.releasing ++ s.clients)) all) first g.places);
      }
  Step-Good {s} (release_begins {q} {p} {h} l r e none_held m held) g =
      let (rest, inv) = Produce-Inv _ _ _ s.acquiring g.rest m g.inv in
      record {
        rest = rest;
        inv = inv;
        free = g.free;
        split = g.split;
        places =
            subst (λ x. Perm (g.free ++ (x ++ (l ++ r))) all) (sym held)
              (Perm.trans (Perm.append_left g.free (Perm.symm (perm_middle l r)))
                (subst (λ x. Perm (g.free ++ x) all) (ap₂ ◌++◌ none_held e) g.places));
      }
  Step-Good {s} (release_access m same) g =
      let (rest, inv) = Produce-Inv _ _ _ s.acquiring g.rest m g.inv in
      record {
        rest = rest;
        inv = inv;
        free = g.free;
        split = g.split;
        places = subst (λ l. Perm (g.free ++ (l ++ s.clients)) all) (sym same) g.places;
      }
  Step-Good {s} (release_fails {q} {p} {h} m held none_held) g =
      let (rest, inv) = Produce-Inv _ _ _ s.acquiring g.rest m g.inv in
      record {
        rest = rest;
        inv = inv;
        free = g.free;
        split = g.split;
        places =
            subst (λ x. Perm (g.free ++ (x ++ (h ∷ s.clients))) all) (sym none_held)
              (subst (λ x. Perm (g.free ++ (x ++ s.clients)) all) held g.places);
      }
  Step-Good {s} (release_ends {q} {p} {h} m held none_held) g =
      let (rest, inv) = Produce-Inv _ _ _ s.acquiring g.rest m g.inv in
      record {
        rest = rest;
        inv = inv;
        free = g.free ++ (h ∷ []);
        split = ap (λ l. l ++ (h ∷ [])) g.split ∙ append_assoc s.acquired g.free (h ∷ []);
        places =
            subst (λ x. Perm ((g.free ++ (h ∷ [])) ++ (x ++ s.clients)) all) (sym none_held)
              (subst (λ x. Perm x all) (sym (append_assoc g.free (h ∷ []) s.clients))
                (subst (λ x. Perm (g.free ++ (x ++ s.clients)) all) held g.places));
      }

-- All the handles of a pool.
abbrev pub every : PacketPool → List ℕ
every pool = handles pool.capacity 0

module _ (pool : PacketPool) (held : List ℕ) (owns : Owns pool held) where
  start-Good : Good (every pool) (start pool.free_ring owns.free held)
  start-Good = record {
    rest = owns.free;
    inv = record {
      split = refl;
      frame = subst (Frame pool.free_ring) (omega arith) owns.listed.frame;
      cells = λ i w there.
          ap
            (λ (j : ℕ).
              get_elem? pool.free_ring.buf ((pool.free_ring.head + j) % pool.free_ring.capacity))
            (omega arith)
          ∙ owns.listed.cells i w (rw append-nil at there);
      producer = tt;
      consumer = tt;
    };
    free = owns.free;
    split = refl;
    places = owns.shared;
  }

  Reach-Good : {s : Pool} → Reach pool.free_ring owns.free held s → Good (every pool) s
  Reach-Good here = start-Good
  Reach-Good (next r st) = Step-Good (every pool) st (Reach-Good r)

  Step-capacity : {s t : Pool} → Step s t → t.ring.capacity ≡ s.ring.capacity
  Step-capacity (acquire_access m) = Consume-capacity copied m
  Step-capacity (acquire_ends m) = Consume-capacity copied m
  Step-capacity (release_begins l r e none_held m is_held) = Produce-capacity m
  Step-capacity (release_access m same) = Produce-capacity m
  Step-capacity (release_fails m is_held none_held) = Produce-capacity m
  Step-capacity (release_ends m is_held none_held) = Produce-capacity m

  Reach-capacity :
      {s : Pool} → Reach pool.free_ring owns.free held s → s.ring.capacity ≡ pool.capacity * 2
  Reach-capacity here = owns.sized
  Reach-capacity (next r st) = Step-capacity st ∙ Reach-capacity r

  -- Of a pool whose clients hold the handles `held`, the rest being free, and whatever the
  -- interleaving of the thread that acquires and the one that releases what clients have: at (every pool)
  -- moment each handle is in one place. It is free, which is to have been freed and not yet
  -- acquired, or the one that is being released, or with a client; and none is in two places, nor
  -- twice in one.
  pub Reach-places :
      {s : Pool}
      → Reach pool.free_ring owns.free held s
      → (free : List ℕ) × (s.freed ≡ s.acquired ++ free)
        × Perm (free ++ (holding s.releasing ++ s.clients)) (every pool)
        × Nodup (free ++ (holding s.releasing ++ s.clients))
  Reach-places r =
      let g = Reach-Good r in
      (
        g.free,
        g.split,
        g.places,
        Perm.nodup (Perm.symm g.places) (handles-Nodup pool.capacity 0 (omega (arith, owns.small))),
      )

  length-free :
      (s : Pool) (g : Good (every pool) s) → taken s.acquiring + length g.rest ≡ length g.free
  length-free s g =
      sym (length-in_hand s.acquiring g.rest)
      ∙ ap (length {A = ℕ}) (
          append_cancel_left s.acquired (in_hand s.acquiring ++ g.rest) g.free
            (sym g.inv.split ∙ g.split))

  room :
      (s : Pool) (g : Good (every pool) s) (h t n : ℕ)
      → s.ring.capacity ≡ pool.capacity * 2
      → s.releasing ≡ Producer.loaded h t n
      → n ≢ s.ring.head
  room s g h t n sized e full =
      let inv : Inv s.ring s.freed s.acquired (Producer.loaded h t n) s.acquiring g.rest =
        subst (λ p. Inv s.ring s.freed s.acquired p s.acquiring g.rest) e g.inv in
      let places : Perm (g.free ++ ((h ∷ []) ++ s.clients)) (every pool) =
        subst (λ p. Perm (g.free ++ (holding p ++ s.clients)) (every pool)) e g.places in
      let counted : length g.free + (1 + length s.clients) ≡ pool.capacity = omega (
        arith,
        length-append g.free (h ∷ s.clients),
        length-perm places,
        length-handles pool.capacity 0,
      ) in
      tail_next-ne-head s.ring _ inv.frame (omega (arith, length-free s g, sized, counted))
        (sym inv.producer.1 ∙ full)

  -- Of such a pool no `release` finds the free list full, so that it fails, whatever the
  -- interleaving.
  pub Reach-room :
      {s : Pool}
      → Reach pool.free_ring owns.free held s
      → (h t n : ℕ) → s.releasing ≡ Producer.loaded h t n
      → n ≢ s.ring.head
  Reach-room {s} r h t n e = room s (Reach-Good r) h t n (Reach-capacity r) e
