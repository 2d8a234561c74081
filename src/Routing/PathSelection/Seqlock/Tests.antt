-- ===== src/Routing/PathSelection/Seqlock/Tests.antt =====
-- A reader of a slot, after an update that it has seen to its end.
use alpha_smart_router.Base.{ℕ, ◌-◌, ◌^◌, ◌≡◌, ◌≢◌, refl, true, false, Option, none, some, arith}
use alpha_smart_router.Routing.PathSelection.{PathMetrics, default_metrics}
use alpha_smart_router.Routing.PathSelection.Seqlock.{
  Field, word, put, Writer, Reader, Shared, enter, write, publish, begin, read, accept, Reach, here,
  next,
}
use alpha_smart_router.Routing.PathSelection.Seqlock.Torn.{Reach-no_tear}
use alpha_smart_router.Routing.PathSelection.Seqlock.Unordered.{unordered_tears}

abbrev slow : PathMetrics
slow = record default_metrics { rtt_us = 300 }

abbrev fast : PathMetrics
fast = record default_metrics { rtt_us = 100 }

-- The one field that differs is written.
abbrev updated : Field → ℕ
updated = put (word slow) Field.rtt_us 100

updated-fast : (f : Field) → updated f ≡ word fast f
updated-fast Field.rtt_us = refl
updated-fast Field.one_way_delay_us = refl
updated-fast Field.loss_ppm = refl
updated-fast Field.avail_kbps = refl
updated-fast Field.qos_class = refl
updated-fast Field.healthy = refl

abbrev published : Shared
published = record {
  seq = 2;
  cells = updated;
  writer = Writer.idle;
  reader = Reader.trying 4;
  published = fast;
}

published-Reach : Reach true 0 slow published
published-Reach =
    next (next (next here (enter fast refl)) (write Field.rtt_us refl)) (publish refl updated-fast)

abbrev got : Field → Option ℕ
got =
    put
      (put
        (put
          (put (put (put (λ f. none) Field.healthy (some 0)) Field.qos_class (some 0))
            Field.avail_kbps (some 0))
          Field.loss_ppm (some 0))
        Field.one_way_delay_us (some (2 ^ 32 - 1)))
      Field.rtt_us (some 100)

abbrev checking : Shared
checking = record published { reader = Reader.reading 3 2 0 got }

checking-Reach : Reach true 0 slow checking
checking-Reach =
    next
      (next
        (next
          (next
            (next (next (next published-Reach (begin refl refl)) (read Field.healthy refl))
              (read Field.qos_class refl))
            (read Field.avail_kbps refl))
          (read Field.loss_ppm refl))
        (read Field.one_way_delay_us refl))
      (read Field.rtt_us refl)

got-all : (f : Field) → got f ≢ none
got-all Field.rtt_us e = cc
got-all Field.one_way_delay_us e = cc
got-all Field.loss_ppm e = cc
got-all Field.avail_kbps e = cc
got-all Field.qos_class e = cc
got-all Field.healthy e = cc

abbrev done : Shared
done = record published { reader = Reader.accepted 0 got fast }

done-Reach : Reach true 0 slow done
done-Reach = next checking-Reach (accept refl got-all refl refl)

Reach-no_tear_example : got Field.rtt_us ≡ some (word fast Field.rtt_us)
Reach-no_tear_example =
    Reach-no_tear 0 slow refl 0 got fast (omega arith) done-Reach refl (omega arith) Field.rtt_us

unordered_tears_example :
    (s : Shared) × (got : Field → Option ℕ) × Reach false 4 slow s
    × (s.reader ≡ Reader.accepted 0 got slow)
    × (got Field.rtt_us ≡ some 100)
    × ((g : Field) → g ≢ Field.rtt_us → got g ≡ some (word slow g))
unordered_tears_example = unordered_tears 4 slow fast Field.rtt_us refl
