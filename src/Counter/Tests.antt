-- ===== src/Counter/Tests.antt =====
-- Runs of counter.c, and its theorems at a counter of three places.
use bflib.Base.{◌+◌, ◌-◌, ◌%◌, ◌≡◌, refl, arith}
use bflib.Counter.{Counter, counter_next}
use bflib.Counter.Cycle.{after, counter_next-after}

abbrev small : Counter
small = record { n = 5; min = 3; max = 6 }

wraps : (counter_next (counter_next small).1).0 ≡ 3
unfolding counter_next
wraps = refl

counter_next-after_example : (counter_next (after 5 small)).0 ≡ 3 + (5 - 3 + 5) % (6 - 3)
counter_next-after_example = counter_next-after 5 small (omega arith)
