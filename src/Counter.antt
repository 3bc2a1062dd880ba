-- ===== src/Counter.antt =====
-- counter.c: a counter that runs through [min, max) again and again. `unsigned long` has 64 bits.
-- The mutex makes each call one step; it has no other effect and is left out.
pub mod Cycle
mod Tests
use bflib.Base.{ℕ, ◌+◌, ◌-◌, ◌%◌, ◌^◌, if◌then◌else◌, leb, ◌==◌}

pub record Counter : Type 0 where
  pub n : ℕ
  pub min : ℕ
  pub max : ℕ

abbrev pub counter_min : ℕ
counter_min = 0

abbrev pub counter_max : ℕ
counter_max = 2 ^ 64 - 1

unfoldable pub counter_create : Counter
counter_create = record { n = counter_min; min = counter_min; max = counter_max }

-- the value returned, and the counter afterwards
unfoldable pub counter_next : Counter → ℕ × Counter
counter_next c =
    let next = if leb c.max c.n then c.min else c.n in (next, record c { n = (next + 1) % 2 ^ 64 })

abbrev pub ctl_min : ℕ
ctl_min = 0x01

abbrev pub ctl_max : ℕ
ctl_max = 0x02

abbrev pub ctl_current : ℕ
ctl_current = 0x04

unfoldable pub counter_ctl : Counter → ℕ → ℕ → Counter
counter_ctl c opt value =
    if opt == ctl_min
    then record c { min = value }
    else if opt == ctl_max
    then record c { max = value }
    else if opt == ctl_current
    then record c { n = value }
    else c

unfoldable pub counter_reset : Counter → Counter
unfolding counter_ctl
counter_reset c = counter_ctl c ctl_min c.min
