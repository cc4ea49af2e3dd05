-- ===== src/Serializer/Clock.antt =====
-- wv_ipc/work_serializer.c: times as nanoseconds.
use dwpal.Common.{ℕ, ◌+◌, ◌*◌, ◌/◌, ◌^◌, ◌<◌, ◌≡◌, ◌↔◌, true, arith}
use dwpal.Serializer.{Timespec, is_before, add_time}

abbrev pub nanoseconds : Timespec → ℕ
nanoseconds t = t.sec * 1000000000 + t.nsec

abbrev pub IsNormal : Timespec → Type 0
IsNormal t = t.nsec < 1000000000

-- `_add_time_to_timespec` adds exactly `secs` seconds and `msecs` milliseconds and leaves fewer than 10^9
-- nanoseconds in the second field, if that held before and the `unsigned int` sum of seconds does not wrap.
pub add_time_lem :
    (t : Timespec) (secs msecs : ℕ)
    → IsNormal t
    → secs + msecs / 1000 < 2 ^ 32
    → (nanoseconds (add_time t secs msecs) ≡ nanoseconds t + secs * 1000000000 + msecs * 1000000)
      × IsNormal (add_time t secs msecs)
unfolding add_time
add_time_lem t secs msecs n h = ground arith

-- `_is_delayed_work_before` is the order of time on times with fewer than 10^9 nanoseconds in the second
-- field.
pub is_before_iff :
    (a b : Timespec)
    → IsNormal a
    → IsNormal b
    → (is_before a b ≡ true) ↔ (nanoseconds a < nanoseconds b)
unfolding is_before
is_before_iff a b na nb = (λ h. ground arith, λ h. ground arith)
