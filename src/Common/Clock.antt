-- ===== src/Common/Clock.antt =====
-- `time.Time` as nanoseconds since Go's zero time, so that `IsZero` is a test for 0. Two instants
-- that differ by their location alone are one, and `UTC()` is the identity.
use Prim.Native.Nat.{ℕ, ◌+◌, ◌-◌, ◌*◌, ◌/◌}
use mathlib.Core.Bool.{Bool}
use ai_go.Common.Tests.{ltb, ◌==◌, if◌then◌else◌}
use ai_go.Common.Int.{ℤ, pos, negsuc, sub_ℕ, ltb_ℤ, pos_part, neg_part}

abbrev pub Time : Type 0
Time = ℕ

-- `time.Time{}`.
abbrev pub zero_time : Time
zero_time = 0

abbrev pub is_zero : Time → Bool
is_zero t = t == 0

-- `a.After(b)` and `a.Before(b)`.
abbrev pub after : Time → Time → Bool
after a b = ltb b a

abbrev pub before : Time → Time → Bool
before a b = ltb a b

-- An instant as MongoDB keeps it and as a filter compares it: in whole milliseconds, rounded down.
unfoldable pub stored_time : Time → Time
stored_time t = t / 1_000_000 * 1_000_000

-- `time.Second`, `time.Minute`, `time.Hour`.
abbrev pub second : ℕ
second = 1_000_000_000

abbrev pub minute : ℕ
minute = 60_000_000_000

abbrev pub hour : ℕ
hour = 3_600_000_000_000

-- `a.Sub(b)`: the difference, held to the range of `time.Duration`.
abbrev pub saturate : ℤ → ℤ
saturate d =
    if ltb_ℤ (pos 9223372036854775807) d
    then pos 9223372036854775807
    else if ltb_ℤ d (negsuc 9223372036854775807)
    then negsuc 9223372036854775807
    else d

abbrev pub sub_time : Time → Time → ℤ
sub_time a b = saturate (sub_ℕ a b)

-- `t.Add(d)`.
abbrev pub add_time : Time → ℤ → Time
add_time t d = t + pos_part d - neg_part d
