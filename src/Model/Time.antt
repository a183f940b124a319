-- ===== src/Model/Time.antt =====
-- Instants and durations of Go's package time, as far as internal/ uses them: an instant is a
-- number of seconds from 1970 with the nanoseconds behind it, a duration is in nanoseconds.
use sugi.Base.{
  ℕ, ◌+◌, ◌%◌, leb, not, ◌||◌, ◌-◌, ◌*◌, ◌/◌, ◌^◌, suc, ltb, ◌==◌, ◌&&◌, Bool, if◌then◌else◌,
}
use sugi.Base.Int.{ℤ, pos, negsuc, neg_part, ◌+ℤ◌, ◌-ℤ◌, sub_ℕ, ltb_ℤ}

pub record Instant : Type 0 where
  pub sec : ℤ
  pub nsec : ℕ

abbrev pub Duration : Type 0
Duration = ℤ

abbrev pub scale : ℕ → ℤ → ℤ
scale k (pos n) = pos (k * n)
scale k (negsuc n) = negsuc (k * suc n - 1)

-- `t.UnixMilli()`.
unfoldable pub unix_milli : Instant → ℤ
unix_milli t = scale 1000 t.sec +ℤ pos (t.nsec / 1000000)

-- `time.Time{}`, the first second of the year 1.
abbrev pub zero_time : Instant
zero_time = record { sec = negsuc 62135596799; nsec = 0 }

abbrev pub millisecond : ℕ
millisecond = 1000000

abbrev pub second : ℕ
second = 1000000000

abbrev pub hour : ℕ
hour = 3600 * second

-- A signed 64-bit result that is cut at the ends of its range.
abbrev pub saturate : ℤ → ℤ
saturate (pos n) = if ltb n (2 ^ 63) then pos n else pos (2 ^ 63 - 1)
saturate (negsuc n) = if ltb n (2 ^ 63) then negsuc n else negsuc (2 ^ 63 - 1)

-- `t.Sub(u)`; the two readings that an instant has, of the wall clock and of the monotonic clock,
-- agree here.
unfoldable pub time_sub : Instant → Instant → Duration
time_sub t u = saturate (scale second (t.sec -ℤ u.sec) +ℤ sub_ℕ t.nsec u.nsec)

-- `t.IsZero()`.
unfoldable pub is_zero_time : Instant → Bool
is_zero_time t = (neg_part t.sec == 62135596800) && (t.nsec == 0)

-- `t.After(u)`.
unfoldable pub time_after : Instant → Instant → Bool
time_after t u = ltb_ℤ u.sec t.sec || not (ltb_ℤ t.sec u.sec) && ltb u.nsec t.nsec

-- `t.Add(d)`: nanoseconds beyond a second are carried over, or borrowed.
unfoldable pub time_add : Instant → Duration → Instant
time_add t (pos n) = record {
  sec = t.sec +ℤ pos ((t.nsec + n) / second);
  nsec = (t.nsec + n) % second;
}
time_add t (negsuc n) =
    let borrowed = (suc n + second - 1 - t.nsec) / second in
    if leb (suc n) t.nsec
    then record { sec = t.sec; nsec = t.nsec - suc n }
    else record { sec = t.sec -ℤ pos borrowed; nsec = t.nsec + borrowed * second - suc n }

-- `time.UnixMilli(ms)`: milliseconds before 1970 are rounded down to a second.
unfoldable pub from_unix_milli : ℤ → Instant
from_unix_milli (pos n) = record { sec = pos (n / 1000); nsec = n % 1000 * millisecond }
from_unix_milli (negsuc n) = record {
  sec = negsuc (n / 1000);
  nsec = (999 - n % 1000) * millisecond;
}

-- `-d`, which wraps around at the least of the 64-bit numbers.
abbrev pub negate : Duration → Duration
negate (pos n) = if n == 0 then pos 0 else negsuc (n - 1)
negate (negsuc n) = if n == 2 ^ 63 - 1 then negsuc n else pos (suc n)
