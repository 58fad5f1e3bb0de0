-- ===== src/Model/Instant.antt =====
-- What the model's records use of `time.Time` and `time.Duration` of the Go standard library.
use opendkim_manage_go.Prelude.{ℕ, ◌+◌, ◌-◌, ◌*◌, ◌^◌, Bool, true, ltb, ◌==◌, nat_eq, if◌then◌else◌}
use opendkim_manage_go.Prelude.Int.{ℤ, pos, pos_part, neg_part}

-- A time: nanoseconds since 2 ^ 63 seconds before the zero time, and whether its location is UTC.
pub record Time : Type 0 where
  pub instant : ℕ
  pub utc : Bool

abbrev pub zero_instant : ℕ
zero_instant = 2 ^ 63 * 1000000000

-- `time.Time{}`
abbrev pub zero_time : Time
zero_time = record { instant = zero_instant; utc = true }

-- `IsZero`
unfoldable pub is_zero : Time → Bool
is_zero t = t.instant == zero_instant

-- `Before`
unfoldable pub before : Time → Time → Bool
before t u = ltb t.instant u.instant

-- `After`
unfoldable pub after : Time → Time → Bool
after t u = ltb u.instant t.instant

-- `Equal`
unfoldable pub same_instant : Time → Time → Bool
same_instant t u = t.instant == u.instant

-- The largest `time.Duration`.
abbrev pub max_duration : ℕ
max_duration = 2 ^ 63 - 1

-- `t.Sub(u)` for a `t` that is not before `u`: the difference, at most the largest duration.
unfoldable pub since : Time → Time → ℤ
since t u = let d = t.instant - u.instant in if ltb max_duration d then pos max_duration else pos d

-- `t.Add(d)`, inside the range of times.
unfoldable pub add : Time → ℤ → Time
add t d = record { instant = t.instant + pos_part d - neg_part d; utc = t.utc }
