-- ===== src/Time.antt =====
-- `datetime`, as the program uses it: an instant is a number of microseconds; a timestamp
-- either carries a zone or does not. Durations (`timedelta`) are signed microseconds.
use crypt_tool.Base.{ℕ}
use crypt_tool.Base.Int.{ℤ, sub_ℕ}
use crypt_tool.Base.Results.{value_error, Result, ok, err}

-- What is aware is kept as the instant that it names, in UTC.
pub data Timestamp : Type 0 where
  aware : ℕ → Timestamp
  naive : ℕ → Timestamp

-- `_utc(value)`: a timestamp without a zone is refused.
unfoldable pub utc : Timestamp → Result ℕ
utc (aware t) = ok t
utc (naive t) = err (value_error "timestamp must be timezone-aware")

-- `later - earlier`.
abbrev pub elapsed : ℕ → ℕ → ℤ
elapsed later earlier = sub_ℕ later earlier
