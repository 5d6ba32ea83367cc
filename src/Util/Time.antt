-- ===== src/Util/Time.antt =====
-- libserver/util/Util: the packed dates of the protocol. A count of seconds since 1970 or a duration
-- in seconds is a natural number, so times before 1970 and negative durations are left out; so are
-- negative fields of a DateTime. A left shift drops what passes 32 bits.
pub mod Packing
use Prim.Native.Nat.{bit_or}
use alicia_server.Common.{ℕ, ◌+◌, ◌-◌, ◌*◌, ◌/◌, ◌%◌, ◌^◌, min}

pub record WinFileTime : Type 0 where
  pub low_date_time : ℕ
  pub high_date_time : ℕ

pub record DateTime : Type 0 where
  pub years : ℕ
  pub months : ℕ
  pub days : ℕ
  pub hours : ℕ
  pub minutes : ℕ
  pub seconds : ℕ

-- TimePointToFileTime, in 64-bit arithmetic, from the seconds since 1970, rounded up.
unfoldable pub time_point_to_file_time : ℕ → WinFileTime
time_point_to_file_time seconds =
    let total_time = (seconds + 11_644_473_600) % 2 ^ 64 in
    let file_time = total_time * 10_000_000 % 2 ^ 64 in
    record { low_date_time = file_time % 2 ^ 32; high_date_time = file_time / 2 ^ 32 % 2 ^ 32 }

unfoldable pub date_time_to_alicia_time : DateTime → ℕ
date_time_to_alicia_time t =
    bit_or
      (bit_or
        (bit_or (bit_or (min t.years 4095) (min t.months 15 * 2 ^ 12))
          (min t.days 31 * 2 ^ (12 + 4)))
        (min t.hours 31 * 2 ^ (12 + 4 + 5)))
      (min t.minutes 63 * 2 ^ (12 + 4 + 5 + 5) % 2 ^ 32)

-- The lengths that std::chrono gives a year, a month, a day and an hour, in seconds.
abbrev pub year_seconds : ℕ
year_seconds = 31_556_952

abbrev pub month_seconds : ℕ
month_seconds = 2_629_746

abbrev pub day_seconds : ℕ
day_seconds = 86_400

-- The date that DurationToAliciaTime takes from a duration, unit by unit.
unfoldable pub duration_to_date_time : ℕ → DateTime
duration_to_date_time duration =
    let years = duration / year_seconds in
    let after_years = duration - years * year_seconds in
    let months = after_years / month_seconds in
    let after_months = after_years - months * month_seconds in
    let days = after_months / day_seconds in
    let after_days = after_months - days * day_seconds in
    let hours = after_days / 3600 in
    let after_hours = after_days - hours * 3600 in
    record {
      years = years;
      months = months;
      days = days;
      hours = hours;
      minutes = after_hours / 60;
      seconds = 0;
    }

pub duration_to_alicia_time : ℕ → ℕ
duration_to_alicia_time duration = date_time_to_alicia_time (duration_to_date_time duration)

-- The three uint32_t words of a shop time.
abbrev pub ShopTime : Type 0
ShopTime = ℕ × ℕ × ℕ

unfoldable pub alicia_shop_time_to_date_time : ShopTime → DateTime
alicia_shop_time_to_date_time (w0, w1, w2) = record {
  years = w0 % 2 ^ 16;
  months = w0 / 2 ^ 16 % 2 ^ 16;
  days = w1 % 2 ^ 16;
  hours = w1 / 2 ^ 16 % 2 ^ 16;
  minutes = w2 % 2 ^ 16;
  seconds = w2 / 2 ^ 16 % 2 ^ 16;
}

unfoldable pub date_time_to_alicia_shop_time : DateTime → ShopTime
date_time_to_alicia_shop_time t = (
  bit_or (t.months * 2 ^ 16 % 2 ^ 32) t.years,
  bit_or (t.hours * 2 ^ 16 % 2 ^ 32) t.days,
  bit_or (t.seconds * 2 ^ 16 % 2 ^ 32) t.minutes,
)
