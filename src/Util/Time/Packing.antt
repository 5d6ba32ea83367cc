-- ===== src/Util/Time/Packing.antt =====
-- The fields of a packed time come back from it.
use Prim.Native.Nat.{bit_or}
use alicia_server.Common.{ℕ, ◌+◌, ◌*◌, ◌/◌, ◌%◌, ◌^◌, ◌≤◌, ◌<◌, ◌≡◌, refl, ap, ◌∙◌, min, arith}
use alicia_server.Common.Bits.{bit_or-disjoint, bit_or_comm}
use alicia_server.Util.Time.{
  DateTime, time_point_to_file_time, date_time_to_alicia_time, duration_to_date_time,
  duration_to_alicia_time, alicia_shop_time_to_date_time, date_time_to_alicia_shop_time,
  year_seconds, month_seconds, day_seconds,
}

-- A field that is put above the fields that are there.
or_above : (k low field : ℕ) → low < 2 ^ k → bit_or low (field * 2 ^ k) ≡ field * 2 ^ k + low
or_above k low field h = bit_or_comm low (field * 2 ^ k) ∙ bit_or-disjoint k field low h

-- The packed time is the sum of its fields, each cut to the largest value that its bits hold.
alicia_time_sum :
    (t : DateTime)
    → date_time_to_alicia_time t
      ≡ min t.minutes 63 * 2 ^ 26
        + (min t.hours 31 * 2 ^ 21
            + (min t.days 31 * 2 ^ 16 + (min t.months 15 * 2 ^ 12 + min t.years 4095)))
unfolding date_time_to_alicia_time
alicia_time_sum t =
    rw
      (
        or_above 12 (min t.years 4095) (min t.months 15) (omega arith),
        or_above 16 (min t.months 15 * 2 ^ 12 + min t.years 4095) (min t.days 31) (omega arith),
        or_above 21 (min t.days 31 * 2 ^ 16 + (min t.months 15 * 2 ^ 12 + min t.years 4095))
            (min t.hours 31) (omega arith),
      )
      (ap (bit_or below) whole ∙ or_above 26 below (min t.minutes 63) (omega arith))
  where
    below : ℕ
    below =
        min t.hours 31 * 2 ^ 21
        + (min t.days 31 * 2 ^ 16 + (min t.months 15 * 2 ^ 12 + min t.years 4095))

    whole : min t.minutes 63 * 2 ^ 26 % 2 ^ 32 ≡ min t.minutes 63 * 2 ^ 26
    whole = omega arith

-- The fields of a packed time, by the layout of its bits.
abbrev pub unpack : ℕ → DateTime
unpack v = record {
  years = v % 2 ^ 12;
  months = v / 2 ^ 12 % 2 ^ 4;
  days = v / 2 ^ 16 % 2 ^ 5;
  hours = v / 2 ^ 21 % 2 ^ 5;
  minutes = v / 2 ^ 26;
  seconds = 0;
}

-- Each field of a date comes back from the packed time, cut to the largest value that its bits
-- hold; the seconds are dropped.
pub unpack-alicia_time :
    (t : DateTime)
    → unpack (date_time_to_alicia_time t) ≡ record {
      years = min t.years 4095;
      months = min t.months 15;
      days = min t.days 31;
      hours = min t.hours 31;
      minutes = min t.minutes 63;
      seconds = 0;
    }
unpack-alicia_time t = λ i. record {
  years = years i;
  months = months i;
  days = days i;
  hours = hours i;
  minutes = minutes i;
  seconds = 0;
}
  where
    v : ℕ
    v = date_time_to_alicia_time t

    years : v % 2 ^ 12 ≡ min t.years 4095
    years = omega (arith, alicia_time_sum t)

    months : v / 2 ^ 12 % 2 ^ 4 ≡ min t.months 15
    months = omega (arith, alicia_time_sum t)

    days : v / 2 ^ 16 % 2 ^ 5 ≡ min t.days 31
    days = omega (arith, alicia_time_sum t)

    hours : v / 2 ^ 21 % 2 ^ 5 ≡ min t.hours 31
    hours = omega (arith, alicia_time_sum t)

    minutes : v / 2 ^ 26 ≡ min t.minutes 63
    minutes = omega (arith, alicia_time_sum t)

-- A duration is taken apart without loss: the units add up to it, up to the seconds of the last
-- minute, and every unit but the years is smaller than the next larger one.
pub duration_to_date_time_lem :
    (duration : ℕ)
    → let t = duration_to_date_time duration in
      (t.months ≤ 11)
      × (t.days ≤ 30)
      × (t.hours ≤ 23)
      × (t.minutes ≤ 59)
      × (t.years * year_seconds
            + t.months * month_seconds
            + t.days * day_seconds
            + t.hours * 3600
            + t.minutes * 60
          ≤ duration)
      × (duration
          < t.years * year_seconds
            + t.months * month_seconds
            + t.days * day_seconds
            + t.hours * 3600
            + t.minutes * 60
            + 60)
unfolding duration_to_date_time
duration_to_date_time_lem duration = omega arith

no_seconds : (duration : ℕ) → 0 ≡ (duration_to_date_time duration).seconds
unfolding duration_to_date_time
no_seconds duration = refl

-- A duration of less than 4096 years is packed without a field being cut.
pub unpack-duration :
    (duration : ℕ)
    → duration < 4096 * year_seconds
    → unpack (duration_to_alicia_time duration) ≡ duration_to_date_time duration
unfolding duration_to_alicia_time
unpack-duration duration h = unpack-alicia_time t ∙ λ i. record {
  years = years i;
  months = months i;
  days = days i;
  hours = hours i;
  minutes = minutes i;
  seconds = no_seconds duration i;
}
  where
    t : DateTime
    t = duration_to_date_time duration

    years : min t.years 4095 ≡ t.years
    years = omega (arith, duration_to_date_time_lem duration)

    months : min t.months 15 ≡ t.months
    months = omega (arith, duration_to_date_time_lem duration)

    days : min t.days 31 ≡ t.days
    days = omega (arith, duration_to_date_time_lem duration)

    hours : min t.hours 31 ≡ t.hours
    hours = omega (arith, duration_to_date_time_lem duration)

    minutes : min t.minutes 63 ≡ t.minutes
    minutes = omega (arith, duration_to_date_time_lem duration)

-- For fewer than 2 ^ 40 seconds since 1970, the two words of the FILETIME, each below 2 ^ 32, make
-- up the number of intervals of 100 ns since 1601.
pub file_time_words :
    (seconds : ℕ)
    → seconds < 2 ^ 40
    → let f = time_point_to_file_time seconds in
      (f.high_date_time * 2 ^ 32 + f.low_date_time ≡ (seconds + 11_644_473_600) * 10_000_000)
      × (f.low_date_time < 2 ^ 32)
      × (f.high_date_time < 2 ^ 32)
unfolding time_point_to_file_time
file_time_words seconds h = omega arith

-- A word of a shop time: a field of 16 bits above another.
word_sum :
    (upper lower : ℕ)
    → lower < 2 ^ 16
    → upper < 2 ^ 16
    → bit_or (upper * 2 ^ 16 % 2 ^ 32) lower ≡ upper * 2 ^ 16 + lower
word_sum upper lower h k = ap (λ n. bit_or n lower) whole ∙ bit_or-disjoint 16 upper lower h
  where
    whole : upper * 2 ^ 16 % 2 ^ 32 ≡ upper * 2 ^ 16
    whole = omega arith

low :
    (upper lower : ℕ)
    → lower < 2 ^ 16
    → upper < 2 ^ 16
    → bit_or (upper * 2 ^ 16 % 2 ^ 32) lower % 2 ^ 16 ≡ lower
low upper lower h k = omega (arith, word_sum upper lower h k)

high :
    (upper lower : ℕ)
    → lower < 2 ^ 16
    → upper < 2 ^ 16
    → bit_or (upper * 2 ^ 16 % 2 ^ 32) lower / 2 ^ 16 % 2 ^ 16 ≡ upper
high upper lower h k = omega (arith, word_sum upper lower h k)

word_halves : (w : ℕ) → w < 2 ^ 32 → bit_or (w / 2 ^ 16 % 2 ^ 16 * 2 ^ 16 % 2 ^ 32) (w % 2 ^ 16) ≡ w
word_halves w h =
    omega (arith, word_sum (w / 2 ^ 16 % 2 ^ 16) (w % 2 ^ 16) (omega arith) (omega arith))

-- A date whose fields are below 2 ^ 16 comes back from its shop time.
pub shop_time_of_date :
    (t : DateTime)
    → t.years < 2 ^ 16
    → t.months < 2 ^ 16
    → t.days < 2 ^ 16
    → t.hours < 2 ^ 16
    → t.minutes < 2 ^ 16
    → t.seconds < 2 ^ 16
    → alicia_shop_time_to_date_time (date_time_to_alicia_shop_time t) ≡ t
unfolding alicia_shop_time_to_date_time date_time_to_alicia_shop_time
shop_time_of_date t y mo d h mi s = λ i. record {
  years = low t.months t.years y mo i;
  months = high t.months t.years y mo i;
  days = low t.hours t.days d h i;
  hours = high t.hours t.days d h i;
  minutes = low t.seconds t.minutes mi s i;
  seconds = high t.seconds t.minutes mi s i;
}

-- A shop time of three 32-bit words comes back from its date.
pub date_of_shop_time :
    (w0 w1 w2 : ℕ)
    → w0 < 2 ^ 32
    → w1 < 2 ^ 32
    → w2 < 2 ^ 32
    → date_time_to_alicia_shop_time (alicia_shop_time_to_date_time (w0, w1, w2)) ≡ (w0, w1, w2)
unfolding alicia_shop_time_to_date_time date_time_to_alicia_shop_time
date_of_shop_time w0 w1 w2 a b c = λ i. (word_halves w0 a i, word_halves w1 b i, word_halves w2 c i)
