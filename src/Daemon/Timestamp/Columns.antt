-- ===== src/Daemon/Timestamp/Columns.antt =====
-- The form of a timestamp: its separators, and between them fields of digits.
use logsvc.Common.{
  ℕ, zero, suc, ◌+◌, ◌-◌, ◌/◌, ◌^◌, ◌<◌, ◌≤◌, ◌≡◌, refl, ◌∙◌, ap, ◌++◌, length, length-append, All,
  All-append, arith, ltb, if◌then◌else◌, inl, inr, Bool-cases,
}
use logsvc.Common.Text.{Bytes, codes, decimal}
use logsvc.Common.Text.Decimal.{
  read_on, read_decimal, read_on-append, decimal-read_on, decimal-length, IsDigit, decimal-IsDigit,
}
use logsvc.Daemon.Timestamp.{replicate, field, to_ms, timestamp}
use logsvc.Platform.{Platform, PTime}

replicate-length : (n c : ℕ) → length (replicate n c) ≡ n
replicate-length zero c = refl
replicate-length (suc n) c = ap suc (replicate-length n c)

replicate-read_on : (n : ℕ) → read_on 0 (replicate n b'0') ≡ 0
replicate-read_on zero = refl
replicate-read_on (suc n) = replicate-read_on n

field-length : (val k : ℕ) → val < 10 ^ suc k → length (field val (suc k)) ≡ suc k
unfolding field
field-length val k b =
    let digits = decimal-length val k b in
    length-append (replicate (suc k - length (decimal val)) b'0') (decimal val)
    ∙ omega (arith, digits, replicate-length (suc k - length (decimal val)) b'0')

field-read_decimal : (val w : ℕ) → read_decimal (field val w) ≡ val
unfolding field
field-read_decimal val w =
    read_on-append 0 (replicate (w - length (decimal val)) b'0') (decimal val)
    ∙ ap (λ k. read_on k (decimal val)) (replicate-read_on (w - length (decimal val)))
    ∙ decimal-read_on val

replicate-IsDigit : (n : ℕ) → All IsDigit (replicate n b'0')
replicate-IsDigit zero = tt
replicate-IsDigit (suc n) = ((omega arith, omega arith), replicate-IsDigit n)

field-IsDigit : (val w : ℕ) → All IsDigit (field val w)
unfolding field
field-IsDigit val w =
    All-append IsDigit (replicate (w - length (decimal val)) b'0') (decimal val)
      (replicate-IsDigit (w - length (decimal val))) (decimal-IsDigit val)

-- A number in decimal digits, as many as the width.
pub record IsField (val width : ℕ) (text : Bytes) : Type 0 where
  pub digits : All IsDigit text
  pub wide : length text ≡ width
  pub reads : read_decimal text ≡ val

field-IsField : (val k : ℕ) → val < 10 ^ suc k → IsField val (suc k) (field val (suc k))
field-IsField val k b = record {
  digits = field-IsDigit val (suc k);
  wide = field-length val k b;
  reads = field-read_decimal val (suc k);
}

-- The fields are in range, and a second has a million microseconds.
pub record IsTime (now : PTime) : Type 0 where
  pub year : now.year < 10000
  pub month : now.month < 100
  pub day : now.day < 100
  pub hours : now.hours < 100
  pub minutes : now.minutes < 100
  pub seconds : now.seconds < 100
  pub fractional_seconds : now.fractional_seconds < 1000000

-- YYYY.MM.DD hh:mm:ss.mmm, with the milliseconds rounded to the nearest.
pub record Columns (now : PTime) (text : Bytes) : Type 0 where
  pub year : Bytes
  pub month : Bytes
  pub day : Bytes
  pub hours : Bytes
  pub minutes : Bytes
  pub seconds : Bytes
  pub milliseconds : Bytes
  pub form :
      text
      ≡ year
        ++ (codes "."
            ++ (month
                ++ (codes "."
                    ++ (day
                        ++ (codes " "
                            ++ (hours
                                ++ (codes ":"
                                    ++ (minutes
                                        ++ (codes ":"
                                            ++ (seconds ++ (codes "." ++ milliseconds)))))))))))
  pub the_year : IsField now.year 4 year
  pub the_month : IsField now.month 2 month
  pub the_day : IsField now.day 2 day
  pub the_hours : IsField now.hours 2 hours
  pub the_minutes : IsField now.minutes 2 minutes
  pub the_seconds : IsField now.seconds 2 seconds
  pub the_milliseconds :
      IsField
        ((now.fractional_seconds + 500) / 1000)
        (if ltb now.fractional_seconds 999500 then 3 else 4)
        milliseconds

module _ (P : Platform) (now : PTime) where
  module _ (t : IsTime now) where
    rounded :
        P.resolution ≡ 5 → to_ms P now.fractional_seconds ≡ (now.fractional_seconds + 500) / 1000
    unfolding to_ms
    rounded micro = rw micro (omega arith)

    thousand :
        999500 ≤ now.fractional_seconds
        → now.fractional_seconds < 1000000
        → (now.fractional_seconds + 500) / 1000 ≡ 1000
    thousand late b = omega arith

    width_of :
        P.resolution ≡ 5
        → length (field (to_ms P now.fractional_seconds) 3)
          ≡ (if ltb now.fractional_seconds 999500 then 3 else 4)
    unfolding field decimal
    width_of micro = elim (Bool-cases (ltb now.fractional_seconds 999500)) [
      | inl early ↦
          rw early (field-length (to_ms P now.fractional_seconds) 2 (ground (arith, rounded micro)))
      | inr late ↦ rw late (
          ap (λ k. length (field k 3))
            (rounded micro ∙ thousand (ground arith) t.fractional_seconds))
    ]

  -- On a clock that counts microseconds, a timestamp has the form YYYY.MM.DD hh:mm:ss.mmm: these
  -- separators, and between them decimal digits only, of these widths, with zeros in front, which read
  -- back as the numbers of the date and of the time of day, and last as the milliseconds, rounded to the
  -- nearest. In the last half millisecond of a second the milliseconds are 1000 and take a fourth digit.
  pub timestamp_lem : P.resolution ≡ 5 → IsTime now → Columns now (timestamp P now)
  unfolding timestamp
  timestamp_lem micro t = record {
    year = field now.year 4;
    month = field now.month 2;
    day = field now.day 2;
    hours = field now.hours 2;
    minutes = field now.minutes 2;
    seconds = field now.seconds 2;
    milliseconds = field (to_ms P now.fractional_seconds) 3;
    form = refl;
    the_year = field-IsField now.year 3 t.year;
    the_month = field-IsField now.month 1 t.month;
    the_day = field-IsField now.day 1 t.day;
    the_hours = field-IsField now.hours 1 t.hours;
    the_minutes = field-IsField now.minutes 1 t.minutes;
    the_seconds = field-IsField now.seconds 1 t.seconds;
    the_milliseconds = record {
      digits = field-IsDigit (to_ms P now.fractional_seconds) 3;
      wide = width_of t micro;
      reads = field-read_decimal _ 3 ∙ rounded t micro;
    };
  }
