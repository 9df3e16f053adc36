-- ===== src/Spec/Timestamp.antt =====
-- step.go: `Timestamp`, with what it uses of strconv and time written out. The calendar is the
-- proleptic Gregorian one that Go's time package computes with.
use kernelbuild_buildkit.Common.{
  ℕ, zero, suc, ◌+◌, ◌-◌, ◌*◌, ◌/◌, ◌%◌, ◌^◌, true, false, [], ◌∷◌, ◌++◌, ◌==◌, ltb, is_digit,
  if◌then◌else◌, Option, none, some, Bytes, codes, Result, ok, err,
}

-- An int64 as its sign and its size: `negsuc n` is -(n + 1).
pub data ℤ : Type 0 where
  pos : ℕ → ℤ
  negsuc : ℕ → ℤ

-- The value of decimal digits behind the value read so far; `none` at any other byte.
unfoldable pub digits_value : ℕ → Bytes → Option ℕ
digits_value acc [] = some acc
digits_value acc (c ∷ s) = elim (is_digit c) [
  | true ↦ digits_value (acc * 10 + (c - b'0')) s
  | false ↦ none
]

abbrev unsigned : Bytes → Option ℕ
unfolding digits_value
unsigned [] = none
unsigned (c ∷ s) = digits_value 0 (c ∷ s)

abbrev in_range_pos : Option ℕ → Option ℤ
in_range_pos none = none
in_range_pos (some n) = if ltb n (2 ^ 63) then some (pos n) else none

abbrev in_range_neg : Option ℕ → Option ℤ
in_range_neg none = none
in_range_neg (some zero) = some (pos 0)
in_range_neg (some (suc n)) = if ltb n (2 ^ 63) then some (negsuc n) else none

-- strconv.ParseInt(s, 10, 64); `none` is a syntax or a range error.
unfoldable pub parse_int : Bytes → Option ℤ
unfolding digits_value
parse_int [] = none
parse_int (c ∷ s) =
    if c == b'+'
    then in_range_pos (unsigned s)
    else if c == b'-'
    then in_range_neg (unsigned s)
    else in_range_pos (unsigned (c ∷ s))

pub record Date : Type 0 where
  pub year : ℕ
  pub month : ℕ
  pub day : ℕ

-- The date of a day counted from 1970-01-01. Years begin in March while it computes, so that the
-- leap day is the last one.
unfoldable pub date_of_days : ℕ → Date
date_of_days days =
    let z = days + 719468 in
    let doe = z % 146097 in
    let yoe = (doe + doe / 36524 - doe / 1460 - doe / 146096) / 365 in
    let doy = doe + yoe / 100 - (365 * yoe + yoe / 4) in
    let mp = (5 * doy + 2) / 153 in
    record {
      year = yoe + 400 * (z / 146097) + (if ltb mp 10 then 0 else 1);
      month = if ltb mp 10 then mp + 3 else mp - 9;
      day = doy + 1 - (153 * mp + 2) / 5;
    }

abbrev digit : ℕ → ℕ
digit n = b'0' + n % 10

-- Two digits, zero-padded and space-padded ("_2").
abbrev two : ℕ → Bytes
two n = digit (n / 10) ∷ digit n ∷ []

abbrev two_spaced : ℕ → Bytes
two_spaced n = (if ltb n 10 then 32 else digit (n / 10)) ∷ digit n ∷ []

-- A year of at most four digits.
abbrev four : ℕ → Bytes
four n = digit (n / 1000) ∷ digit (n / 100) ∷ digit (n / 10) ∷ digit n ∷ []

weekday_name : ℕ → Bytes
weekday_name n =
    if n == 0
    then codes "Sun"
    else if n == 1
    then codes "Mon"
    else if n == 2
    then codes "Tue"
    else if n == 3
    then codes "Wed"
    else if n == 4
    then codes "Thu"
    else if n == 5
    then codes "Fri"
    else codes "Sat"

month_name : ℕ → Bytes
month_name n =
    if n == 1
    then codes "Jan"
    else if n == 2
    then codes "Feb"
    else if n == 3
    then codes "Mar"
    else if n == 4
    then codes "Apr"
    else if n == 5
    then codes "May"
    else if n == 6
    then codes "Jun"
    else if n == 7
    then codes "Jul"
    else if n == 8
    then codes "Aug"
    else if n == 9
    then codes "Sep"
    else if n == 10
    then codes "Oct"
    else if n == 11
    then codes "Nov"
    else codes "Dec"

-- ts.Format("Mon Jan _2 15:04:05 MST 2006") in UTC; 1970-01-01 was a Thursday.
unfoldable pub format_date : ℕ → Bytes
unfolding date_of_days weekday_name month_name
format_date sec =
    let days = sec / 86400 in
    let d = date_of_days days in
    weekday_name ((days + 4) % 7)
    ++ (32
        ∷ (month_name d.month
            ++ (32
                ∷ (two_spaced d.day
                    ++ (32
                        ∷ (two (sec % 86400 / 3600)
                            ++ (b':'
                                ∷ (two (sec % 3600 / 60)
                                    ++ (b':'
                                        ∷ (two (sec % 60)
                                            ++ (codes " UTC " ++ four d.year)))))))))))

pub data EpochError : Type 0 where
  not_a_number : EpochError
  out_of_range : EpochError

unfoldable pub render_epoch : Option ℤ → Result EpochError Bytes
unfolding format_date
render_epoch none = err not_a_number
render_epoch (some (negsuc n)) = err out_of_range
render_epoch (some (pos sec)) =
    if ltb 9999 (date_of_days (sec / 86400)).year then err out_of_range else ok (format_date sec)

-- `Timestamp`
unfoldable pub timestamp : Bytes → Result EpochError Bytes
unfolding parse_int render_epoch
timestamp epoch = render_epoch (parse_int epoch)
