-- ===== src/Timeline/Clock.antt =====
-- The times and the patterns of the log lines
-- (scripts/experiment-harness/build-actuator-timeline.py), with the parts of Python's datetime and
-- calendar that they use.
use tcd_oran_testbed_integra.Base.{
  ℕ, ◌+◌, ◌-◌, ◌*◌, ◌/◌, ◌%◌, ◌==◌, leb, ltb, if◌then◌else◌, Bool, not, ◌&&◌, ◌||◌, Option, none,
  some, List, [], ◌∷◌, ◌++◌, length, take, drop, get_or, replicate, Result, ok, ◌>>◌, require,
}
use tcd_oran_testbed_integra.Base.Text.{Text, codes, digit, literal, full_match}
use tcd_oran_testbed_integra.Base.Integers.{ℤ, ◌⊖◌}

-- `int` of digits
unfoldable pub int_from : ℕ → Text → ℕ
int_from total [] = total
int_from total (c ∷ s) = int_from (total * 10 + (c - 48)) s

unfoldable pub int : Text → ℕ
unfolding int_from
int = int_from 0

-- `[0-9]*` of a pattern, that takes all it can
unfoldable pub digits_of : Text → Text
digits_of [] = []
digits_of (c ∷ s) = let rest = digits_of s in if digit c then c ∷ rest else []

unfoldable pub is_leap : ℕ → Bool
is_leap year = (year % 4 == 0) && (not (year % 100 == 0) || (year % 400 == 0))

abbrev month_lengths : Bool → List ℕ
month_lengths leap =
    31 ∷ (if leap then 29 else 28) ∷ 31 ∷ 30 ∷ 31 ∷ 30 ∷ 31 ∷ 31 ∷ 30 ∷ 31 ∷ 30 ∷ 31 ∷ []

abbrev sum : List ℕ → ℕ
sum [] = 0
sum (n ∷ ns) = n + sum ns

-- `date(year, month, day).toordinal()`
unfoldable pub ordinal : ℕ → ℕ → ℕ → ℕ
unfolding is_leap
ordinal year month day =
    let before = year - 1 in
    let years = before * 365 + before / 4 + before / 400 - before / 100 in
    years + sum (take (month - 1) (month_lengths (is_leap year))) + day

-- What `datetime(...)` accepts.
unfoldable pub is_date : ℕ → ℕ → ℕ → Bool
unfolding is_leap
is_date year month day =
    leb 1 year
    && (leb 1 month && leb month 12)
    && (leb 1 day && leb day (get_or (month_lengths (is_leap year)) (month - 1) 0))

unfoldable pub is_time : ℕ → ℕ → ℕ → Bool
is_time hour minute second = ltb hour 24 && (ltb minute 60 && ltb second 60)

-- TIMESTAMP_RE up to the seconds, which are 19 characters
unfoldable pub timestamp_shape : List (ℕ → Bool)
timestamp_shape =
    replicate 4 digit
    ++ literal (codes "-")
    ++ replicate 2 digit
    ++ literal (codes "-")
    ++ replicate 2 digit
    ++ literal (codes "T")
    ++ replicate 2 digit
    ++ literal (codes ":")
    ++ replicate 2 digit
    ++ literal (codes ":")
    ++ replicate 2 digit

-- The group `fraction`, or the empty text.
unfoldable pub fraction_of : Text → Text
unfolding digits_of
fraction_of [] = []
fraction_of (c ∷ s) = if c == 46 then digits_of s else []

-- `calendar.timegm`, of seconds: day 719163 is the first of 1970
unfoldable pub seconds_of : ℕ → ℕ → ℕ → ℕ → ℕ
seconds_of days hour minute second = ((days * 24 + hour) * 60 + minute) * 60 + second

unfoldable pub exact_timestamp_utc_ns : Text → Result ℤ
unfolding int timestamp_shape fraction_of is_date is_time ordinal seconds_of
exact_timestamp_utc_ns line = do
  require (full_match timestamp_shape (take 19 line)) "cannot parse leading UTC timestamp"
  let fraction = fraction_of (drop 19 line)
  require (leb (length fraction) 9) "timestamp precision exceeds nanoseconds"
  let year = int (take 4 line)
  let month = int (take 2 (drop 5 line))
  let day = int (take 2 (drop 8 line))
  let hour = int (take 2 (drop 11 line))
  let minute = int (take 2 (drop 14 line))
  let second = int (take 2 (drop 17 line))
  require (is_date year month day && is_time hour minute second) "invalid UTC timestamp"
  let seconds = seconds_of (ordinal year month day) hour minute second
  let fractional_ns = int (fraction ++ replicate (9 - length fraction) 48)
  ok ((seconds * 1000000000 + fractional_ns) ⊖ (seconds_of 719163 0 0 0 * 1000000000))

-- What stands behind a literal at the start of a text.
unfoldable pub behind : Text → Text → Option Text
behind [] s = some s
behind (c ∷ key) [] = none
behind (c ∷ key) (d ∷ s) = let rest = behind key s in if c == d then rest else none

abbrev or_else {ℓ} : {A : Type ℓ} → Option A → Option A → Option A
or_else (some a) other = some a
or_else none other = other

abbrev and_then {ℓ κ} : {A : Type ℓ} {B : Type κ} → Option A → (A → Option B) → Option B
and_then none f = none
and_then (some a) f = f a

-- What stands behind the first place of a literal, for `marker in line` and the start of `search`.
unfoldable pub behind_first : Text → Text → Option Text
unfolding behind
behind_first key [] = behind key []
behind_first key (c ∷ s) = or_else (behind key (c ∷ s)) (behind_first key s)

-- `key([0-9]+)` at the start of a text, and how the match goes on. No key starts with a digit, so
-- that the digits are all that there are.
unfoldable pub number_behind {ℓ} : {A : Type ℓ} → Text → (ℕ → Text → Option A) → Text → Option A
unfolding behind digits_of int
number_behind key go_on s = and_then (behind key s) (λ rest.
    let digits = digits_of rest in
    if ltb 0 (length digits) then go_on (int digits) (drop (length digits) rest) else none)

-- `.*key([0-9]+)` and how the match goes on, at the last place where it does.
unfoldable pub last_number {ℓ} : {A : Type ℓ} → Text → (ℕ → Text → Option A) → Text → Option A
unfolding number_behind
last_number key go_on [] = none
last_number key go_on (c ∷ s) = or_else (last_number key go_on s) (number_behind key go_on (c ∷ s))

-- `APPLIED_RE.search(line)`: the two numbers
unfoldable pub applied_match : Text → Option (ℕ × ℕ)
unfolding behind_first last_number
applied_match line = and_then (behind_first (codes "PRB_ACTUATOR_APPLIED") line) (
    last_number (codes "applied_min_prbs=")
      (λ minimum. last_number (codes "applied_max_prbs=") (λ maximum _. some (minimum, maximum))))
