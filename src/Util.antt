-- ===== src/Util.antt =====
-- hpc_batch/util.py: durations and their texts, and the assignments before a command. A text is the
-- list of its code points, which are ASCII.
pub mod Durations
pub mod Table
pub mod Parts
use hpc_batch.Base.{
  ℕ, ◌+◌, ◌-◌, ◌*◌, ◌/◌, ◌%◌, Bool, true, false, not, ◌&&◌, ◌||◌, Option, none, some, List, [], ◌∷◌,
  ◌++◌, ltb, leb, ◌==◌, if◌then◌else◌, is_nil, all, map,
}
use hpc_batch.Base.Decimal.{decimal}
use hpc_batch.Base.Int.{ℤ, pos_part}
use hpc_batch.Base.Text.{is_digit, value_from, strip}

unfoldable pub lower_char : ℕ → ℕ
lower_char c = if leb b'A' c && leb c b'Z' then c + 32 else c

-- `text.lower()`
unfoldable pub lower : List ℕ → List ℕ
unfolding lower_char
lower s = map lower_char s

-- `_UNIT_SECONDS`
unfoldable pub unit_seconds : ℕ → Option ℕ
unit_seconds c =
    if c == b's'
    then some 1
    else if c == b'm'
    then some 60
    else if c == b'h'
    then some 3600
    else if c == b'd'
    then some 86400
    else none

-- The loop of `parse_duration` over the matches of `_DURATION_RE`. `seen` is what the digits just
-- before spell, if there are any; a text that is not matched whole is refused.
unfoldable pub read_parts : ℕ → Option ℕ → List ℕ → Option ℕ
unfolding is_digit unit_seconds
read_parts total none [] = some total
read_parts total (some n) [] = none
read_parts total none (c ∷ s) = elim (is_digit c) [
  | true ↦ read_parts total (some (c - b'0')) s
  | false ↦ none
]
read_parts total (some n) (c ∷ s) = elim (is_digit c) [
  | true ↦ read_parts total (some (n * 10 + (c - b'0'))) s
  | false ↦ elim (unit_seconds c) [ none ↦ none | some unit ↦ read_parts (total + n * unit) none s ]
]

unfoldable pub parse_trimmed : List ℕ → Option ℕ
unfolding all is_digit value_from read_parts
parse_trimmed [] = none
parse_trimmed (c ∷ s) =
    if all is_digit (c ∷ s) then some (value_from 0 (c ∷ s)) else read_parts 0 none (c ∷ s)

-- `parse_duration`; `none` is the ValueError.
unfoldable pub parse_duration : List ℕ → Option ℕ
unfolding parse_trimmed strip lower
parse_duration text = parse_trimmed (lower (strip text))

-- A part of a printed duration, if there is any of the unit.
unfoldable pub part : ℕ → ℕ → List ℕ
unfolding decimal
part n unit = if n == 0 then [] else decimal n ++ unit ∷ []

-- `format_duration` of whole seconds that are not negative.
unfoldable pub format_seconds : ℕ → List ℕ
unfolding part decimal
format_seconds n =
    let days = n / 86400 in
    let hours = n % 86400 / 3600 in
    let minutes = n % 86400 % 3600 / 60 in
    let secs = n % 86400 % 3600 % 60 in
    let parts = part days b'd' ++ part hours b'h' ++ part minutes b'm' in
    if not (secs == 0) || is_nil parts then parts ++ (decimal secs ++ b's' ∷ []) else parts

-- `format_duration`; the seconds are whole ones, as `int` leaves them.
unfoldable pub format_duration : Option ℤ → List ℕ
unfolding format_seconds
format_duration none = b'-' ∷ []
format_duration (some seconds) = format_seconds (pos_part seconds)
