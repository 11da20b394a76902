-- ===== src/Util/Durations.antt =====
-- A printed duration is read back (hpc_batch/util.py: `format_duration`, `parse_duration`).
use hpc_batch.Base.{
  ℕ, ◌+◌, ◌*◌, ◌/◌, ◌%◌, ◌≡◌, refl, sym, ap, ◌∙◌, ◌⊎◌, inl, inr, Bool, true, false, not, ◌||◌, none,
  some, List, [], ◌∷◌, ◌++◌, arith, ◌==◌, is_nil, all, all-append, Bool-cases,
}
use hpc_batch.Base.Decimal.{decimal, all-decimal}
use hpc_batch.Base.Int.{pos}
use hpc_batch.Base.Text.{is_digit, is_space, strip-solid}
use hpc_batch.Util.{
  lower_char, lower, unit_seconds, read_parts, parse_trimmed, parse_duration, part, format_seconds,
  format_duration,
}
use hpc_batch.Util.Parts.{is_nil-append, append_assoc, append_nil, read_decimal, read_part}

-- What a printed duration is made of.
is_plain : ℕ → Bool
is_plain c = is_digit c || (c == b'd' || (c == b'h' || (c == b'm' || c == b's')))

lower-plain : (s : List ℕ) → all is_plain s ≡ true → lower s ≡ s
unfolding all is_plain is_digit lower lower_char
lower-plain [] h = refl
lower-plain (c ∷ s) h =
    rw (lower-plain s (ground arith)) (ap (λ x. x ∷ s) (unfold lower_char in ground arith))

plain_solid : (c : ℕ) → is_plain c ≡ true → is_space c ≡ false
unfolding is_plain is_digit is_space
plain_solid c h = ground arith

parse_trimmed-parts : (s : List ℕ) → all is_digit s ≡ false → parse_trimmed s ≡ read_parts 0 none s
unfolding parse_trimmed all
parse_trimmed-parts [] h = absurd (ground arith)
parse_trimmed-parts (c ∷ s) h = rw (h, parse_trimmed) refl

-- A part is made of plain characters, and not of digits alone.
module _ (n unit : ℕ) where
  all-part : is_plain unit ≡ true → all is_plain (part n unit) ≡ true
  unfolding part all is_plain is_digit
  all-part h = ground (
    arith,
    all-append is_plain (decimal n) (unit ∷ []),
    all-decimal is_plain n (λ d k. ground arith),
  )

  digits-part : is_digit unit ≡ false → all is_digit (part n unit) ≡ is_nil (part n unit)
  unfolding part all
  digits-part h =
      ground
        (arith, all-append is_digit (decimal n) (unit ∷ []), is_nil-append (decimal n) (unit ∷ []))

module _ (n : ℕ) where
  abbrev printed_parts : List ℕ
  printed_parts =
      part (n / 86400) b'd' ++ part (n % 86400 / 3600) b'h' ++ part (n % 86400 % 3600 / 60) b'm'

  abbrev printed_secs : List ℕ
  printed_secs = decimal (n % 86400 % 3600 % 60) ++ b's' ∷ []

  read_printed :
      (rest : List ℕ)
      → read_parts 0 none (printed_parts ++ rest)
        ≡ read_parts
            (0 + n / 86400 * 86400 + n % 86400 / 3600 * 3600 + n % 86400 % 3600 / 60 * 60)
            none
            rest
  unfolding unit_seconds is_digit
  read_printed rest =
      let days = part (n / 86400) b'd' in
      let hours = part (n % 86400 / 3600) b'h' in
      let minutes = part (n % 86400 % 3600 / 60) b'm' in
      ap (read_parts 0 none)
        (append_assoc (days ++ hours) minutes rest ∙ append_assoc days hours (minutes ++ rest))
      ∙ read_part b'd' 86400 refl refl (hours ++ (minutes ++ rest)) 0 (n / 86400)
      ∙ read_part b'h' 3600 refl refl (minutes ++ rest) _ (n % 86400 / 3600)
      ∙ read_part b'm' 60 refl refl rest _ (n % 86400 % 3600 / 60)

  format-cases :
      (format_seconds n ≡ printed_parts ++ printed_secs)
      ⊎ ((format_seconds n ≡ printed_parts)
          × (n % 86400 % 3600 % 60 ≡ 0)
          × (is_nil printed_parts ≡ false))
  unfolding format_seconds
  format-cases = elim (Bool-cases (not (n % 86400 % 3600 % 60 == 0) || is_nil printed_parts)) [
    | inl e ↦ inl (rw (e, format_seconds) refl)
    | inr e ↦ inr (rw (e, format_seconds) refl, ground arith, ground arith)
  ]

  plain_parts : all is_plain printed_parts ≡ true
  unfolding is_plain is_digit
  plain_parts =
      let days = part (n / 86400) b'd' in
      let hours = part (n % 86400 / 3600) b'h' in
      let minutes = part (n % 86400 % 3600 / 60) b'm' in
      ground (
        arith,
        all-append is_plain (days ++ hours) minutes,
        all-append is_plain days hours,
        all-part (n / 86400) b'd' refl,
        all-part (n % 86400 / 3600) b'h' refl,
        all-part (n % 86400 % 3600 / 60) b'm' refl,
      )

  plain_secs : all is_plain printed_secs ≡ true
  unfolding is_plain is_digit all
  plain_secs = ground (
    arith,
    all-append is_plain (decimal (n % 86400 % 3600 % 60)) (b's' ∷ []),
    all-decimal is_plain (n % 86400 % 3600 % 60) (λ d k. ground arith),
  )

  digits_parts : all is_digit printed_parts ≡ is_nil printed_parts
  unfolding is_digit
  digits_parts =
      let days = part (n / 86400) b'd' in
      let hours = part (n % 86400 / 3600) b'h' in
      let minutes = part (n % 86400 % 3600 / 60) b'm' in
      ground (
        arith,
        all-append is_digit (days ++ hours) minutes,
        all-append is_digit days hours,
        is_nil-append (days ++ hours) minutes,
        is_nil-append days hours,
        digits-part (n / 86400) b'd' refl,
        digits-part (n % 86400 / 3600) b'h' refl,
        digits-part (n % 86400 % 3600 / 60) b'm' refl,
      )

  digits_secs : all is_digit printed_secs ≡ false
  unfolding is_digit all
  digits_secs = ground (arith, all-append is_digit (decimal (n % 86400 % 3600 % 60)) (b's' ∷ []))

  -- What is printed is plain, is not digits alone, and is read as the seconds.
  record IsReadable (s : List ℕ) : Type 0 where
    plain : all is_plain s ≡ true
    other : all is_digit s ≡ false
    value : read_parts 0 none s ≡ some n

  format-IsReadable : IsReadable (format_seconds n)
  unfolding unit_seconds is_digit read_parts
  format-IsReadable = elim format-cases [
    | inl e ↦ rw e (record {
      plain =
          ground (arith, all-append is_plain printed_parts printed_secs, plain_parts, plain_secs);
      other = ground (arith, all-append is_digit printed_parts printed_secs, digits_secs);
      value =
          read_printed printed_secs
          ∙ read_decimal b's' 1 refl refl [] _ (n % 86400 % 3600 % 60)
          ∙ ap some (omega arith);
    })
    | inr (e, whole, some_part) ↦ rw e (record {
      plain = plain_parts;
      other = digits_parts ∙ some_part;
      value =
          ap (read_parts 0 none) (sym (append_nil printed_parts))
          ∙ read_printed []
          ∙ ap some (omega (arith, whole));
    })
  ]

-- Every number of seconds is read back from its printed form.
pub parse-format_duration : (n : ℕ) → parse_duration (format_duration (some (pos n))) ≡ some n
unfolding parse_duration format_duration
parse-format_duration n =
    let read = format-IsReadable n in
    rw
      (
        strip-solid is_plain plain_solid (format_seconds n) read.plain,
        lower-plain (format_seconds n) read.plain,
      )
      (parse_trimmed-parts (format_seconds n) read.other ∙ read.value)
