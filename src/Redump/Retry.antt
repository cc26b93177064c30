-- ===== src/Redump/Retry.antt =====
-- `retryAt`, which internal/redump/adapter.go and internal/nointro/adapter.go both have: when a
-- provider may be asked again.
use romd_dat_catalogs.Prelude.{
  ℕ, ◌+◌, ◌-◌, ◌*◌, ◌/◌, ◌%◌, ◌^◌, ◌≤◌, ◌<◌, ◌≡◌, String, Bool, true, false, not, ◌&&◌, Option,
  none, some, List, [], ◌∷◌, arith, ltb, leb, all, if◌then◌else◌, ◌==◌, string_eq, Bool-cases, inl,
  inr,
}
use romd_dat_catalogs.Prelude.Text.{codes}

abbrev pub second : ℕ
second = 1000000000

abbrev pub minute : ℕ
minute = 60000000000

-- `time.Date(9999, 1, 1, ...)` in seconds from the start of year 1.
abbrev pub ceiling_seconds : ℕ
ceiling_seconds = 315506361600

abbrev pub ceiling : ℕ
ceiling = 315506361600000000000

abbrev is_digit : ℕ → Bool
is_digit c = leb b'0' c && leb c b'9'

-- The number that a text of digits writes.
unfoldable pub digits_value : ℕ → List ℕ → ℕ
digits_value acc [] = acc
digits_value acc (c ∷ cs) = digits_value (acc * 10 + (c - b'0')) cs

-- `strconv.ParseUint` of digits: `none` past 64 bits.
unfoldable pub parse_uint : String → Option ℕ
unfolding digits_value
parse_uint value =
    if ltb (digits_value 0 (codes value)) (2 ^ 64)
    then some (digits_value 0 (codes value))
    else none

-- `value != "" && strings.Trim(value, "0123456789") == ""`
unfoldable pub is_number : String → Bool
is_number value = not (value == "") && all is_digit (codes value)

-- The seconds from `now` to the ceiling, as a `uint64`.
abbrev room : ℕ → ℕ
room now = (ceiling_seconds + 2 ^ 64 - now / second) % 2 ^ 64

abbrev seconds_later : ℕ → Option ℕ → ℕ
seconds_later now none = ceiling
seconds_later now (some n) = if ltb (room now) n then ceiling else now + n * second

abbrev date_later : ℕ → Option ℕ → ℕ
date_later now none = now + minute
date_later now (some date) = if ltb now date then date else now + minute

-- `http.ParseTime` is a parameter. The clock is taken to stand before the ceiling's year, where
-- the sum of seconds keeps within an `int64`.
unfoldable pub retry_at : (String → Option ℕ) → String → ℕ → ℕ
retry_at parse_http_date value now =
    if is_number value
    then seconds_later now (parse_uint value)
    else date_later now (parse_http_date value)

seconds_later_bounds :
    (now : ℕ) (o : Option ℕ)
    → now < ceiling
    → (now ≤ seconds_later now o) × (seconds_later now o < ceiling + second)
seconds_later_bounds now none h = (omega arith, omega arith)
seconds_later_bounds now (some n) h = ground arith

-- Seconds that end before the ceiling are exactly the wait.
seconds_later_exact :
    (now n : ℕ)
    → n < 2 ^ 64
    → now + n * second < ceiling
    → seconds_later now (some n) ≡ now + n * second
seconds_later_exact now n h k = ground (arith, k)

date_later_after : (now : ℕ) (o : Option ℕ) → now < date_later now o
date_later_after now none = omega arith
date_later_after now (some date) = ground arith

exact_wait :
    (value : String) (now : ℕ)
    → now + digits_value 0 (codes value) * second < ceiling
    → seconds_later now (parse_uint value) ≡ now + digits_value 0 (codes value) * second
unfolding parse_uint
exact_wait value now h =
    let n = digits_value 0 (codes value) in
    let fits : n < 2 ^ 64 = omega arith in
    let short : ltb n (2 ^ 64) ≡ true = ground arith in rw short (seconds_later_exact now n fits h)

-- While the clock stands before the year 9999: whatever the provider sends, the retry time is not
-- before the present. Seconds that the provider names never lead past the first second of the year
-- 9999, and are waited exactly where they end before that year. Without seconds the time is truly
-- later.
pub retry_at_bounds :
    (parse_http_date : String → Option ℕ) (value : String) (now : ℕ)
    → now < ceiling
    → (now ≤ retry_at parse_http_date value now)
      × (is_number value ≡ true → retry_at parse_http_date value now < ceiling + second)
      × (is_number value ≡ true
          → now + digits_value 0 (codes value) * second < ceiling
          → retry_at parse_http_date value now ≡ now + digits_value 0 (codes value) * second)
      × (is_number value ≡ false → now < retry_at parse_http_date value now)
unfolding retry_at
retry_at_bounds parse_http_date value now h = elim (Bool-cases (is_number value)) [
  | inl e ↦
      let (low, high) = seconds_later_bounds now (parse_uint value) h in
      rw e (low, λ _. high, λ _ k. exact_wait value now k, λ f. cc)
  | inr e ↦
      let later = date_later_after now (parse_http_date value) in
      rw e (omega arith, (λ f. cc), (λ f. absurd cc), λ _. later)
]
