-- ===== src/Worker/Parsed.antt =====
-- The output that the task runner prints is read back as it was meant.
use mini_databricks.Base.{
  ℕ, zero, suc, ◌+◌, ◌-◌, ◌*◌, ◌/◌, ◌%◌, ◌<◌, ◌≤◌, ◌≡◌, ◌∙◌, refl, sym, ap, ℤ, pos, true, false,
  Option, none, some, [], ◌∷◌, ◌++◌, All, ltb, ◌==◌, lt→ltb, arith, Bool-cases, inl, inr,
}
use mathlib.Core.List.{append_assoc, reverse, reverse-append, reverse-reverse}
use mini_databricks.Base.Text.{Text, decimal, decimal_from}
use mini_databricks.Worker.Output.{
  is_space, is_space_2, is_space_3, is_general_space, byte_at, space_bytes, space_bytes_back,
  leading_space, trailing_space, trim_by, trim_back, scan_from, is_digit, trim_left, trim_space,
  split_colon, scan_digits, scan_signed, scan_int, int64_limit, positive_or_zero, size_of,
  parse_output,
}

is_digit_of : (d : ℕ) → d < 10 → is_digit (48 + d) ≡ true
unfolding is_digit
is_digit_of d le = ground arith

shifted : (d : ℕ) → 48 + d - 48 ≡ d
shifted d = omega arith

whole : (n : ℕ) → n / 10 * 10 + (48 + n % 10 - 48) ≡ n
whole n = omega arith

smaller : (fuel n : ℕ) → n < suc fuel → ltb n 10 ≡ false → n / 10 < fuel
smaller fuel n le large = let ten : 10 ≤ n = ground (arith, large) in omega (arith, ten, le)

scan_digits-decimal_from :
    (fuel n : ℕ) (acc : Text)
    → n < fuel
    → scan_digits none (decimal_from fuel n acc) ≡ scan_digits (some n) acc
unfolding scan_digits decimal_from
scan_digits-decimal_from zero n acc le = absurd (omega arith)
scan_digits-decimal_from (suc fuel) n acc le = elim (Bool-cases (ltb n 10)) [
  | inl small ↦ rw (small, is_digit_of n (ground (arith, small)), shifted n)
  | inr large ↦ rw large (
      scan_digits-decimal_from fuel (n / 10) ((48 + n % 10) ∷ acc) (smaller fuel n le large)
      ∙ rw (is_digit_of (n % 10) (omega arith), whole n))
]

-- A text that starts with a digit is scanned from there.
abbrev StartsWithDigit : Text → Type 0
StartsWithDigit [] = ⊥
StartsWithDigit (c ∷ s) = is_digit c ≡ true

decimal_from-StartsWithDigit :
    (fuel n : ℕ) (acc : Text) → n < fuel → StartsWithDigit (decimal_from fuel n acc)
unfolding decimal_from
decimal_from-StartsWithDigit zero n acc le = absurd (omega arith)
decimal_from-StartsWithDigit (suc fuel) n acc le = elim (Bool-cases (ltb n 10)) [
  | inl small ↦ rw small (is_digit_of n (ground (arith, small)))
  | inr large ↦
      rw large
        (decimal_from-StartsWithDigit fuel (n / 10) ((48 + n % 10) ∷ acc) (smaller fuel n le large))
]

-- No space starts or ends with a digit, in UTF-8.
digit_starts_no_space : (a b c : ℕ) → is_digit a ≡ true → space_bytes a b c ≡ 0
unfolding is_digit space_bytes is_space is_space_2 is_space_3
digit_starts_no_space a b c h = ground (arith, h)

digit_ends_no_space : (c b a : ℕ) → is_digit c ≡ true → space_bytes_back c b a ≡ 0
unfolding is_digit space_bytes_back is_space is_space_2 is_space_3 is_general_space
digit_ends_no_space c b a h = ground (arith, h)

scan_int-StartsWithDigit :
    (t : Text) → StartsWithDigit t → scan_int t ≡ positive_or_zero (scan_digits none t)
unfolding scan_int scan_from
scan_int-StartsWithDigit [] h = absurd h
scan_int-StartsWithDigit (c ∷ s) h = rw (not_newline c h, no_space c s h, unsigned c s h) refl
  where
    not_newline : (c : ℕ) → is_digit c ≡ true → (c == 10) ≡ false
    not_newline c h = unfold is_digit in ground (arith, h)

    no_space : (c : ℕ) (s : Text) → is_digit c ≡ true → leading_space (c ∷ s) ≡ 0
    no_space c s h =
        unfold leading_space byte_at in
        digit_starts_no_space c (byte_at 1 (c ∷ s)) (byte_at 2 (c ∷ s)) h

    unsigned :
        (c : ℕ) (s : Text)
        → is_digit c ≡ true
        → scan_signed (c ∷ s) ≡ positive_or_zero (scan_digits none (c ∷ s))
    unsigned c s h = unfold scan_signed is_digit in ground (arith, h)

scan_int-decimal : (n : ℕ) → n < int64_limit → scan_int (decimal n) ≡ pos n
unfolding decimal
scan_int-decimal n le =
    scan_int-StartsWithDigit (decimal n) (decimal_from-StartsWithDigit (suc n) n [] (omega arith))
    ∙ ap positive_or_zero (scan_digits-decimal_from (suc n) n [] (omega arith))
    ∙ within n le
  where
    within : (n : ℕ) → n < int64_limit → positive_or_zero (scan_digits (some n) []) ≡ pos n
    within n le = unfold scan_digits in rw (lt→ltb n int64_limit le)

-- The digits end with one.
record EndsWithDigit (t : Text) : Type 0 where
  init : Text
  last : ℕ
  digit : is_digit last ≡ true
  parts : t ≡ init ++ last ∷ []

decimal_from-EndsWithDigit :
    (fuel n : ℕ) (acc : Text) → EndsWithDigit acc → EndsWithDigit (decimal_from fuel n acc)
unfolding decimal_from
decimal_from-EndsWithDigit zero n acc h = h
decimal_from-EndsWithDigit (suc fuel) n acc h = elim (Bool-cases (ltb n 10)) [
  | inl small ↦ rw small (more (48 + n) acc h)
  | inr large ↦
      rw large
        (decimal_from-EndsWithDigit fuel (n / 10) ((48 + n % 10) ∷ acc) (more (48 + n % 10) acc h))
]
  where
    more : (c : ℕ) (acc : Text) → EndsWithDigit acc → EndsWithDigit (c ∷ acc)
    more c acc h = record {
      init = c ∷ h.init;
      last = h.last;
      digit = h.digit;
      parts = ap (λ t. c ∷ t) h.parts;
    }

decimal-EndsWithDigit : (n : ℕ) → EndsWithDigit (decimal n)
unfolding decimal decimal_from
decimal-EndsWithDigit n = elim (Bool-cases (ltb n 10)) [
  | inl small ↦ rw small (one n (ground (arith, small)))
  | inr large ↦
      rw large
        (decimal_from-EndsWithDigit n (n / 10) ((48 + n % 10) ∷ []) (one (n % 10) (omega arith)))
]
  where
    one : (d : ℕ) → d < 10 → EndsWithDigit ((48 + d) ∷ [])
    one d le = record { init = []; last = 48 + d; digit = is_digit_of d le; parts = refl }

-- No colon in the path, and no space before it, ASCII or of Unicode.
abbrev pub HasNoColon : Text → Type 0
HasNoColon path = All (λ c. (c == 58) ≡ false) path

abbrev pub StartsWithNoSpace : Text → Type 0
StartsWithNoSpace path = leading_space path ≡ 0

split_colon-path : (path t : Text) → HasNoColon path → split_colon (path ++ 58 ∷ t) ≡ (path, some t)
unfolding split_colon
split_colon-path [] t h = refl
split_colon-path (c ∷ path) t h = rw (h.0, split_colon-path path t h.1)

-- A colon is no part of a space.
colon_first : (b c : ℕ) → space_bytes 58 b c ≡ 0
unfolding space_bytes is_space is_space_2 is_space_3
colon_first b c = ground arith

colon_second : (a c : ℕ) → space_bytes a 0 0 ≡ 0 → space_bytes a 58 c ≡ 0
unfolding space_bytes is_space is_space_2 is_space_3 is_general_space
colon_second a c h = ground (arith, h)

colon_third : (a b : ℕ) → space_bytes a b 0 ≡ 0 → space_bytes a b 58 ≡ 0
unfolding space_bytes is_space is_space_2 is_space_3 is_general_space
colon_third a b h = ground (arith, h)

leading_space-path : (path t : Text) → StartsWithNoSpace path → leading_space (path ++ 58 ∷ t) ≡ 0
unfolding leading_space byte_at
leading_space-path [] t h = colon_first (byte_at 1 (58 ∷ t)) (byte_at 2 (58 ∷ t))
leading_space-path (a ∷ []) t h = colon_second a (byte_at 2 (a ∷ 58 ∷ t)) h
leading_space-path (a ∷ b ∷ []) t h = colon_third a b h
leading_space-path (a ∷ b ∷ c ∷ path) t h = h

trim_by_stays :
    (width : Text → ℕ) (c : ℕ) (t : Text) → width (c ∷ t) ≡ 0 → trim_by width 0 (c ∷ t) ≡ c ∷ t
unfolding trim_by
trim_by_stays width c t h = rw h refl

trim_left-path :
    (path t : Text) → StartsWithNoSpace path → trim_left (path ++ 58 ∷ t) ≡ path ++ 58 ∷ t
unfolding trim_left
trim_left-path [] t h = trim_by_stays leading_space 58 t (leading_space-path [] t h)
trim_left-path (c ∷ path) t h =
    trim_by_stays leading_space c (path ++ 58 ∷ t) (leading_space-path (c ∷ path) t h)

trim_back-digit : (c : ℕ) (t : Text) → is_digit c ≡ true → trim_back (c ∷ t) ≡ c ∷ t
unfolding trim_back
trim_back-digit c t h = trim_by_stays trailing_space c t (
    unfold trailing_space byte_at in
    digit_ends_no_space c (byte_at 1 (c ∷ t)) (byte_at 2 (c ∷ t)) h)

-- The newline that `print` adds is trimmed, and nothing else.
trim_space-line :
    (path t : Text)
    → StartsWithNoSpace path
    → EndsWithDigit t
    → trim_space ((path ++ 58 ∷ t) ++ 10 ∷ []) ≡ path ++ 58 ∷ t
unfolding trim_space
trim_space-line path t start end =
    ap (λ s. reverse (trim_back (reverse s)))
      (ap trim_left (append_assoc path (58 ∷ t) (10 ∷ []))
        ∙ trim_left-path path (t ++ 10 ∷ []) start
        ∙ sym (append_assoc path (58 ∷ t) (10 ∷ [])))
    ∙ ap (λ s. reverse (trim_back s)) (reverse-append (path ++ 58 ∷ t) (10 ∷ []))
    ∙ ap reverse (newline_dropped (reverse (path ++ 58 ∷ t)))
    ∙ ap (λ s. reverse (trim_back (reverse s))) last_out
    ∙ ap (λ s. reverse (trim_back s)) (reverse-append (path ++ 58 ∷ end.init) (end.last ∷ []))
    ∙ ap reverse (trim_back-digit end.last (reverse (path ++ 58 ∷ end.init)) end.digit)
    ∙ ap reverse (sym (reverse-append (path ++ 58 ∷ end.init) (end.last ∷ [])))
    ∙ ap (λ s. reverse (reverse s)) (sym last_out)
    ∙ reverse-reverse (path ++ 58 ∷ t)
  where
    newline_dropped : (s : Text) → trim_back (10 ∷ s) ≡ trim_back s
    newline_dropped s =
        unfold trim_back trim_by trailing_space byte_at space_bytes_back is_space in refl

    last_out : path ++ 58 ∷ t ≡ (path ++ 58 ∷ end.init) ++ end.last ∷ []
    last_out =
        ap (λ u. path ++ 58 ∷ u) end.parts ∙ sym (append_assoc path (58 ∷ end.init) (end.last ∷ []))

-- What the task runner prints, a path, a colon, a size below 2⁶³ in decimal and a newline, is read
-- back as this path and size, for a path that has no colon and starts with no space, ASCII or of
-- Unicode in UTF-8.
pub parse_output-printed :
    (path : Text) (size : ℕ)
    → HasNoColon path
    → StartsWithNoSpace path
    → size < int64_limit
    → parse_output ((path ++ 58 ∷ decimal size) ++ 10 ∷ []) ≡ (path, pos size)
unfolding parse_output
parse_output-printed path size colon start bound =
    ap sized (
      ap split_colon (trim_space-line path (decimal size) start (decimal-EndsWithDigit size))
      ∙ split_colon-path path (decimal size) colon)
    ∙ ap (λ n. (path, n)) (scan_int-decimal size bound)
  where
    sized : Text × Option Text → Text × ℤ
    sized x = (x.0, size_of x.1)
