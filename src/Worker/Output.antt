-- ===== src/Worker/Output.antt =====
-- The task runner's standard output, `path:size`: TrimSpace, SplitN and Sscanf as `process` uses them.
use mini_databricks.Base.{
  ℕ, zero, suc, ◌+◌, ◌-◌, ◌*◌, ℤ, pos, negsuc, Bool, ◌&&◌, ◌||◌, Option, none, some, [], ◌∷◌, ltb,
  leb, ◌==◌, if◌then◌else◌,
}
use mathlib.Core.List.{reverse}
use mini_databricks.Base.Text.{Text}

-- `unicode.IsSpace` of an ASCII byte
unfoldable pub is_space : ℕ → Bool
is_space c = (leb 9 c && leb c 13) || c == 32

-- The spaces of two bytes in UTF-8, U+0085 and U+00A0.
unfoldable pub is_space_2 : ℕ → ℕ → Bool
is_space_2 a b = (b == 133 || b == 160) && a == 194

-- The spaces U+2000 to U+200A, U+2028, U+2029 and U+202F, after the byte 226.
unfoldable pub is_general_space : ℕ → ℕ → Bool
is_general_space b c =
    (((leb 128 c && leb c 138) || (c == 168 || c == 169) || c == 175) && b == 128)
    || (c == 159 && b == 129)

-- The spaces of three bytes, U+205F and those above, U+1680 and U+3000.
unfoldable pub is_space_3 : ℕ → ℕ → ℕ → Bool
unfolding is_general_space
is_space_3 a b c =
    (is_general_space b c && a == 226)
    || ((c == 128 && b == 154) && a == 225)
    || ((c == 128 && b == 128) && a == 227)

-- A byte of a text, 0 where there is none.
unfoldable pub byte_at : ℕ → Text → ℕ
byte_at n [] = 0
byte_at zero (c ∷ s) = c
byte_at (suc n) (c ∷ s) = byte_at n s

-- The number of bytes of the space that starts with the first of three bytes, 0 if none does.
unfoldable pub space_bytes : ℕ → ℕ → ℕ → ℕ
unfolding is_space is_space_2 is_space_3
space_bytes a b c =
    if is_space a then 1 else if is_space_2 a b then 2 else if is_space_3 a b c then 3 else 0

-- The same of the space that ends with the first of three bytes, which are told from the last one on.
unfoldable pub space_bytes_back : ℕ → ℕ → ℕ → ℕ
unfolding is_space is_space_2 is_space_3
space_bytes_back c b a =
    if is_space c then 1 else if is_space_2 b c then 2 else if is_space_3 a b c then 3 else 0

-- `unicode.IsSpace` of the first rune: how many bytes it has, 0 if it is no space.
unfoldable pub leading_space : Text → ℕ
unfolding byte_at space_bytes
leading_space s = space_bytes (byte_at 0 s) (byte_at 1 s) (byte_at 2 s)

-- The same of the last rune of a text that is told from its end.
unfoldable pub trailing_space : Text → ℕ
unfolding byte_at space_bytes_back
trailing_space s = space_bytes_back (byte_at 0 s) (byte_at 1 s) (byte_at 2 s)

-- Drops spaces while there are any; the number is of the bytes left of the space at hand.
unfoldable pub trim_by : (Text → ℕ) → ℕ → Text → Text
trim_by width n [] = []
trim_by width (suc n) (c ∷ s) = trim_by width n s
trim_by width zero (c ∷ s) =
    let rest = trim_by width (width (c ∷ s) - 1) s in if width (c ∷ s) == 0 then c ∷ s else rest

unfoldable pub trim_left : Text → Text
unfolding trim_by leading_space
trim_left s = trim_by leading_space 0 s

-- The text is told from its end.
unfoldable pub trim_back : Text → Text
unfolding trim_by trailing_space
trim_back s = trim_by trailing_space 0 s

-- `strings.TrimSpace`
unfoldable pub trim_space : Text → Text
unfolding trim_left trim_back
trim_space s = reverse (trim_back (reverse (trim_left s)))

-- `strings.SplitN(s, ":", 2)`: what stands before the first colon, and after it if there is one.
unfoldable pub split_colon : Text → Text × Option Text
split_colon [] = ([], none)
split_colon (c ∷ s) =
    let (head, tail) = split_colon s in if c == 58 then ([], some s) else (c ∷ head, tail)

unfoldable pub is_digit : ℕ → Bool
is_digit c = leb 48 c && leb c 57

-- The digits that `%d` takes, as a number; `none` if there is none.
unfoldable pub scan_digits : Option ℕ → Text → Option ℕ
unfolding is_digit
scan_digits seen [] = seen
scan_digits none (c ∷ s) =
    let rest = scan_digits (some (c - 48)) s in if is_digit c then rest else none
scan_digits (some n) (c ∷ s) =
    let rest = scan_digits (some (n * 10 + (c - 48))) s in if is_digit c then rest else some n

abbrev pub int64_limit : ℕ
int64_limit = 9223372036854775808

-- `ParseInt(…, 64)` of what was scanned; the variable keeps its 0 where that fails.
abbrev pub positive_or_zero : Option ℕ → ℤ
positive_or_zero none = pos 0
positive_or_zero (some n) = if ltb n int64_limit then pos n else pos 0

abbrev pub negative_or_zero : Option ℕ → ℤ
negative_or_zero none = pos 0
negative_or_zero (some zero) = pos 0
negative_or_zero (some (suc n)) = if ltb n int64_limit then negsuc n else pos 0

-- After the spaces: a sign, then digits.
unfoldable pub scan_signed : Text → ℤ
unfolding scan_digits
scan_signed [] = pos 0
scan_signed (c ∷ s) =
    if c == 45
    then negative_or_zero (scan_digits none s)
    else if c == 43
    then positive_or_zero (scan_digits none s)
    else positive_or_zero (scan_digits none (c ∷ s))

-- `SkipSpace` and what follows it; the number is of the bytes left of the space at hand.
unfoldable pub scan_from : ℕ → Text → ℤ
unfolding scan_signed leading_space
scan_from n [] = pos 0
scan_from (suc n) (c ∷ s) = scan_from n s
scan_from zero (c ∷ s) =
    let rest = scan_from (leading_space (c ∷ s) - 1) s in
    if c == 10 then pos 0 else if leading_space (c ∷ s) == 0 then scan_signed (c ∷ s) else rest

-- `fmt.Sscanf(s, "%d", &n)` with `n` at 0: spaces are skipped, a newline is an error.
unfoldable pub scan_int : Text → ℤ
unfolding scan_from
scan_int s = scan_from 0 s

abbrev pub size_of : Option Text → ℤ
size_of none = pos 0
size_of (some t) = scan_int t

-- The artifact's path and its size in bytes.
unfoldable pub parse_output : Text → Text × ℤ
unfolding trim_space split_colon scan_int
parse_output output = let (path, size) = split_colon (trim_space output) in (path, size_of size)
