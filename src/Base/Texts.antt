-- ===== src/Base/Texts.antt =====
-- Texts: `trim().is_empty()`, `len` and `contains`.
pub mod Prefix
use Prim.Native.Nat.{ℕ, ◌+◌, ◌-◌, ◌*◌}
use Prim.Native.Char.{Char, code}
use Prim.Native.String.{String, [], ◌∷◌, len, char_at}
use mathlib.Core.Bool.{Bool, true, false, ◌&&◌, ◌||◌}
use mathlib.Core.Option.{Option, none, some}
use nxr.Base.Tests.{leb, ◌==◌, if◌then◌else◌}

-- Unicode's White_Space.
unfoldable pub is_whitespace : Char → Bool
is_whitespace c =
    let n = code c in
    (leb 9 n && leb n 13)
    || (n == 32)
    || (n == 133)
    || (n == 160)
    || (n == 5760)
    || (leb 8192 n && leb n 8202)
    || (n == 8232)
    || (n == 8233)
    || (n == 8239)
    || (n == 8287)
    || (n == 12288)

unfoldable pub is_blank : String → Bool
is_blank [] = true
is_blank (c ∷ s) = is_whitespace c && is_blank s

-- `len`, and `contains` of a character.
unfoldable pub size_in_bytes : String → ℕ
size_in_bytes s = len s

unfoldable pub has_char : ℕ → String → Bool
has_char n [] = false
has_char n (c ∷ s) = (code c == n) || has_char n s

abbrev pub is_nothing : String → Bool
is_nothing [] = true
is_nothing (c ∷ s) = false

-- `trim`, at the start and at the end.
unfoldable pub trim_start : String → String
trim_start [] = []
trim_start (c ∷ s) = if is_whitespace c then trim_start s else c ∷ s

unfoldable pub trim_end : String → String
trim_end [] = []
trim_end (c ∷ s) =
    let rest = trim_end s in if is_nothing rest && is_whitespace c then [] else c ∷ rest

unfoldable pub trim : String → String
unfolding trim_start trim_end
trim s = trim_end (trim_start s)

-- `is_ascii_digit`, and the value of a digit.
abbrev pub is_ascii_digit : Char → Bool
is_ascii_digit c = leb 48 (code c) && leb (code c) 57

-- The text up to the first character that is no digit, and the rest.
unfoldable pub split_digits : String → String × String
split_digits [] = ([], [])
split_digits (c ∷ s) =
    let rest = split_digits s in if is_ascii_digit c then (c ∷ rest.0, rest.1) else ([], c ∷ s)

-- The number that digits denote, after those read so far.
unfoldable pub number_from : ℕ → String → ℕ
number_from n [] = n
number_from n (c ∷ s) = number_from (n * 10 + (code c - 48)) s

-- `to_ascii_uppercase`: a lower-case letter becomes the letter of the same place.
unfoldable pub ascii_uppercase : String → String
ascii_uppercase [] = []
ascii_uppercase (c ∷ s) =
    (if leb 97 (code c) && leb (code c) 122
      then char_at "ABCDEFGHIJKLMNOPQRSTUVWXYZ" (code c - 97)
      else c)
    ∷ ascii_uppercase s

-- A lower-case letter, and then lower-case letters, digits and underscores.
abbrev pub is_ascii_lowercase : Char → Bool
is_ascii_lowercase c = leb 97 (code c) && leb (code c) 122

unfoldable pub all_ident : String → Bool
all_ident [] = true
all_ident (c ∷ s) = (is_ascii_lowercase c || is_ascii_digit c || (code c == 95)) && all_ident s

unfoldable pub is_canonical_ident : String → Bool
unfolding all_ident
is_canonical_ident [] = false
is_canonical_ident (c ∷ s) = is_ascii_lowercase c && all_ident s

unfoldable pub strip_prefix : String → String → Option String
strip_prefix s [] = some s
strip_prefix [] (c ∷ p) = none
strip_prefix (d ∷ s) (c ∷ p) =
    let rest = strip_prefix s p in if code c == code d then rest else none

unfoldable pub starts_with : String → String → Bool
starts_with s p = elim (strip_prefix s p) [ none ↦ false | some _ ↦ true ]

-- `contains` of a text.
unfoldable pub has_text : String → String → Bool
unfolding starts_with
has_text [] p = starts_with [] p
has_text (c ∷ s) p = starts_with (c ∷ s) p || has_text s p

unfoldable pub ascii_lowercase : String → String
ascii_lowercase [] = []
ascii_lowercase (c ∷ s) =
    (if leb 65 (code c) && leb (code c) 90
      then char_at "abcdefghijklmnopqrstuvwxyz" (code c - 65)
      else c)
    ∷ ascii_lowercase s
