-- ===== src/Affected/Text.antt =====
-- The operations on `str` and `Path` that crates/nxr-affected/src/paths.rs uses. A path is a string whose
-- components stand between slashes.
use Prim.Native.Char.{Char, code}
use Prim.Native.String.{String, [], ◌∷◌, ◌++◌}
use nxr.Base.{ℕ, Bool, true, false, not, Option, none, some, ◌==◌, ◌&&◌, ◌||◌, if◌then◌else◌}
use nxr.Base.Order.{string_ord, eqb}
use nxr.Base.Texts.{starts_with, is_nothing, ascii_uppercase}

-- `replace` of each backslash by a slash.
unfoldable pub slashed : String → String
slashed [] = []
slashed (c ∷ s) = let rest = slashed s in if code c == 92 then "/" ++ rest else c ∷ rest

-- `trim_end_matches` of slashes.
unfoldable pub trim_slashes : String → String
trim_slashes [] = []
trim_slashes (c ∷ s) =
    let rest = trim_slashes s in if is_nothing rest && (code c == 47) then [] else c ∷ rest

-- The text after the last character of code `n`, where there is one.
unfoldable pub after_last : ℕ → String → Option String
after_last n [] = none
after_last n (c ∷ s) = elim (after_last n s) [
  | some rest ↦ some rest
  | none ↦ if code c == n then some s else none
]

-- The text up to the first slash.
unfoldable pub until_slash : String → String
until_slash [] = []
until_slash (c ∷ s) = let rest = until_slash s in if code c == 47 then [] else c ∷ rest

-- Whether a test holds of a component, `at_start` telling that one starts here.
unfoldable pub any_component : (String → Bool) → (at_start : Bool) → String → Bool
unfolding until_slash
any_component p at_start [] = false
any_component p at_start (c ∷ s) =
    let rest = any_component p (code c == 47) s in (at_start && p (until_slash (c ∷ s))) || rest

-- `components().any(|c| matches!(c, ParentDir))`, and `is_absolute`.
unfoldable pub has_parent_dir : String → Bool
has_parent_dir s = any_component (λ c. eqb c "..") true s

unfoldable pub is_absolute : String → Bool
is_absolute s = starts_with s "/"

-- The last component that is neither empty nor `.`; `found` is the last one so far.
unfoldable pub last_component : (found : String) → (at_start : Bool) → String → String
last_component found at_start [] = found
last_component found at_start (c ∷ s) =
    let here = until_slash (c ∷ s) in
    last_component (if at_start && not (is_nothing here) && not (eqb here ".") then here else found)
      (code c == 47) s

-- `extension`: the text after the last dot of the last component, unless that is `..` or the dot is its
-- first character.
unfoldable pub extension_of : String → Option String
extension_of [] = none
extension_of (c ∷ s) = if eqb (c ∷ s) ".." then none else after_last 46 s

unfoldable pub extension : String → Option String
extension path = extension_of (last_component "" true path)

unfoldable pub eq_ignore_ascii_case : String → String → Bool
eq_ignore_ascii_case s t = eqb (ascii_uppercase s) (ascii_uppercase t)

-- `contains(['*', '?', '[', '{'])`, and the text before the first of these.
abbrev pub is_meta : Char → Bool
is_meta c = (code c == 42) || (code c == 63) || (code c == 91) || (code c == 123)

unfoldable pub has_meta : String → Bool
has_meta [] = false
has_meta (c ∷ s) = is_meta c || has_meta s

unfoldable pub before_meta : String → String
before_meta [] = []
before_meta (c ∷ s) = let rest = before_meta s in if is_meta c then [] else c ∷ rest
