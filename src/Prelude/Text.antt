-- ===== src/Prelude/Text.antt =====
-- Python's operations on `str` that the program calls, character by character.
use Prim.Native.Nat.{ℕ, zero, suc, ◌+◌, ◌-◌}
use Prim.Native.Char.{Char, code}
use Prim.Native.String.{String}
use mathlib.Core.Path.{◌≡◌, refl, ◌∙◌}
use mathlib.Core.Bool.{Bool, true, false, ◌&&◌, ◌||◌}
use mathlib.Core.List.{List, [], ◌∷◌}
use mathlib.Core.Option.{Option, none, some}
use native.Mathlib.Omega.{arith}
use aura_aioscpu.Prelude.Tests.{leb, nat_beq, if◌then◌else◌, string_eq, nat_eq}

-- The code points of a text.
unfoldable pub codes : String → List ℕ
codes String.[] = []
codes (String.◌∷◌ c s) = code c ∷ codes s

-- `str.isspace` of one character, by its code point.
unfoldable pub is_space : ℕ → Bool
is_space c =
    leb 9 c && leb c 13
    || leb 28 c && leb c 32
    || nat_beq c 133
    || nat_beq c 160
    || nat_beq c 5760
    || leb 8192 c && leb c 8202
    || leb 8232 c && leb c 8233
    || nat_beq c 8239
    || nat_beq c 8287
    || nat_beq c 12288

abbrev pub is_empty : String → Bool
is_empty String.[] = true
is_empty (String.◌∷◌ c s) = false

-- `s + t`
abbrev pub concat : String → String → String
concat String.[] t = t
concat (String.◌∷◌ c s) t = String.◌∷◌ c (concat s t)

-- `s.lstrip(…)` for the characters that satisfy the test
unfoldable pub lstrip : (ℕ → Bool) → String → String
lstrip p String.[] = String.[]
lstrip p (String.◌∷◌ c s) = if p (code c) then lstrip p s else String.◌∷◌ c s

unfoldable pub rstrip : (ℕ → Bool) → String → String
rstrip p String.[] = String.[]
rstrip p (String.◌∷◌ c s) =
    let rest = rstrip p s in if p (code c) && is_empty rest then String.[] else String.◌∷◌ c rest

-- `s.strip()`
unfoldable pub strip : String → String
unfolding lstrip rstrip is_space
strip s = rstrip is_space (lstrip is_space s)

-- The text before the first separator: the head of `s.split(sep)`, which is never empty.
unfoldable pub first_part : ℕ → String → String
first_part sep String.[] = String.[]
first_part sep (String.◌∷◌ c s) =
    if nat_beq (code c) sep then String.[] else String.◌∷◌ c (first_part sep s)

-- `str.lower` on a code point, for the letters of ASCII
unfoldable pub lower : ℕ → ℕ
lower c = if leb b'A' c && leb c b'Z' then c + 32 else c

-- `==` on texts given by their code points
unfoldable pub codes_eq : List ℕ → List ℕ → Bool
codes_eq [] [] = true
codes_eq (a ∷ s) (b ∷ t) = nat_beq a b && codes_eq s t
codes_eq _ _ = false

-- `s.replace(a, b)` for two characters
unfoldable pub replace : Char → Char → String → String
replace a b String.[] = String.[]
replace a b (String.◌∷◌ c s) =
    String.◌∷◌ (if nat_beq (code c) (code a) then b else c) (replace a b s)

-- Every character of the text satisfies the test.
unfoldable pub all_chars : (ℕ → Bool) → String → Bool
all_chars p String.[] = true
all_chars p (String.◌∷◌ c s) = p (code c) && all_chars p s

is_empty-rstrip : (p : ℕ → Bool) (s : String) → is_empty (rstrip p s) ≡ all_chars p s
unfolding rstrip all_chars
is_empty-rstrip p String.[] = refl
is_empty-rstrip p (String.◌∷◌ c s) = ground (arith, is_empty-rstrip p s)

all_chars-lstrip : (p : ℕ → Bool) (s : String) → all_chars p (lstrip p s) ≡ all_chars p s
unfolding lstrip all_chars
all_chars-lstrip p String.[] = refl
all_chars-lstrip p (String.◌∷◌ c s) = ground (arith, all_chars-lstrip p s)

-- `s.strip()` is empty exactly when the text is all space.
pub is_empty-strip : (s : String) → is_empty (strip s) ≡ all_chars is_space s
unfolding strip
is_empty-strip s = is_empty-rstrip is_space (lstrip is_space s) ∙ all_chars-lstrip is_space s

-- `len(s)`
unfoldable pub text_length : String → ℕ
text_length String.[] = 0
text_length (String.◌∷◌ c s) = text_length s + 1

-- `s.startswith(p)`
unfoldable pub starts_with : String → String → Bool
starts_with String.[] s = true
starts_with (String.◌∷◌ a p) String.[] = false
starts_with (String.◌∷◌ a p) (String.◌∷◌ c s) = nat_beq (code a) (code c) && starts_with p s

-- `s.endswith(p)`
unfoldable pub ends_with : String → String → Bool
ends_with p String.[] = is_empty p
ends_with p (String.◌∷◌ c s) = codes_eq (codes p) (code c ∷ codes s) || ends_with p s

-- `s.replace(p, "")` for a text that is not empty, `k` characters of the last occurrence to come
unfoldable pub without_from : String → ℕ → String → String
without_from p k String.[] = String.[]
without_from p zero (String.◌∷◌ c s) = elim (starts_with p (String.◌∷◌ c s)) [
  | true ↦ without_from p (text_length p - 1) s
  | false ↦ String.◌∷◌ c (without_from p zero s)
]
without_from p (suc k) (String.◌∷◌ c s) = without_from p k s

unfoldable pub without : String → String → String
without p s = without_from p 0 s

-- The character in front of the first text.
unfoldable pub prefix_first : Char → List String → List String
prefix_first c [] = String.◌∷◌ c String.[] ∷ []
prefix_first c (p ∷ ps) = String.◌∷◌ c p ∷ ps

-- `s.split(sep)` for one character
unfoldable pub split : ℕ → String → List String
split sep String.[] = String.[] ∷ []
split sep (String.◌∷◌ c s) =
    let rest = split sep s in if nat_beq (code c) sep then String.[] ∷ rest else prefix_first c rest

-- `s.rsplit(sep, 1)`: `none` where the character does not occur
unfoldable pub rsplit : ℕ → String → Option (String × String)
rsplit sep String.[] = none
rsplit sep (String.◌∷◌ c s) = elim (rsplit sep s) [
  | some parts ↦ some (String.◌∷◌ c parts.0, parts.1)
  | none ↦ if nat_beq (code c) sep then some (String.[], s) else none
]

-- The character that stands in the second text where the first has `c`; `c` where it has not.
unfoldable pub translate : String → String → Char → Char
translate (String.◌∷◌ a from) (String.◌∷◌ b to) c =
    if nat_beq (code a) (code c) then b else translate from to c
translate _ _ c = c

-- `str.lower` for the letters of ASCII
unfoldable pub lower_text : String → String
lower_text String.[] = String.[]
lower_text (String.◌∷◌ c s) =
    String.◌∷◌ (translate "ABCDEFGHIJKLMNOPQRSTUVWXYZ" "abcdefghijklmnopqrstuvwxyz" c)
      (lower_text s)

-- `s.split(sep, 1)` for a separator that occurs: `none` where it does not
unfoldable pub split_once : ℕ → String → Option (String × String)
split_once sep String.[] = none
split_once sep (String.◌∷◌ c s) =
    if nat_beq (code c) sep
    then some (String.[], s)
    else elim (split_once sep s) [ none ↦ none | some parts ↦ some (String.◌∷◌ c parts.0, parts.1) ]

-- `s[len(p):]` where `s.startswith(p)`
unfoldable pub remove_prefix : String → String → Option String
remove_prefix String.[] s = some s
remove_prefix (String.◌∷◌ a p) String.[] = none
remove_prefix (String.◌∷◌ a p) (String.◌∷◌ c s) =
    let rest = remove_prefix p s in if nat_beq (code a) (code c) then rest else none

-- `c in s` for a character
unfoldable pub contains_char : ℕ → String → Bool
contains_char x String.[] = false
contains_char x (String.◌∷◌ c s) = nat_beq (code c) x || contains_char x s

-- `str.upper` for the letters of ASCII
unfoldable pub upper_text : String → String
upper_text String.[] = String.[]
upper_text (String.◌∷◌ c s) =
    String.◌∷◌ (translate "abcdefghijklmnopqrstuvwxyz" "ABCDEFGHIJKLMNOPQRSTUVWXYZ" c)
      (upper_text s)

-- `t in s`
unfoldable pub contains_text : String → String → Bool
contains_text t String.[] = is_empty t
contains_text t (String.◌∷◌ c s) = starts_with t (String.◌∷◌ c s) || contains_text t s
