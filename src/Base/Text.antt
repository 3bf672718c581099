-- ===== src/Base/Text.antt =====
-- Go strings. A text is valid UTF-8, so it is its sequence of code points.
pub mod Trim
use Prim.Native.Nat.{ℕ, suc, ◌+◌, ◌/◌, ◌%◌}
use Prim.Native.Char.{Char, code}
use Prim.Native.String.{String, ◌++◌ as ◌++s◌}
use mathlib.Core.Bool.{Bool, true, false, ◌&&◌, ◌||◌}
use mathlib.Core.List.{List, [], ◌∷◌, ◌++◌}
use text.Mathlib.Text.{◌==◌ as text_eq}
use b46_ordering_app_backend.Base.Tests.{ltb, leb, ◌==◌, if◌then◌else◌}
use b46_ordering_app_backend.Base.Lists.{length}

infix 50 ◌=s=◌
abbrev pub ◌=s=◌ : String → String → Bool
a =s= b = text_eq a b

-- utf8.RuneCountInString.
unfoldable pub rune_count : String → ℕ
rune_count String.[] = 0
rune_count (String.◌∷◌ c s) = suc (rune_count s)

-- The UTF-8 encoding of a code point.
abbrev encode_rune : ℕ → List ℕ
encode_rune c =
    if ltb c 0x80
    then c ∷ []
    else if ltb c 0x800
    then (0xC0 + c / 64) ∷ (0x80 + c % 64) ∷ []
    else if ltb c 0x10000
    then (0xE0 + c / 4096) ∷ (0x80 + c / 64 % 64) ∷ (0x80 + c % 64) ∷ []
    else (0xF0 + c / 262144) ∷ (0x80 + c / 4096 % 64) ∷ (0x80 + c / 64 % 64) ∷ (0x80 + c % 64) ∷ []

-- The bytes that Go indexes and counts.
unfoldable pub bytes : String → List ℕ
bytes String.[] = []
bytes (String.◌∷◌ c s) = encode_rune (code c) ++ bytes s

-- len(s).
unfoldable pub byte_len : String → ℕ
unfolding bytes
byte_len s = length (bytes s)

-- unicode.IsSpace.
unfoldable pub is_space : ℕ → Bool
is_space c =
    (leb 9 c && leb c 13)
    || (c == 0x20)
    || (c == 0x85)
    || (c == 0xA0)
    || (c == 0x1680)
    || (leb 0x2000 c && leb c 0x200A)
    || (c == 0x2028)
    || (c == 0x2029)
    || (c == 0x202F)
    || (c == 0x205F)
    || (c == 0x3000)

trim_left : String → String
trim_left String.[] = ""
trim_left (String.◌∷◌ c s) = if is_space (code c) then trim_left s else String.◌∷◌ c s

abbrev is_empty : String → Bool
is_empty String.[] = true
is_empty (String.◌∷◌ c s) = false

abbrev end_trimmed : Char → String → String
end_trimmed c r = if is_empty r && is_space (code c) then "" else String.◌∷◌ c r

trim_right : String → String
trim_right String.[] = ""
trim_right (String.◌∷◌ c s) = end_trimmed c (trim_right s)

-- strings.TrimSpace.
unfoldable pub trim_space : String → String
unfolding trim_left trim_right is_space
trim_space s = trim_right (trim_left s)

-- strings.Map with a function that keeps every code point.
unfoldable pub map_runes : (Char → Char) → String → String
map_runes f String.[] = ""
map_runes f (String.◌∷◌ c s) = String.◌∷◌ (f c) (map_runes f s)

bytes_lt : List ℕ → List ℕ → Bool
bytes_lt [] [] = false
bytes_lt [] (y ∷ ys) = true
bytes_lt (x ∷ xs) [] = false
bytes_lt (x ∷ xs) (y ∷ ys) = ltb x y || (x == y && bytes_lt xs ys)

-- Go's `<` on strings.
unfoldable pub text_lt : String → String → Bool
unfolding bytes bytes_lt
text_lt a b = bytes_lt (bytes a) (bytes b)

-- Go's `+` on strings.
unfoldable pub concat : String → String → String
concat s t = s ++s t
