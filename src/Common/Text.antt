-- ===== src/Common/Text.antt =====
-- Tests on whole texts: Python's `str.strip` and lowercase hexadecimal digests.
use Prim.Native.Nat.{ℕ, suc, zero}
use Prim.Native.Char.{Char, code}
use Prim.Native.String.{String, ◌++◌}
use mathlib.Core.Path.{◌≡◌, refl}
use mathlib.Core.Bool.{Bool, true, false, not, ◌&&◌, ◌||◌}
use guildmind.Common.Tests.{leb, eqb, if◌then◌else◌}

-- `str.isspace` of one character, which `strip` removes.
unfoldable pub is_space : Char → Bool
is_space ch =
    let c = code ch in
    (leb 9 c && leb c 13)
    || (leb 28 c && leb c 32)
    || eqb c 0x85
    || eqb c 0xa0
    || eqb c 0x1680
    || (leb 0x2000 c && leb c 0x200a)
    || eqb c 0x2028
    || eqb c 0x2029
    || eqb c 0x202f
    || eqb c 0x205f
    || eqb c 0x3000

-- `bool(value.strip())`
unfoldable pub has_text : String → Bool
unfolding is_space
has_text String.[] = false
has_text (String.◌∷◌ c s) = not (is_space c) || has_text s

-- `len(value)`
unfoldable pub count_chars : String → ℕ
count_chars String.[] = 0
count_chars (String.◌∷◌ c s) = suc (count_chars s)

unfoldable pub is_hex : Char → Bool
is_hex ch = let c = code ch in (leb b'0' c && leb c b'9') || (leb b'a' c && leb c b'f')

unfoldable pub all_hex : String → Bool
unfolding is_hex
all_hex String.[] = true
all_hex (String.◌∷◌ c s) = is_hex c && all_hex s

-- Sixty-four lowercase hexadecimal digits.
unfoldable pub is_lower_sha256 : String → Bool
unfolding count_chars all_hex
is_lower_sha256 s = eqb (count_chars s) 64 && all_hex s

-- `value[:n]`
unfoldable pub take_chars : ℕ → String → String
take_chars zero s = ""
take_chars (suc n) String.[] = ""
take_chars (suc n) (String.◌∷◌ c s) = String.◌∷◌ c (take_chars n s)

-- `value.removeprefix(prefix)` where `value.startswith(prefix)`
unfoldable pub drop_chars : ℕ → String → String
drop_chars zero s = s
drop_chars (suc n) String.[] = ""
drop_chars (suc n) (String.◌∷◌ c s) = drop_chars n s

unfoldable pub strip_left : String → String
unfolding is_space
strip_left String.[] = ""
strip_left (String.◌∷◌ c s) = let rest = strip_left s in if is_space c then rest else String.◌∷◌ c s

unfoldable pub strip_right : String → String
unfolding has_text
strip_right String.[] = ""
strip_right (String.◌∷◌ c s) =
    if has_text (String.◌∷◌ c s) then String.◌∷◌ c (strip_right s) else ""

unfoldable pub strip : String → String
unfolding strip_left strip_right
strip s = strip_right (strip_left s)

-- Concatenation of texts.
abbrev pub concat : String → String → String
concat a b = a ++ b

strip_test : strip "  ab c " ≡ "ab c"
unfolding strip
strip_test = refl

is_lower_sha256_test :
    is_lower_sha256 "0123456789abcdef0123456789abcdef0123456789abcdef0123456789abcdef" ≡ true
unfolding is_lower_sha256
is_lower_sha256_test = refl
