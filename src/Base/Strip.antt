-- ===== src/Base/Strip.antt =====
-- `str.strip`, `len` and the tests of the characters of an identifier.
use Prim.Native.Nat.{ℕ, suc}
use Prim.Native.Char.{Char, code}
use Prim.Native.String.{String}
use mathlib.Core.Bool.{Bool, true, false, ◌&&◌, ◌||◌}
use mnemex.Base.Tests.{ltb, leb, ◌==◌, if◌then◌else◌}

-- The characters that `str.strip()` removes.
unfoldable pub is_space : Char → Bool
is_space ch =
    let c = code ch in
    (leb 9 c && leb c 13)
    || (leb 28 c && leb c 32)
    || c == 133
    || c == 160
    || c == 5760
    || (leb 8192 c && leb c 8202)
    || c == 8232
    || c == 8233
    || c == 8239
    || c == 8287
    || c == 12288

unfoldable pub is_empty : String → Bool
is_empty String.[] = true
is_empty (String.◌∷◌ c s) = false

unfoldable pub count : String → ℕ
count String.[] = 0
count (String.◌∷◌ c s) = suc (count s)

unfoldable pub lstrip : String → String
unfolding is_space
lstrip String.[] = String.[]
lstrip (String.◌∷◌ c s) = let rest = lstrip s in if is_space c then rest else String.◌∷◌ c s

unfoldable pub rstrip : String → String
unfolding is_space is_empty
rstrip String.[] = String.[]
rstrip (String.◌∷◌ c s) =
    let rest = rstrip s in if is_space c && is_empty rest then String.[] else String.◌∷◌ c rest

unfoldable pub strip : String → String
unfolding lstrip rstrip
strip s = rstrip (lstrip s)

-- `any(ord(char) < 32 for char in s)`
unfoldable pub has_control : String → Bool
has_control String.[] = false
has_control (String.◌∷◌ c s) = ltb (code c) 32 || has_control s

abbrev is_lower : Char → Bool
is_lower ch = let c = code ch in leb 97 c && leb c 122

-- `[a-z0-9_]*`
unfoldable pub all_code_chars : String → Bool
all_code_chars String.[] = true
all_code_chars (String.◌∷◌ ch s) =
    let c = code ch in (is_lower ch || ((leb 48 c && leb c 57) || c == 95)) && all_code_chars s

abbrev starts_lower : String → Bool
starts_lower String.[] = false
starts_lower (String.◌∷◌ ch s) = is_lower ch

-- `^[a-z][a-z0-9_]*$`, of at most so many characters.
unfoldable pub is_code : ℕ → String → Bool
unfolding all_code_chars count
is_code most s = starts_lower s && (all_code_chars s && leb (count s) most)
