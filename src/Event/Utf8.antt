-- ===== src/Event/Utf8.antt =====
-- The texts of JSON, as encoding/json writes and reads them for internal/event: UTF-8, in which each byte that
-- is not part of a character is replaced. A text is the characters with the codes of its bytes.
use vulos_mail.Common.{
  ℕ, zero, suc, ◌+◌, ◌-◌, String, Bool, ◌&&◌, ◌||◌, eqb, ltb, leb, if◌then◌else◌,
}
use vulos_mail.Common.Text.{cat}
use Prim.Native.Char.{code}

-- a byte of a text, 0 past its end
unfoldable byte_at : ℕ → String → ℕ
byte_at n String.[] = 0
byte_at zero (String.◌∷◌ c s) = code c
byte_at (suc n) (String.◌∷◌ c s) = byte_at n s

within : ℕ → ℕ → ℕ → Bool
within lo hi n = leb lo n && leb n hi

-- how many bytes the character at the head of a text has, 0 if there is none: `utf8.DecodeRune`
unfoldable pub width : String → ℕ
unfolding byte_at within
width s =
    let a = byte_at 0 s in
    let b = byte_at 1 s in
    let c = within 128 191 (byte_at 2 s) in
    let d = within 128 191 (byte_at 3 s) in
    if ltb a 128
    then 1
    else if within 194 223 a && within 128 191 b
    then 2
    else if within (if eqb a 224 then 160 else 128) (if eqb a 237 then 159 else 191) b
        && (within 224 239 a && c)
    then 3
    else if within (if eqb a 240 then 144 else 128) (if eqb a 244 then 143 else 191) b
        && (within 240 244 a && (c && d))
    then 4
    else 0

-- the first argument counts the bytes that are left of the character begun
unfoldable valid_from : ℕ → String → String
unfolding width cat
valid_from n String.[] = String.[]
valid_from (suc n) (String.◌∷◌ c s) = String.◌∷◌ c (valid_from n s)
valid_from zero (String.◌∷◌ c s) =
    let w = width (String.◌∷◌ c s) in
    let rest = valid_from (w - 1) s in if eqb w 0 then cat "ï¿½" rest else String.◌∷◌ c rest

-- what a text that is written to JSON is read as
unfoldable pub to_valid : String → String
unfolding valid_from
to_valid s = valid_from 0 s

-- how many bytes JSON writes for one byte of ASCII
escaped_size : ℕ → ℕ
escaped_size n =
    if eqb n 34 || (eqb n 92 || (within 8 10 n || within 12 13 n))
    then 2
    else if ltb n 32 || (eqb n 38 || (eqb n 60 || eqb n 62))
    then 6
    else 1

-- U+2028 and U+2029 are escaped
is_separator : String → Bool
is_separator s = eqb (byte_at 0 s) 226 && (eqb (byte_at 1 s) 128 && within 168 169 (byte_at 2 s))

unfoldable size_from : ℕ → String → ℕ
unfolding width escaped_size is_separator within
size_from n String.[] = 0
size_from (suc n) (String.◌∷◌ c s) = 1 + size_from n s
size_from zero (String.◌∷◌ c s) =
    let w = width (String.◌∷◌ c s) in
    let rest = size_from (w - 1) s in
    (if eqb w 0
      then 6
      else if eqb w 1
      then escaped_size (code c)
      else if is_separator (String.◌∷◌ c s)
      then 4
      else 1)
    + rest

-- the number of bytes that JSON writes for a text
unfoldable pub text_size : String → ℕ
unfolding size_from
text_size s = 2 + size_from 0 s
