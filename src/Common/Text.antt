-- ===== src/Common/Text.antt =====
-- What the code uses of package strings on texts, and the search of bytes. A text is the characters with the codes of its bytes.
use Prim.Native.Nat.{ℕ}
use Prim.Native.Char.{code}
use Prim.Native.String.{String}
use mathlib.Core.Bool.{Bool, true, false, ◌&&◌, ◌||◌}
use mathlib.Core.List.{List, [], ◌∷◌}
use mathlib.Core.Option.{Option, none, some}
use text.Mathlib.Text.{◌==◌}
use vulos_mail.Common.Tests.{if◌then◌else◌, eqb}

-- s + t
unfoldable pub cat : String → String → String
cat String.[] t = t
cat (String.◌∷◌ c s) t = String.◌∷◌ c (cat s t)

-- the text after the last character with a code: `s[strings.LastIndex(s, c)+1:]`
unfoldable pub after_last : ℕ → String → Option String
after_last n String.[] = none
after_last n (String.◌∷◌ c s) =
    let rest = after_last n s in
    elim rest [ none ↦ if eqb (code c) n then some s else none | some t ↦ some t ]

-- the text before the first character with a code, all of it if there is none
unfoldable pub before_first : ℕ → String → String
before_first n String.[] = String.[]
before_first n (String.◌∷◌ c s) =
    let rest = before_first n s in if eqb (code c) n then String.[] else String.◌∷◌ c rest

-- `strings.HasSuffix`, the suffix first
unfoldable pub has_suffix : String → String → Bool
has_suffix t String.[] = t == String.[]
has_suffix t (String.◌∷◌ c s) = t == String.◌∷◌ c s || has_suffix t s

-- `strings.TrimSuffix(s, ".")`
unfoldable pub trim_dot : String → String
trim_dot String.[] = String.[]
trim_dot (String.◌∷◌ c s) =
    let rest = trim_dot s in
    if eqb (code c) 46 && s == String.[] then String.[] else String.◌∷◌ c rest

-- without the characters whose code passes a test
unfoldable pub without : (ℕ → Bool) → String → String
without p String.[] = String.[]
without p (String.◌∷◌ c s) =
    let rest = without p s in if p (code c) then rest else String.◌∷◌ c rest

-- the same at the head only: `strings.TrimLeftFunc`
unfoldable pub trim_left : (ℕ → Bool) → String → String
trim_left p String.[] = String.[]
trim_left p (String.◌∷◌ c s) =
    let rest = trim_left p s in if p (code c) then rest else String.◌∷◌ c s

-- and at the end only
unfoldable pub trim_right : (ℕ → Bool) → String → String
trim_right p String.[] = String.[]
trim_right p (String.◌∷◌ c s) =
    let rest = trim_right p s in
    if p (code c) && rest == String.[] then String.[] else String.◌∷◌ c rest

-- `bytes.HasPrefix`, the prefix first
unfoldable pub has_prefix : List ℕ → List ℕ → Bool
has_prefix [] xs = true
has_prefix (p ∷ ps) [] = false
has_prefix (p ∷ ps) (x ∷ xs) = let rest = has_prefix ps xs in eqb p x && rest

-- `bytes.Contains`, the part first
unfoldable pub contains : List ℕ → List ℕ → Bool
unfolding has_prefix
contains p [] = has_prefix p []
contains p (x ∷ xs) = has_prefix p (x ∷ xs) || contains p xs

-- `strings.Split` on one byte
unfoldable pub split_at : ℕ → List ℕ → List (List ℕ)
split_at n [] = [] ∷ []
split_at n (x ∷ xs) =
    let rest = split_at n xs in
    if eqb x n then [] ∷ rest else elim rest [ [] ↦ (x ∷ []) ∷ [] | l ∷ ls ↦ (x ∷ l) ∷ ls ]

-- the bytes of an ASCII text
unfoldable pub ascii : String → List ℕ
ascii String.[] = []
ascii (String.◌∷◌ c s) = code c ∷ ascii s
