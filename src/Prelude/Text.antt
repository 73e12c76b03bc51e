-- ===== src/Prelude/Text.antt =====
-- The methods of Python's `str` that the code calls, on native texts, and the printing of numbers.
-- What Python reads from the Unicode tables is a parameter: see `Runtime`.
use Prim.Native.Nat.{ℕ, zero, suc, ◌+◌, ◌/◌, ◌%◌}
use Prim.Native.Char.{Char, code}
use Prim.Native.String.{String, char_at, count as chars, [], ◌∷◌, ◌++◌}
use mathlib.Core.Bool.{Bool, true, false, ◌&&◌, ◌||◌}
use mathlib.Core.Option.{Option, none, some}
use mathlib.Core.List.{List}
use text.Mathlib.Text.{◌==◌, starts_with}
use weronity_vpn.Prelude.Tests.{ltb, leb, eqb, if◌then◌else◌}
use weronity_vpn.Prelude.Int.{ℤ, pos, negsuc}

-- `c.isspace()`
unfoldable pub is_space : Char → Bool
is_space c =
    let n = code c in
    (leb 9 n && leb n 13)
    || (leb 28 n && leb n 32)
    || eqb n 133
    || eqb n 160
    || eqb n 5760
    || (leb 8192 n && leb n 8202)
    || eqb n 8232
    || eqb n 8233
    || eqb n 8239
    || eqb n 8287
    || eqb n 12288

-- `s.lstrip(...)`, for the characters that pass a test
unfoldable pub strip_left : (Char → Bool) → String → String
strip_left p [] = []
strip_left p (c ∷ s) = let rest = strip_left p s in if p c then rest else c ∷ s

-- `s.rstrip(...)`
unfoldable pub strip_right : (Char → Bool) → String → String
strip_right p [] = []
strip_right p (c ∷ s) = let rest = strip_right p s in if p c && rest == "" then [] else c ∷ rest

-- `s.strip()`
unfoldable pub strip : String → String
unfolding strip_left strip_right is_space
strip s = strip_right is_space (strip_left is_space s)

-- `s[n:]`
unfoldable pub drop_chars : ℕ → String → String
drop_chars (suc n) (c ∷ s) = drop_chars n s
drop_chars _ s = s

-- `s[:n]`
unfoldable pub take_chars : ℕ → String → String
take_chars (suc n) (c ∷ s) = c ∷ take_chars n s
take_chars _ s = []

-- `s.partition(sep)` where `sep` occurs, and `none` where it does not
unfoldable pub cut : String → String → Option (String × String)
unfolding drop_chars
cut sep [] = if sep == "" then some ("", "") else none
cut sep (c ∷ s) =
    let later : Option (String × String) = elim (cut sep s) [
      | none ↦ none
      | some (a, b) ↦ some (c ∷ a, b)
    ] in
    if starts_with (c ∷ s) sep then some ("", drop_chars (chars sep) (c ∷ s)) else later

-- `s.rsplit(sep, 1)` where `sep` occurs
unfoldable pub cut_last : String → String → Option (String × String)
unfolding drop_chars
cut_last sep [] = none
cut_last sep (c ∷ s) =
    let here : Option (String × String) =
      if starts_with (c ∷ s) sep then some ("", drop_chars (chars sep) (c ∷ s)) else none in
    elim (cut_last sep s) [ none ↦ here | some (a, b) ↦ some (c ∷ a, b) ]

-- `sep in s`
unfoldable pub contains : String → String → Bool
contains sep [] = sep == ""
contains sep (c ∷ s) = let rest = contains sep s in if starts_with (c ∷ s) sep then true else rest

-- `s.endswith(t)`
unfoldable pub ends_with : String → String → Bool
ends_with [] t = t == ""
ends_with (c ∷ s) t = let rest = ends_with s t in if (c ∷ s) == t then true else rest

onto_first : Char → List String → List String
onto_first c List.[] = List.◌∷◌ (c ∷ []) List.[]
onto_first c (List.◌∷◌ t ts) = List.◌∷◌ (c ∷ t) ts

-- The pieces between the characters that pass a test, the empty ones too.
unfoldable pub split_by : (Char → Bool) → String → List String
unfolding onto_first
split_by p [] = List.◌∷◌ "" List.[]
split_by p (c ∷ s) = let rest = split_by p s in if p c then List.◌∷◌ "" rest else onto_first c rest

-- `s in (a, b, ...)`
unfoldable pub one_of : String → List String → Bool
one_of s List.[] = false
one_of s (List.◌∷◌ t ts) = let rest = one_of s ts in if s == t then true else rest

-- `str(n)` for a number: its decimal digits; one round for each digit, so n + 1 rounds are enough
show_onto : ℕ → ℕ → String → String
show_onto zero n out = out
show_onto (suc f) n out =
    let out' = char_at "0123456789" (n % 10) ∷ out in
    let rest = show_onto f (n / 10) out' in if ltb n 10 then out' else rest

unfoldable pub show_ℕ : ℕ → String
unfolding show_onto
show_ℕ n = show_onto (n + 1) n ""

-- `str(z)`
unfoldable pub show : ℤ → String
unfolding show_ℕ
show (pos n) = show_ℕ n
show (negsuc n) = "-" ++ show_ℕ (n + 1)
