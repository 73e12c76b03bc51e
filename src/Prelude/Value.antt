-- ===== src/Prelude/Value.antt =====
-- The values of Python that come out of JSON, YAML and the parsers, and what the code takes from
-- Python's tables: the letter cases, the digits, the digest, the `repr` of containers.
use Prim.Native.Nat.{ℕ, zero, suc, ◌+◌, ◌*◌}
use Prim.Native.Char.{Char}
use Prim.Native.String.{String}
use mathlib.Core.Bool.{Bool, true, false, not, ◌&&◌}
use mathlib.Core.Option.{Option, none, some}
use mathlib.Core.List.{List, [], ◌∷◌}
use text.Mathlib.Text.{◌==◌}
use weronity_vpn.Prelude.Tests.{if◌then◌else◌}
use weronity_vpn.Prelude.Int.{ℤ, pos, negsuc, is_zero}
use weronity_vpn.Prelude.Dict.{Dict, lookup}
use weronity_vpn.Prelude.Text.{strip, show}

-- What the program reads of a float: its text, whether it is true, and `int` of it.
pub record Float : Type 0 where
  pub text : String
  pub nonzero : Bool
  pub whole : Option ℤ

mutual
  pub data Value : Type 0 where
    null : Value
    bool : Bool → Value
    int : ℤ → Value
    float : Float → Value
    str : String → Value
    obj : Fields → Value
    arr : Items → Value

  pub data Fields : Type 0 where
    end : Fields
    field : String → Value → Fields → Fields

  pub data Items : Type 0 where
    nil : Items
    cons : Value → Items → Items

pub record Runtime : Type 0 where
  pub lower : String → String
  pub upper : String → String
  pub printable : Char → Bool
  pub digit : Char → Option ℕ
  pub sha1 : String → String
  pub repr : Value → String

-- A JSON object as a dict, and a dict as a value.
unfoldable pub to_dict : Fields → Dict Value
to_dict end = []
to_dict (field k v fs) = (k, v) ∷ to_dict fs

abbrev pub fields : Dict Value → Fields
fields [] = end
fields ((k, v) ∷ d) = field k v (fields d)

abbrev pub dict : Dict Value → Value
dict d = obj (fields d)

-- `bool(v)`
unfoldable pub truthy : Value → Bool
truthy null = false
truthy (bool b) = b
truthy (int z) = not (is_zero z)
truthy (float x) = x.nonzero
truthy (str s) = not (s == "")
truthy (arr nil) = false
truthy (arr (cons _ _)) = true
truthy (obj end) = false
truthy (obj (field _ _ _)) = true

-- `a or b`
unfoldable pub or_value : Value → Value → Value
unfolding truthy
or_value a b = if truthy a then a else b

-- `str(v)`
unfoldable pub to_str : ⦃py : Runtime⦄ → Value → String
unfolding show
to_str null = "None"
to_str (bool true) = "True"
to_str (bool false) = "False"
to_str (int z) = show z
to_str (float x) = x.text
to_str (str s) = s
to_str ⦃py⦄ (arr xs) = py.repr (arr xs)
to_str ⦃py⦄ (obj fs) = py.repr (obj fs)

-- `d.get(k, default)`
unfoldable pub get_or : Value → String → Dict Value → Value
unfolding lookup
get_or v k d = elim (lookup k d) [ none ↦ v | some w ↦ w ]

-- `d.get(k)`
unfoldable pub get : String → Dict Value → Value
unfolding get_or
get = get_or null

-- `alpn` and the like: a list of texts as a value
abbrev pub texts : List String → Items
texts [] = nil
texts (t ∷ ts) = cons (str t) (texts ts)

-- The digits of `int(text)`, where one `_` may stand between two digits.
digits : ⦃py : Runtime⦄ → ℕ → Bool → String → Option ℕ
digits n after_digit String.[] = if after_digit then some n else none
digits ⦃py⦄ n after_digit (String.◌∷◌ c s) = elim (py.digit c) [
  | some d ↦ digits (n * 10 + d) true s
  | none ↦
      let rest = digits n false s in
      if after_digit && (String.◌∷◌ c String.[]) == "_" then rest else none
]

signed : ⦃py : Runtime⦄ → String → Option ℤ
unfolding digits
signed String.[] = none
signed (String.◌∷◌ c s) =
    let sign = String.◌∷◌ c String.[] in
    if sign == "-"
    then elim (digits 0 false s) [
      | none ↦ none
      | some zero ↦ some (pos 0)
      | some (suc n) ↦ some (negsuc n)
    ]
    else if sign == "+"
    then elim (digits 0 false s) [ none ↦ none | some n ↦ some (pos n) ]
    else elim (digits 0 false (String.◌∷◌ c s)) [ none ↦ none | some n ↦ some (pos n) ]

-- `int(text)`; `none` is a `ValueError`
unfoldable pub parse_int : ⦃py : Runtime⦄ → String → Option ℤ
unfolding signed strip
parse_int s = signed (strip s)

-- `int(v)`; `none` is a `TypeError`, a `ValueError` or an `OverflowError`
unfoldable pub to_int : ⦃py : Runtime⦄ → Value → Option ℤ
unfolding parse_int
to_int null = none
to_int (bool b) = some (pos (if b then 1 else 0))
to_int (int z) = some z
to_int (float x) = x.whole
to_int (str s) = parse_int s
to_int (arr _) = none
to_int (obj _) = none
