-- ===== src/Parsers/Url.antt =====
-- What the parsers use of `urllib.parse`: the authority of `urlsplit("//" + rest)` and `parse_qs`.
-- The percent decoding and the checks of bracketed and of non-ASCII authorities are parameters.
use weronity_vpn.Prelude.{
  ℕ, ◌+◌, ◌-◌, ◌*◌, String, ◌<>◌, code, Bool, Option, none, some, List, [], ◌∷◌, ◌&&◌, ◌||◌, not,
  ◌==◌, leb, eqb, if◌then◌else◌,
}
use weronity_vpn.Prelude.Dict.{Dict, insert}
use weronity_vpn.Prelude.Text.{cut, cut_last, contains}
use weronity_vpn.Prelude.Value.{Runtime, Value}
use weronity_vpn.Prelude.Result.{Result, ok, err, value_error, ◌>>=◌, ◌>>◌, guard}

-- `unquote`; the tests of `urlsplit` on an authority; `base64.b64decode` with its bytes read as UTF-8,
-- and `json.loads` of its bytes.
pub record Codec : Type 0 where
  pub unquote : String → String
  pub brackets_valid : String → Bool
  pub normal_form_valid : String → Bool
  pub base64 : String → Option String
  pub base64_json : String → Option Value

-- The text before the first of `/`, `?` and `#`.
unfoldable pub netloc_of : String → String
netloc_of String.[] = ""
netloc_of (String.◌∷◌ c s) =
    let rest = netloc_of s in
    let n = code c in if eqb n b'/' || eqb n b'?' || eqb n b'#' then "" else String.◌∷◌ c rest

-- `urlsplit` takes tabs and line ends out.
unfoldable pub without_breaks : String → String
without_breaks String.[] = ""
without_breaks (String.◌∷◌ c s) =
    let rest = without_breaks s in
    let n = code c in if eqb n 9 || eqb n 10 || eqb n 13 then rest else String.◌∷◌ c rest

-- The number of a text of ASCII digits; `none` for any other text.
decimal : ℕ → String → Option ℕ
decimal n String.[] = some n
decimal n (String.◌∷◌ c s) =
    let d = code c in
    let rest = decimal (n * 10 + (d - b'0')) s in if leb b'0' d && leb d b'9' then rest else none

-- The property `port`: absent where it is empty, and a `ValueError` out of 0 to 65535.
unfoldable pub port_of : String → Result (Option ℕ)
unfolding decimal
port_of text = if text == "" then ok none else elim (decimal 0 text) [
  | none ↦ err value_error
  | some n ↦ if leb n 65535 then ok (some n) else err value_error
]

abbrev pub before : String → Option (String × String) → String
before whole none = whole
before whole (some (a, _)) = a

abbrev pub behind : Option (String × String) → String
behind none = ""
behind (some (_, b)) = b

-- `rpartition('@')[2]`
abbrev pub host_part : String → String
host_part netloc = elim (cut_last "@" netloc) [ none ↦ netloc | some (_, b) ↦ b ]

-- `_hostinfo`: the host and the text of the port.
unfoldable pub hostinfo : String → String × String
unfolding cut cut_last
hostinfo netloc =
    let info = host_part netloc in
    elim (cut "[" info) [
      | some (_, bracketed) ↦
          (before bracketed (cut "]" bracketed), behind (cut ":" (behind (cut "]" bracketed))))
      | none ↦ (before info (cut ":" info), behind (cut ":" info))
    ]

-- The property `hostname`: lower case but for a zone; "" stands for `None`.
unfoldable pub hostname_of : ⦃py : Runtime⦄ → String → String
unfolding cut
hostname_of ⦃py⦄ host = elim (cut "%" host) [
  | none ↦ py.lower host
  | some (a, zone) ↦ py.lower a <> "%" <> zone
]

pub record Authority : Type 0 where
  pub netloc : String
  pub hostname : String
  pub port : Option ℕ

module _ ⦃py : Runtime⦄ (codec : Codec) where
  unfoldable pub authority : String → Result Authority
  unfolding netloc_of without_breaks hostinfo hostname_of port_of contains
  authority rest = do
    let netloc = netloc_of (without_breaks rest)
    let open_br = contains "[" netloc
    let close_br = contains "]" netloc
    guard (if open_br then close_br else not close_br) value_error
    guard (not open_br || codec.brackets_valid netloc) value_error
    guard (codec.normal_form_valid netloc) value_error
    port ← port_of (hostinfo netloc).1
    ok (record { netloc = netloc; hostname = hostname_of (hostinfo netloc).0; port = port })

-- `value.replace("+", " ")`
unfoldable pub plus_to_space : String → String
plus_to_space String.[] = ""
plus_to_space (String.◌∷◌ c s) =
    let rest = plus_to_space s in if eqb (code c) b'+' then " " <> rest else String.◌∷◌ c rest

-- The texts between the occurrences of a character.
split_onto : ℕ → String → String → List String
split_onto sep cur String.[] = cur ∷ []
split_onto sep cur (String.◌∷◌ c s) =
    let ends = eqb (code c) sep in
    let rest = split_onto sep (if ends then "" else cur <> String.◌∷◌ c "") s in
    if ends then cur ∷ rest else rest

unfoldable pub split_at : ℕ → String → List String
unfolding split_onto
split_at sep s = split_onto sep "" s

module _ (codec : Codec) where
  -- The loop of `parse_qs` over the fields, with the last value of a name kept, as `flat_qs` does.
  unfoldable pub add_fields : List String → Dict String → Dict String
  unfolding cut plus_to_space insert
  add_fields [] q = q
  add_fields (field ∷ fields) q =
      let name = codec.unquote (plus_to_space (before field (cut "=" field))) in
      let value = codec.unquote (plus_to_space (behind (cut "=" field))) in
      add_fields fields (if field == "" then q else insert name value q)

  unfoldable pub flat_qs : String → Dict String
  unfolding split_at add_fields
  flat_qs query = add_fields (split_at b'&' query) []
