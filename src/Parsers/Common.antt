-- ===== src/Parsers/Common.antt =====
-- parsers/common.py
use weronity_vpn.Prelude.{
  ℕ, ◌%◌, String, ◌<>◌, code, Bool, true, false, none, some, List, [], ◌∷◌, ◌||◌, not, ◌==◌, eqb,
  if◌then◌else◌, map, select,
}
use Prim.Native.String.{count as chars}
use weronity_vpn.Prelude.Int.{ℤ, pos}
use weronity_vpn.Prelude.Dict.{Dict, lookup}
use weronity_vpn.Prelude.Text.{cut, cut_last, strip, one_of, show}
use weronity_vpn.Prelude.Value.{Value, null, str, arr, nil, Runtime, to_str, parse_int}
use weronity_vpn.Prelude.Result.{Result, ok, err, parse_error, ◌>>=◌, ◌>>◌, guard, or_raise}
use weronity_vpn.Models.{Protocol, Transport, ParsedNode}
use weronity_vpn.Parsers.Url.{Codec, authority, split_at}

-- `except ValueError`: the parsers' own error is one too.
abbrev pub as_parse_error {ℓ} : {A : Type ℓ} → Result A → Result A
as_parse_error (ok a) = ok a
as_parse_error (err e) = err parse_error

-- `require`
abbrev pub require : Bool → Result (Unit {0})
require test = guard test parse_error

module _ (codec : Codec) where
  -- `split_name`
  unfoldable pub split_name : String → String × String
  unfolding cut strip
  split_name uri = elim (cut "#" uri) [
    | none ↦ (uri, "")
    | some (body, frag) ↦ (body, strip (codec.unquote frag))
  ]

  -- `split_userinfo_host`
  unfoldable pub split_userinfo_host : ⦃py : Runtime⦄ → String → Result (String × String × ℕ)
  unfolding authority cut_last
  split_userinfo_host rest = do
    parts ← as_parse_error (authority codec rest)
    require (not (parts.hostname == ""))
    port ← or_raise parse_error parts.port
    require (not (eqb port 0))
    let userinfo : String = elim (cut_last "@" parts.netloc) [ none ↦ "" | some (a, _) ↦ a ]
    ok (codec.unquote userinfo, parts.hostname, port)

-- `first`
unfoldable pub first_or : String → Dict String → List String → String
unfolding lookup
first_or default d [] = default
first_or default d (k ∷ ks) =
    let rest = first_or default d ks in
    elim (lookup k d) [ none ↦ rest | some v ↦ if v == "" then rest else v ]

abbrev pub first : Dict String → List String → String
first = first_or ""

-- `q.get(k, default)`, and `q.get(k) or default`
unfoldable pub get_text : String → String → Dict String → String
unfolding lookup
get_text default k q = elim (lookup k q) [ none ↦ default | some v ↦ v ]

unfoldable pub get_nonempty : String → String → Dict String → String
unfolding get_text
get_nonempty default k q = let v = get_text "" k q in if v == "" then default else v

-- `as_bool(q.get(k))`; the text of a missing value is no true word
unfoldable pub as_bool : ⦃py : Runtime⦄ → String → Bool
unfolding one_of
as_bool ⦃py⦄ text = one_of (py.lower text) ("1" ∷ "true" ∷ "yes" ∷ "on" ∷ [])

-- `as_int`
unfoldable pub as_int : ⦃py : Runtime⦄ → Value → ℤ
unfolding to_str parse_int
as_int v = elim (parse_int (strip (to_str v))) [ none ↦ pos 0 | some z ↦ z ]

-- `csv_list`
unfoldable pub csv_list : String → List String
unfolding strip split_at select
csv_list value =
    if value == "" then [] else select (λ t. not (t == "")) (map strip (split_at b',' value))

-- A text, with `x or None`.
abbrev pub or_none : String → Value
or_none s = if s == "" then null else str s

-- `v not in (None, [], "")`
unfoldable pub is_blank : Value → Bool
is_blank null = true
is_blank (str s) = s == ""
is_blank (arr nil) = true
is_blank _ = false

-- `{k: v for k, v in params.items() if v not in (None, [], "")}`
unfoldable pub without_blanks : Dict Value → Dict Value
unfolding is_blank
without_blanks [] = []
without_blanks ((k, v) ∷ d) =
    let rest = without_blanks d in if is_blank v then rest else (k, v) ∷ rest

-- The node that a parser returns. A node has no source before the harvester sets it.
unfoldable pub node_of :
    Protocol → Transport → String → ℤ → String → String → String → Dict Value → ParsedNode
unfolding strip show
node_of protocol transport host port auth name uri params = record {
  protocol = protocol;
  transport = transport;
  endpoint = record { host = host; port = port; resolved_ip = none };
  auth = auth;
  tag = if name == "" then host <> ":" <> show port else name;
  raw_uri = strip uri;
  params = params;
  source = "";
  source_file = "";
}

-- `s.replace(...)` of line ends by nothing, and of the URL-safe letters by the plain ones.
plain_base64 : String → String
plain_base64 String.[] = ""
plain_base64 (String.◌∷◌ c s) =
    let rest = plain_base64 s in
    let n = code c in
    if eqb n 10 || eqb n 13
    then rest
    else if eqb n b'-'
    then "+" <> rest
    else if eqb n b'_'
    then "/" <> rest
    else String.◌∷◌ c rest

-- `"=" * (-len(s) % 4)`
unfoldable pub padding : ℕ → String
padding n =
    let r = n % 4 in
    if eqb r 0 then "" else if eqb r 1 then "===" else if eqb r 2 then "==" else "="

-- What `b64decode_any` hands to the decoder.
unfoldable pub prepare_base64 : String → String
unfolding strip plain_base64 padding
prepare_base64 data_text = let s = plain_base64 (strip data_text) in s <> padding (chars s)
