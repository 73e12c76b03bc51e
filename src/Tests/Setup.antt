-- ===== src/Tests/Setup.antt =====
-- The parameters of the development at concrete values: an ASCII runtime, a calendar that writes an
-- instant as one mark for each second, a codec without escapes.
use Prim.Native.Char.{Char, code}
use Prim.Native.String.{char_at}
use native.Mathlib.Nat.{div-mul-le_self, lt-div-mul-add}
use weronity_vpn.Prelude.{
  [], ◌∷◌, ℕ, zero, suc, ◌+◌, ◌-◌, ◌*◌, ◌/◌, String, ◌≡◌, refl, ap, Bool, true, false, none, some,
  ◌&&◌, ◌==◌, leb, if◌then◌else◌, arith,
}
use weronity_vpn.Prelude.Int.{pos, negsuc}
use weronity_vpn.Prelude.Value.{Runtime}
use weronity_vpn.Lifetime.{Calendar, second}
use weronity_vpn.Lifetime.Good.{IsLawful}
use weronity_vpn.Lifetime.Derive.{IsRounding}
use weronity_vpn.Classify.{Addresses}
use weronity_vpn.Parsers.Url.{Codec}
use weronity_vpn.Prelude.Value.{str}
use weronity_vpn.Prelude.Result.{Result, ok, err}
use weronity_vpn.Models.{ParsedNode, trojan, ws}

abbrev is_within : ℕ → ℕ → Char → Bool
is_within a b c = leb a (code c) && leb (code c) b

unfoldable pub lower_ascii : String → String
lower_ascii String.[] = ""
lower_ascii (String.◌∷◌ c s) =
    let c' =
      if is_within b'A' b'Z' c then char_at "abcdefghijklmnopqrstuvwxyz" (code c - b'A') else c in
    String.◌∷◌ c' (lower_ascii s)

unfoldable pub upper_ascii : String → String
upper_ascii String.[] = ""
upper_ascii (String.◌∷◌ c s) =
    let c' =
      if is_within b'a' b'z' c then char_at "ABCDEFGHIJKLMNOPQRSTUVWXYZ" (code c - b'a') else c in
    String.◌∷◌ c' (upper_ascii s)

-- The digest is the text itself.
abbrev pub ascii : Runtime
ascii = record {
  lower = lower_ascii;
  upper = upper_ascii;
  printable = is_within 32 126;
  digit = λ c. if is_within b'0' b'9' c then some (code c - b'0') else none;
  sha1 = λ s. s;
  repr = λ v. "";
}

unfoldable pub marks : ℕ → String
marks zero = ""
marks (suc n) = String.◌∷◌ (char_at "x" 0) (marks n)

unfoldable pub marks_of : String → ℕ
marks_of String.[] = 0
marks_of (String.◌∷◌ c s) = suc (marks_of s)

marks_of-marks : (n : ℕ) → marks_of (marks n) ≡ n
unfolding marks marks_of
marks_of-marks zero = refl
marks_of-marks (suc n) = ap (λ (m : ℕ). suc m) (marks_of-marks n)

abbrev nearest : ℕ → ℕ → ℕ
nearest a b = (2000 * a + b) / (2 * b)

abbrev pub calendar : Calendar
calendar = record {
  parse = λ s. some (marks_of s * second);
  format = λ t. marks (t / second);
  ratio = λ z b. elim z [ pos a ↦ pos (nearest a b) | negsuc a ↦ negsuc (nearest (a + 1) b) ];
  past = 100_000_000_000_000_000;
  future = 100_000_000_000_000_000;
}

pub calendar-IsLawful : IsLawful calendar
calendar-IsLawful = record {
  parse-format = λ t.
      let same = marks_of-marks (t / second * second / second) in ap some (omega (arith, same));
}

pub calendar-IsRounding : IsRounding calendar
calendar-IsRounding = record {
  thousandths = nearest;
  ratio-eq = λ a b. refl;
  not_above = λ a b p. grind (arith, div-mul-le_self (2000 * a + b) (2 * b));
  not_below = λ a b p. grind (arith, lt-div-mul-add {a = 2000 * a + b} {b = 2 * b} (omega arith));
}

abbrev pub addresses : Addresses
addresses = record {
  is_global = λ ip. if ip == "10.0.0.1" then some false else some true;
  is_v6 = λ ip. some false;
}

abbrev pub codec : Codec
codec = record {
  unquote = λ s. s;
  brackets_valid = λ s. true;
  normal_form_valid = λ s. true;
  base64 = λ s. none;
  base64_json = λ s. none;
}

-- The value of a run that succeeds, or another one.
abbrev pub value_or : {A : Type 0} → A → Result A → A
value_or a (ok b) = b
value_or a (err e) = a

abbrev pub blank_node : ParsedNode
blank_node = record {
  protocol = trojan;
  transport = ws;
  endpoint = record { host = "a.example"; port = pos 443; resolved_ip = none };
  auth = "pw";
  tag = "one";
  raw_uri = "";
  params = ("password", str "pw") ∷ ("security", str "tls") ∷ [];
  source = "";
  source_file = "";
}
