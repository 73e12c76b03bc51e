-- ===== src/Classify.antt =====
-- pipeline/classify.py: the classification block. `ipaddress` is a parameter: its answer is `none`
-- where it raises `ValueError`.
use weronity_vpn.Prelude.{
  ℕ, String, Bool, false, Option, none, some, List, [], ◌∷◌, ◌||◌, ◌==◌, eqb, if◌then◌else◌, any_of,
}
use weronity_vpn.Prelude.Int.{ℤ, pos, negsuc}
use weronity_vpn.Prelude.Value.{Value, null, str, Runtime, truthy, get}
use weronity_vpn.Prelude.Result.{Result, ok, err, value_error, ◌>>=◌}
use weronity_vpn.Models.{ParsedNode, Geo, Classification, sni, security, is_quic}

-- What the code asks `ipaddress.ip_address(text)`.
pub record Addresses : Type 0 where
  pub is_global : String → Option Bool
  pub is_v6 : String → Option Bool

abbrev pub cdn_asns : List ℕ
cdn_asns =
    13335 ∷ 16509 ∷ 14618 ∷ 15169 ∷ 20940 ∷ 16625 ∷ 12222 ∷ 8075 ∷ 54113 ∷ 13238 ∷ 139057 ∷ 55990
    ∷ 396982 ∷ 24429 ∷ 37963 ∷ 45102 ∷ []

unfoldable pub is_cdn : Option ℤ → Bool
unfolding any_of
is_cdn none = false
is_cdn (some (pos asn)) = any_of (eqb asn) cdn_asns
is_cdn (some (negsuc _)) = false

-- `if node.endpoint.resolved_ip:` with its `try`
unfoldable pub is_ipv6 : Addresses → Option String → Bool
is_ipv6 net none = false
is_ipv6 net (some ip) =
    if ip == "" then false else elim (net.is_v6 ip) [ none ↦ false | some v6 ↦ v6 ]

-- The validation of a field `str | None`.
unfoldable pub optional_text : Value → Result (Option String)
optional_text null = ok none
optional_text (str s) = ok (some s)
optional_text _ = err value_error

unfoldable pub classify : ⦃py : Runtime⦄ → Addresses → ParsedNode → Geo → Result Classification
unfolding get truthy is_cdn is_ipv6 optional_text
classify net node geo = do
  flow ← optional_text (get "flow" node.params)
  ok (record {
    sni = sni node;
    security = security node;
    flow = flow;
    cdn = is_cdn geo.asn;
    ipv6 = is_ipv6 net node.endpoint.resolved_ip;
    udp = is_quic node.protocol || truthy (get "udp" node.params);
  })
