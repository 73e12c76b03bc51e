-- ===== src/Models.antt =====
-- models.py: the parsers' output and the published pool. A node's parameters are a dict of values.
use weronity_vpn.Prelude.{
  ℕ, String, ◌<>◌, Bool, true, false, Option, none, some, List, ◌||◌, ◌==◌, if◌then◌else◌, code,
  eqb,
}
use weronity_vpn.Prelude.Int.{ℤ}
use weronity_vpn.Prelude.Dict.{Dict}
use weronity_vpn.Prelude.Text.{strip, strip_right, take_chars, show}
use weronity_vpn.Prelude.Value.{Value, str, Runtime, truthy, or_value, to_str, get}

pub data Protocol : Type 0 where
  vless vmess trojan hysteria2 shadowsocks tuic shadowtls : Protocol

pub data Transport : Type 0 where
  tcp ws grpc httpupgrade h2 mkcp quic : Transport

pub data LifetimeClass : Type 0 where
  fresh short_lived long_lived : LifetimeClass

pub data Security : Type 0 where
  reality tls plain : Security

-- The text that a literal of `Protocol` is.
unfoldable pub protocol_name : Protocol → String
protocol_name vless = "vless"
protocol_name vmess = "vmess"
protocol_name trojan = "trojan"
protocol_name hysteria2 = "hysteria2"
protocol_name shadowsocks = "shadowsocks"
protocol_name tuic = "tuic"
protocol_name shadowtls = "shadowtls"

unfoldable pub transport_name : Transport → String
transport_name tcp = "tcp"
transport_name ws = "ws"
transport_name grpc = "grpc"
transport_name httpupgrade = "httpupgrade"
transport_name h2 = "h2"
transport_name mkcp = "mkcp"
transport_name quic = "quic"

unfoldable pub lifetime_name : LifetimeClass → String
lifetime_name fresh = "fresh"
lifetime_name short_lived = "short_lived"
lifetime_name long_lived = "long_lived"

-- `protocol in ("hysteria2", "tuic")`
unfoldable pub is_quic : Protocol → Bool
is_quic hysteria2 = true
is_quic tuic = true
is_quic _ = false

pub record Endpoint : Type 0 where
  pub host : String
  pub port : ℤ
  pub resolved_ip : Option String

pub record ParsedNode : Type 0 where
  pub protocol : Protocol
  pub transport : Transport
  pub endpoint : Endpoint
  pub auth : String
  pub tag : String
  pub raw_uri : String
  pub params : Dict Value
  pub source : String
  pub source_file : String

module _ ⦃py : Runtime⦄ where
  -- `ParsedNode.sni`
  unfoldable pub sni : ParsedNode → Option String
  unfolding get or_value to_str
  sni n =
      let v = or_value (get "sni" n.params) (get "host_header" n.params) in
      if truthy v then some (to_str v) else none

  -- `ParsedNode.security`
  unfoldable pub security : ParsedNode → Security
  unfolding get or_value to_str is_quic
  security n =
      let sec = py.lower (to_str (or_value (get "security" n.params) (str ""))) in
      if sec == "reality" || truthy (get "public_key" n.params)
      then reality
      else if sec == "tls" || sec == "xtls" || is_quic n.protocol
      then tls
      else plain

  -- `self.sni or ''`
  unfoldable pub sni_text : ParsedNode → String
  unfolding sni
  sni_text n = elim (sni n) [ none ↦ "" | some s ↦ s ]

  -- `host.lower().rstrip(".")`
  unfoldable pub key_host : ParsedNode → String
  unfolding strip_right
  key_host n = strip_right (λ c. eqb (code c) b'.') (py.lower n.endpoint.host)

  -- `ParsedNode.dedup_key`
  unfoldable pub dedup_key : ParsedNode → String
  unfolding protocol_name transport_name key_host sni_text show
  dedup_key n =
      protocol_name n.protocol
      <> "|"
      <> key_host n
      <> ":"
      <> show n.endpoint.port
      <> "|"
      <> n.auth
      <> "|"
      <> transport_name n.transport
      <> "|"
      <> sni_text n

  -- `ParsedNode.stable_id`
  unfoldable pub stable_id : ParsedNode → String
  unfolding dedup_key take_chars
  stable_id n = take_chars 12 (py.sha1 (dedup_key n))

  -- `ParsedNode.raw_uri_sha1`
  unfoldable pub raw_uri_sha1 : ParsedNode → String
  unfolding strip
  raw_uri_sha1 n = py.sha1 (strip n.raw_uri)

pub record Geo : Type 0 where
  pub country : Option String
  pub country_name : Option String
  pub flag : Option String
  pub asn : Option ℤ
  pub as_org : Option String
  pub city : Option String

abbrev pub no_geo : Geo
no_geo = record {
  country = none;
  country_name = none;
  flag = none;
  asn = none;
  as_org = none;
  city = none;
}

pub record Health : Type 0 where
  pub tcp_ok : Bool
  pub tls_ok : Bool
  pub ping_ms : Option ℕ
  pub checked_at : String

-- `stability` is a number of thousandths: the code rounds it to three places.
pub record Lifetime : Type 0 where
  pub first_seen : String
  pub last_seen : String
  pub age_hours : ℕ
  pub class : LifetimeClass
  pub seen_runs : ℤ
  pub stability : ℤ

pub record Classification : Type 0 where
  pub sni : Option String
  pub security : Security
  pub flow : Option String
  pub cdn : Bool
  pub ipv6 : Bool
  pub udp : Bool

pub record Provenance : Type 0 where
  pub source : String
  pub source_file : String
  pub imported : Bool
  pub raw_uri_sha1 : String

pub record Node : Type 0 where
  pub id : String
  pub protocol : Protocol
  pub transport : Transport
  pub tag : String
  pub endpoint : Endpoint
  pub geo : Geo
  pub health : Health
  pub lifetime : Lifetime
  pub classification : Classification
  pub provenance : Provenance
  pub recommended : Bool
  pub raw_uri : String
  pub outbound : Dict Value

pub record PoolStats : Type 0 where
  pub total : ℕ
  pub by_protocol : Dict ℕ
  pub by_country : Dict ℕ
  pub by_lifetime : Dict ℕ

pub record Pool : Type 0 where
  pub schema_version : ℕ
  pub generated_at : String
  pub generator : String
  pub source_run : Option String
  pub stats : PoolStats
  pub nodes : List Node
