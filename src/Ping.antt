-- ===== src/Ping.antt =====
-- pipeline/ping.py: the reachability checks. Bytes are numbers; the random bytes, the digest and the
-- answers of the network are arguments. The proofs are in the modules below.
pub mod Salamander
pub mod Probe
pub mod Driver
use Prim.Native.Nat.{bit_xor, bit_and}
use weronity_vpn.Prelude.Int.{ℤ}
use weronity_vpn.Prelude.Result.{Result, ok, ◌>>=◌}
use weronity_vpn.Prelude.{
  ℕ, zero, suc, ◌+◌, ◌-◌, ◌*◌, ◌/◌, ◌%◌, ◌≤◌, String, Bool, true, false, Option, none, some, List,
  [], ◌∷◌, ◌++◌, ◌&&◌, not, leb, eqb, if◌then◌else◌, length, take, map,
}

abbrev pub Bytes : Type 0
Bytes = List ℕ

pub record PingTarget : Type 0 where
  pub host : String
  pub port : ℤ
  pub sni : Option String
  pub want_tls : Bool
  pub udp : Bool
  pub obfs_password : Option String

pub record PingResult : Type 0 where
  pub tcp_ok : Bool
  pub tls_ok : Bool
  pub ping_ms : Option ℕ

abbrev pub no_answer : PingResult
no_answer = record { tcp_ok = false; tls_ok = false; ping_ms = none }

abbrev pub min_datagram : ℕ
min_datagram = 1200

abbrev pub salt_len : ℕ
salt_len = 8

abbrev pub key_len : ℕ
key_len = 32

-- `l[i]`, and 0 past the end, where the code does not read
unfoldable pub byte_at : ℕ → Bytes → ℕ
byte_at i [] = 0
byte_at zero (b ∷ bs) = b
byte_at (suc i) (b ∷ bs) = byte_at i bs

-- `l[n:]`
unfoldable pub drop : ℕ → Bytes → Bytes
drop (suc n) (b ∷ bs) = drop n bs
drop _ bs = bs

-- `quic_probe_packet`, for the random bytes of its three calls of `os.urandom`
unfoldable pub quic_header : Bytes → Bytes → Bytes
quic_header dcid scid = 0xc0 ∷ 0x1a ∷ 0x2a ∷ 0x3a ∷ 0x4a ∷ 8 ∷ (dcid ++ 8 ∷ scid)

unfoldable pub quic_probe_packet : Bytes → Bytes → (ℕ → Bytes) → Bytes
unfolding quic_header
quic_probe_packet dcid scid padding =
    let header = quic_header dcid scid in header ++ padding (min_datagram - length header)

-- `is_version_negotiation`
unfoldable pub is_version_negotiation : Bytes → Bool
unfolding byte_at
is_version_negotiation d =
    leb 7 (length d)
    && (not (eqb (bit_and (byte_at 0 d) 0x80) 0)
        && (eqb (byte_at 1 d) 0
            && (eqb (byte_at 2 d) 0 && (eqb (byte_at 3 d) 0 && eqb (byte_at 4 d) 0))))

-- `bytes(b ^ key[i % 32] for i, b in enumerate(data))`, from position `i` on
unfoldable pub xor_from : Bytes → ℕ → Bytes → Bytes
unfolding byte_at
xor_from key i [] = []
xor_from key i (b ∷ bs) = bit_xor b (byte_at (i % key_len) key) ∷ xor_from key (i + 1) bs

-- The digest is `blake2b(psk + salt, digest_size=32)`.
module _ (digest : Bytes → Bytes) where
  unfoldable pub salamander_xor : Bytes → Bytes → Bytes → Bytes
  unfolding xor_from
  salamander_xor psk salt bytes = xor_from (digest (psk ++ salt)) 0 bytes

  unfoldable pub salamander_obfuscate : Bytes → Bytes → Bytes → Bytes
  unfolding salamander_xor
  salamander_obfuscate psk salt packet = salt ++ salamander_xor psk salt packet

  unfoldable pub salamander_deobfuscate : Bytes → Bytes → Bytes
  unfolding salamander_xor take drop
  salamander_deobfuscate psk datagram =
      if leb (length datagram) salt_len
      then []
      else salamander_xor psk (take salt_len datagram) (drop salt_len datagram)

-- What the datagram protocol of a probe is told.
pub data Event : Type 0 where
  datagram : Bytes → Event
  failure : Event

module _ (digest : Bytes → Bytes) (psk : Option Bytes) where
  unfoldable pub clear : Bytes → Bytes
  unfolding salamander_deobfuscate
  clear bytes = elim psk [ none ↦ bytes | some key ↦ salamander_deobfuscate digest key bytes ]

  -- `_QuicProbe`: the state is the future `answered`; `datagram_received` and `error_received`
  unfoldable pub on_event : Option Bool → Event → Option Bool
  unfolding clear is_version_negotiation
  on_event (some answer) e = some answer
  on_event none (datagram bytes) = if is_version_negotiation (clear bytes) then some true else none
  on_event none failure = some false

  unfoldable pub on_events : Option Bool → List Event → Option Bool
  unfolding on_event
  on_events answered [] = answered
  on_events answered (e ∷ es) = on_events (on_event answered e) es

-- `_probe_one`, for what its network calls end with
unfoldable pub probe_one :
    PingTarget
    → Result (Bool × Option ℕ)
    → Result (Bool × Option ℕ)
    → Result Bool
    → Result PingResult
probe_one t quic tcp tls =
    let over_udp : Result PingResult = quic >>= λ (ok_rtt : Bool × Option ℕ).
    ok (record { tcp_ok = ok_rtt.0; tls_ok = false; ping_ms = ok_rtt.1 }) in
    let over_tcp : Result PingResult = tcp >>= λ (ok_rtt : Bool × Option ℕ).
    (if ok_rtt.0 && t.want_tls then tls else ok false) >>= λ (tls_ok : Bool).
    ok (record { tcp_ok = ok_rtt.0; tls_ok = tls_ok; ping_ms = ok_rtt.1 }) in
    if t.udp then over_udp else over_tcp
