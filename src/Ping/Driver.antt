-- ===== src/Ping/Driver.antt =====
-- pipeline/ping.py: the three network calls with their errors, and `ping_many` as a system of tasks
-- that share a semaphore, interleaved in any order. The proofs are in the modules below.
pub mod Interleave
pub mod Progress
pub mod Consistent
use weronity_vpn.Prelude.{
  ℕ, zero, suc, ◌+◌, ◌*◌, ◌≡◌, String, Bool, true, false, Option, none, some, List, [], ◌∷◌, ◌==◌,
  if◌then◌else◌, map,
}
use weronity_vpn.Prelude.Result.{Fault, Result, ok, err, ◌>>=◌}
use weronity_vpn.Ping.{Bytes, PingTarget, PingResult, Event, on_events, probe_one}

-- How the opening of a connection ends: with the `OSError` or `TimeoutError` that the code catches, with
-- another exception, as `UnicodeError` for a host name with an empty or a long label, or well.
pub data Call (A : Type 0) : Type 0 where
  failed : Call A
  raises : Fault → Call A
  opened : A → Call A

-- `_tcp_connect`, with the measured time
abbrev pub tcp_connect : Call ℕ → Result (Bool × Option ℕ)
tcp_connect failed = ok (false, none)
tcp_connect (raises e) = err e
tcp_connect (opened rtt) = ok (true, some rtt)

-- `_tls_connect`: whether the connection with TLS was opened
abbrev pub tls_connect : Call (Unit {0}) → Result Bool
tls_connect failed = ok false
tls_connect (raises e) = err e
tls_connect (opened _) = ok true

-- One of the two rounds of `_quic_probe`: sending raises `OSError`, or what arrives in its half of the
-- timeout, with the time of the answer.
pub data Round : Type 0 where
  cannot_send : Round
  sent : List Event → ℕ → Round

-- `obfs_password.encode() if obfs_password else None`
abbrev pub psk_of : (String → Bytes) → Option String → Option Bytes
psk_of encode none = none
psk_of encode (some password) = if password == "" then none else some (encode password)

module _ (digest : Bytes → Bytes) (psk : Option Bytes) where
  -- The loop over the rounds, with what the future `answered` has.
  unfoldable pub quic_rounds : Option Bool → List Round → Bool × Option ℕ
  unfolding on_events
  quic_rounds answered [] = (false, none)
  quic_rounds answered (cannot_send ∷ rounds) = (false, none)
  quic_rounds answered (sent events rtt ∷ rounds) =
      let answered' = on_events digest psk answered events in
      let rest = quic_rounds answered' rounds in
      elim answered' [ none ↦ rest | some false ↦ (false, none) | some true ↦ (true, some rtt) ]

-- What the network does when a target is probed.
pub record Network : Type 0 where
  pub digest : Bytes → Bytes
  pub encode : String → Bytes
  pub tcp : PingTarget → Call ℕ
  pub tls : PingTarget → Call (Unit {0})
  pub quic : PingTarget → Call (Round × Round)

module _ (net : Network) where
  -- `_quic_probe`: the endpoint, and the rounds
  unfoldable pub quic_probe : PingTarget → Result (Bool × Option ℕ)
  unfolding quic_rounds
  quic_probe t = elim (net.quic t) [
    | failed ↦ ok (false, none)
    | raises e ↦ err e
    | opened (first, second) ↦
        ok (quic_rounds net.digest (psk_of net.encode t.obfs_password) none (first ∷ second ∷ []))
  ]

  -- `_probe_one` with its calls
  unfoldable pub probe : PingTarget → Result PingResult
  unfolding quic_probe probe_one
  probe t = probe_one t (quic_probe t) (tcp_connect (net.tcp t)) (tls_connect (net.tls t))

-- A task of `gather`: before the semaphore, in `_probe_one`, or with its result or exception.
pub data Task : Type 0 where
  waiting probing : Task
  finished : Result PingResult → Task

abbrev pub Slot : Type 0
Slot = PingTarget × Task

-- `async with sem` lets a task in.
pub data Enter : List Slot → List Slot → Type 0 where
  here : {t : PingTarget} {slots : List Slot} → Enter ((t, waiting) ∷ slots) ((t, probing) ∷ slots)
  there : {s : Slot} {old new : List Slot} → Enter old new → Enter (s ∷ old) (s ∷ new)

-- A task ends, and leaves the semaphore.
pub data Leave (net : Network) : List Slot → List Slot → Type 0 where
  here :
      {t : PingTarget} {slots : List Slot}
      → Leave net ((t, probing) ∷ slots) ((t, finished (probe net t)) ∷ slots)
  there : {s : Slot} {old new : List Slot} → Leave net old new → Leave net (s ∷ old) (s ∷ new)

-- The counter of the semaphore, and the tasks.
pub record System : Type 0 where
  pub permits : ℕ
  pub slots : List Slot

pub data Step (net : Network) : System → System → Type 0 where
  acquire :
      {permits : ℕ} {old new : List Slot}
      → Enter old new
      → Step net
          (record { permits = suc permits; slots = old })
          (record { permits = permits; slots = new })
  release :
      {permits : ℕ} {old new : List Slot}
      → Leave net old new
      → Step net
          (record { permits = permits; slots = old })
          (record { permits = suc permits; slots = new })

-- `ping_many` at its start
abbrev pub start : ℕ → List PingTarget → System
start concurrency targets = record {
  permits = concurrency;
  slots = map (λ t. (t, waiting)) targets;
}

-- Any number of steps, counted.
pub data Steps (net : Network) : ℕ → System → System → Type 0 where
  stay : {s : System} → Steps net 0 s s
  after : {n : ℕ} {s t u : System} → Steps net n s t → Step net t u → Steps net (suc n) s u

-- The head of a list of results before its tail, or the exception of either.
abbrev pub joined : Result PingResult → Result (List PingResult) → Result (List PingResult)
joined r rs = r >>= λ (x : PingResult). rs >>= λ (xs : List PingResult). ok (x ∷ xs)

-- What `gather` ends with, once every task has ended. Where tasks raise, it raises the exception that is
-- the first in time, and does not wait for the others; here it is that of the first target that raises.
unfoldable pub results : List Slot → Option (Result (List PingResult))
results [] = some (ok [])
results ((t, finished r) ∷ slots) = elim (results slots) [
  | none ↦ none
  | some rs ↦ some (joined r rs)
]
results (_ ∷ slots) = none

-- `ping_many`, for a run that ends
unfoldable pub ping_many : Network → List PingTarget → Result (List PingResult)
unfolding probe
ping_many net [] = ok []
ping_many net (t ∷ ts) = joined (probe net t) (ping_many net ts)
