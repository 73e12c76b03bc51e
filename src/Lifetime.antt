-- ===== src/Lifetime.antt =====
-- pipeline/lifetime.py: when each node was first and last seen over the runs, and the lifetime that
-- follows. An entry is the dict of the state file. An instant is a number of microseconds since some
-- moment of the calendar.
-- The proofs are in the modules below.
pub mod Good
pub mod Prune
pub mod Observe
pub mod Derive
pub mod File
use weronity_vpn.Prelude.{
  ℕ, zero, suc, ◌+◌, ◌-◌, ◌*◌, ◌/◌, ◌≤◌, ◌<◌, ◌≡◌, String, Bool, true, false, Option, none, some,
  List, [], ◌∷◌, ltb, leb, ◌&&◌, if◌then◌else◌,
}
use Prim.Native.Nat.{max}
use weronity_vpn.Prelude.Int.{ℤ, pos, negsuc, pos_part, neg_part, ◌+ℤ◌, ◌-ℤ◌, leb_ℤ}
use weronity_vpn.Prelude.Dict.{Dict, lookup, insert, erase}
use weronity_vpn.Prelude.Value.{Value, int, str, Runtime, to_str, to_int, get_or}
use weronity_vpn.Prelude.Result.{
  Result, ok, err, key_error, value_error, overflow_error, ◌>>=◌, ◌>>◌, guard, or_raise,
}
use weronity_vpn.Models.{Lifetime, LifetimeClass, fresh, short_lived, long_lived}

abbrev pub second : ℕ
second = 1_000_000

abbrev pub hour : ℕ
hour = 3_600_000_000

-- Python's `datetime` and `float`, as far as this file uses them. `parse` is `_parse`, with `none`
-- for its `ValueError`; `format` prints an instant of a whole second as `_fmt` does; `ratio n d` is
-- `round(n / d, 3)` in thousandths. The calendar begins `past` microseconds before the instant 0, and
-- ends before the instant `future`.
pub record Calendar : Type 0 where
  pub parse : String → Option ℕ
  pub format : ℕ → String
  pub ratio : ℤ → ℕ → ℤ
  pub past : ℕ
  pub future : ℕ

-- `d.replace(microsecond=0)`
abbrev pub whole_second : ℕ → ℕ
whole_second t = t / second * second

abbrev pub Entry : Type 0
Entry = Dict Value

pub record SeenState : Type 0 where
  pub runs_total : ℕ
  pub window_h : ℤ
  pub nodes : Dict Entry

unfoldable pub classify_age : ℕ → LifetimeClass
classify_age age_hours =
    if ltb age_hours 24 then fresh else if leb age_hours 72 then short_lived else long_lived

-- `last < now - timedelta(hours=window_h)`
abbrev pub is_stale : ℕ → ℤ → ℕ → Bool
is_stale now window last = ltb (last + pos_part window * hour) (now + neg_part window * hour)

-- `now - timedelta(hours=window_h)` does not raise `OverflowError`.
abbrev pub in_calendar : Calendar → ℕ → ℤ → Bool
in_calendar cal now window =
    leb (pos_part window * hour) (now + cal.past) && ltb (now + neg_part window * hour) cal.future

unfoldable pub erase_all : List String → Dict Entry → Dict Entry
unfolding erase
erase_all [] nodes = nodes
erase_all (sid ∷ sids) nodes = erase_all sids (erase sid nodes)

-- `max(1, self.runs_total - max(1, first_run) + 1)`
abbrev pub runs_since : ℕ → ℤ → ℕ
runs_since total first_run = max 1 (total + 1 - max 1 (pos_part first_run))

-- `min(stability, 1.0)`
abbrev pub capped : ℤ → ℤ
capped z = if leb_ℤ z (pos 1000) then z else pos 1000

module _ (cal : Calendar) where
  -- `_fmt`, and the stamp of `observe`
  abbrev pub stamp : ℕ → String
  stamp t = cal.format (whole_second t)

  -- The entry of a node that is seen for the first time.
  abbrev pub first_entry : ℕ → ℕ → Entry
  first_entry now runs =
      ("first_seen", str (stamp now))
      ∷ ("last_seen", str (stamp now))
      ∷ ("seen_runs", int (pos 1))
      ∷ ("first_run", int (pos runs))
      ∷ []

module _ ⦃py : Runtime⦄ (cal : Calendar) where
  -- The two assignments to an entry that is there.
  unfoldable pub touch : ℕ → Entry → Result Entry
  unfolding insert get_or to_int
  touch now entry = do
    seen ← or_raise value_error (to_int (get_or (int (pos 0)) "seen_runs" entry))
    ok (insert "seen_runs" (int (seen +ℤ pos 1)) (insert "last_seen" (str (stamp cal now)) entry))

  -- One round of the loop over the present ids.
  unfoldable pub mark : ℕ → ℕ → Dict Entry → String → Result (Dict Entry)
  unfolding lookup insert touch
  mark now runs nodes sid = elim (lookup sid nodes) [
    | none ↦ ok (insert sid (first_entry cal now runs) nodes)
    | some entry ↦ do entry' ← touch now entry; ok (insert sid entry' nodes)
  ]

  unfoldable pub mark_all : ℕ → ℕ → Dict Entry → List String → Result (Dict Entry)
  unfolding mark
  mark_all now runs nodes [] = ok nodes
  mark_all now runs nodes (sid ∷ sids) = do
    nodes' ← mark now runs nodes sid
    mark_all now runs nodes' sids

  -- `_parse(str(e["last_seen"]))`, and so for the other stamp
  unfoldable pub instant : String → Entry → Result ℕ
  unfolding lookup to_str
  instant key e = do
    v ← or_raise key_error (lookup key e)
    or_raise value_error (cal.parse (to_str v))

  -- The list `drop`.
  unfoldable pub stale_ids : ℕ → ℤ → Dict Entry → Result (List String)
  unfolding instant
  stale_ids now window [] = ok []
  stale_ids now window ((sid, e) ∷ nodes) = do
    last ← instant "last_seen" e
    rest ← stale_ids now window nodes
    ok (if is_stale now window last then sid ∷ rest else rest)

  -- `SeenState._prune`
  unfoldable pub prune : ℕ → ℤ → Dict Entry → Result (Dict Entry)
  unfolding stale_ids erase_all
  prune now window nodes = do
    guard (in_calendar cal now window) overflow_error
    drop ← stale_ids now window nodes
    ok (erase_all drop nodes)

  -- `SeenState.observe`; the ids are those of a set, each once
  unfoldable pub observe : List String → ℕ → SeenState → Result SeenState
  unfolding mark_all prune
  observe present_ids now s = do
    marked ← mark_all now (s.runs_total + 1) s.nodes present_ids
    kept ← prune now s.window_h marked
    ok (record s { runs_total = s.runs_total + 1; nodes = kept })

  -- `SeenState.lifetime_for`
  unfoldable pub lifetime_for : String → ℕ → SeenState → Result Lifetime
  unfolding lookup instant get_or to_int classify_age
  lifetime_for sid now s = do
    entry ← or_raise key_error (lookup sid s.nodes)
    first ← instant "first_seen" entry
    last ← instant "last_seen" entry
    let age_h = (now - first) / hour
    seen_runs ← or_raise value_error (to_int (get_or (int (pos 1)) "seen_runs" entry))
    first_run ←
        or_raise value_error
          (to_int (get_or (int (pos (s.runs_total + 1) -ℤ seen_runs)) "first_run" entry))
    ok (record {
      first_seen = stamp cal first;
      last_seen = stamp cal last;
      age_hours = age_h;
      class = classify_age age_h;
      seen_runs = seen_runs;
      stability = capped (cal.ratio seen_runs (runs_since s.runs_total first_run));
    })
