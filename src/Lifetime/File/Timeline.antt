-- ===== src/Lifetime/File/Timeline.antt =====
-- The contract of the seen state: what is known of each node is a sighting, and a run marks the nodes
-- that are present and forgets those out of the window. It has no texts, no dicts and no
-- order. The proofs are in the modules below.
pub mod Refines
pub mod Derived
use weronity_vpn.Prelude.{
  ℕ, ◌+◌, ◌*◌, leb, ◌≡◌, refl, sym, ap, ◌∙◌, String, Bool, true, false, Option, none, some, List,
  [], ◌∷◌, if◌then◌else◌, arith, All, Bool-cases, inl, inr,
}
use weronity_vpn.Prelude.Int.{ℤ, pos_part, neg_part, pos, ◌+ℤ◌}
use weronity_vpn.Prelude.Dict.{Dict, lookup, lookup-insert, lookup-All}
use weronity_vpn.Prelude.Text.{one_of}
use weronity_vpn.Prelude.Value.{Runtime, str, to_str, int, null, to_int, get_or}
use weronity_vpn.Prelude.Result.{
  Result, ok, err, value_error, ◌>>=◌, >>=-eq-ok, ok_inj, some_inj, or_raise,
}
use weronity_vpn.Lifetime.{
  Calendar, Entry, SeenState, whole_second, stamp, hour, instant, first_entry, touch, observe,
}
use weronity_vpn.Lifetime.Good.{
  IsLawful, Good, first_entry-Good, touched, touch-eq, touched-Good, instant_first, instant_last,
}
use weronity_vpn.Lifetime.Prune.{survivor}
use weronity_vpn.Lifetime.Observe.{
  IsGood, IsGoodEntry, IsIdSet, marked_entry, to_option, observe_lem,
}

pub record Sighting : Type 0 where
  pub first : ℕ
  pub last : ℕ
  pub seen : ℤ
  pub first_run : ℤ

pub record Timeline : Type 0 where
  pub total : ℕ
  pub window : ℤ
  pub at : String → Option Sighting

-- A node that is present, at an instant and after a number of runs.
abbrev pub sighted : ℕ → ℕ → Option Sighting → Sighting
sighted now total none = record {
  first = whole_second now;
  last = whole_second now;
  seen = pos 1;
  first_run = pos (total + 1);
}
sighted now total (some x) = record x { last = whole_second now; seen = x.seen +ℤ pos 1 }

-- A sighting stays if the last instant is not more than the window before the run.
abbrev pub kept : ℕ → ℤ → Option Sighting → Option Sighting
kept now window none = none
kept now window (some x) =
    if leb (now + neg_part window * hour) (x.last + pos_part window * hour) then some x else none

-- One run, and the runs of a list.
unfoldable pub run_timeline : List String → ℕ → Timeline → Timeline
unfolding one_of
run_timeline ids now t = record t {
  total = t.total + 1;
  at =
      λ k. kept now t.window (if one_of k ids then some (sighted now t.total (t.at k)) else t.at k);
}

unfoldable pub run_timelines : List (List String × ℕ) → Timeline → Timeline
unfolding run_timeline
run_timelines [] t = t
run_timelines ((ids, now) ∷ runs) t = run_timelines runs (run_timeline ids now t)

abbrev pub empty_timeline : Timeline
empty_timeline = record { total = 0; window = pos 336; at = λ k. none }

module _ ⦃py : Runtime⦄ (cal : Calendar) where
  -- What an entry says.
  unfoldable pub sighting_of : Entry → Result Sighting
  unfolding instant get_or to_int
  sighting_of e = do
    first ← instant cal "first_seen" e
    last ← instant cal "last_seen" e
    seen ← or_raise value_error (to_int (get_or null "seen_runs" e))
    run ← or_raise value_error (to_int (get_or null "first_run" e))
    ok (record { first = first; last = last; seen = seen; first_run = run })

  abbrev pub seen_at : Option Entry → Option (Result Sighting)
  seen_at none = none
  seen_at (some e) = some (sighting_of e)

  abbrev pub expected : Option Sighting → Option (Result Sighting)
  expected none = none
  expected (some x) = some (ok x)

  -- A state shows a timeline: the same runs and window, and the entries say what the timeline has.
  pub record Shows (s : SeenState) (t : Timeline) : Type 0 where
    pub same_total : s.runs_total ≡ t.total
    pub same_window : s.window_h ≡ t.window
    pub same_nodes : (k : String) → seen_at (lookup k s.nodes) ≡ expected (t.at k)

  abbrev pub sighting : (total : ℕ) (e : Entry) → Good cal total e → Sighting
  sighting total e g = record {
    first = g.first;
    last = g.last;
    seen = pos g.seen;
    first_run = pos g.first_run;
  }
