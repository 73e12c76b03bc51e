-- ===== src/Lifetime/File/Timeline/Derived.antt =====
-- What `lifetime_for` derives after a run, in terms of the contract.
use weronity_vpn.Prelude.{
  ℕ, ◌+◌, ◌-◌, ◌*◌, ◌≤◌, ◌<◌, ◌≡◌, refl, sym, ap, ◌∙◌, String, true, Option, none, some, List,
  arith,
}
use weronity_vpn.Prelude.Int.{pos}
use weronity_vpn.Prelude.Dict.{lookup, lookup-All}
use weronity_vpn.Prelude.Text.{one_of}
use weronity_vpn.Prelude.Value.{Runtime}
use weronity_vpn.Prelude.Result.{ok, ok_inj, some_inj}
use weronity_vpn.Models.{Lifetime, fresh, short_lived, long_lived}
use weronity_vpn.Lifetime.{
  Calendar, Entry, SeenState, hour, whole_second, stamp, classify_age, observe, lifetime_for,
  in_calendar,
}
use weronity_vpn.Lifetime.Good.{IsLawful, Good}
use weronity_vpn.Lifetime.Observe.{IsIdSet, IsGood, IsGoodEntry}
use weronity_vpn.Lifetime.Derive.{IsRounding, lifetime_of, lifetime_for-Good, thousandths-le}
use weronity_vpn.Lifetime.File.Timeline.{
  Sighting, Timeline, sighted, kept, run_timeline, sighting_of, seen_at, expected, Shows, sighting,
}
use weronity_vpn.Lifetime.File.Timeline.Refines.{observe-Shows, sighting_of-Good}

-- A lifetime says of a sighting what it should, at an instant after a number of runs: its stamps and
-- count are those of the sighting, its age are the whole hours since the first instant, its class goes by
-- the age, and its stability is a nearest thousandth of the share of the runs, from the first of the
-- sighting on, in which it was seen.
pub record Describes (cal : Calendar) (now total : ℕ) (x : Sighting) (l : Lifetime) : Type 0 where
  pub first_seen : l.first_seen ≡ stamp cal x.first
  pub last_seen : l.last_seen ≡ stamp cal x.last
  pub seen_runs : l.seen_runs ≡ x.seen
  pub age_from : l.age_hours * hour ≤ now - x.first
  pub age_to : now - x.first < (l.age_hours + 1) * hour
  pub below_a_day : l.age_hours < 24 → l.class ≡ fresh
  pub to_three_days : 24 ≤ l.age_hours → l.age_hours ≤ 72 → l.class ≡ short_lived
  pub after_three_days : 72 < l.age_hours → l.class ≡ long_lived
  pub seen : ℕ
  pub first_run : ℕ
  pub share : ℕ
  pub seen-eq : x.seen ≡ pos seen
  pub first_run-eq : x.first_run ≡ pos first_run
  pub first_run_le : first_run ≤ total
  pub stability : l.stability ≡ pos share
  pub not_above : 2 * (share * (total + 1 - first_run)) ≤ 2000 * seen + (total + 1 - first_run)
  pub not_below : 2000 * seen ≤ 2 * (share * (total + 1 - first_run)) + (total + 1 - first_run)
  pub share_le : share ≤ 1000

module _ ⦃py : Runtime⦄ (cal : Calendar) (lawful : IsLawful cal) (rounding : IsRounding cal)
    (now : ℕ) where
  lifetime_of-Describes :
      (total : ℕ) (e : Entry) (g : Good cal total e)
      → Describes cal now total
          (sighting cal total e g)
          (lifetime_of cal lawful rounding now total e g)
  unfolding classify_age
  lifetime_of-Describes total e g =
      let n = total + 1 - g.first_run in
      record {
        first_seen = refl;
        last_seen = refl;
        seen_runs = refl;
        age_from = omega arith;
        age_to = omega arith;
        below_a_day = λ h. ground arith;
        to_three_days = λ h k. ground arith;
        after_three_days = λ h. ground arith;
        seen = g.seen;
        first_run = g.first_run;
        share = rounding.thousandths g.seen n;
        seen-eq = refl;
        first_run-eq = refl;
        first_run_le = omega (arith, g.seen_bound, g.seen_pos);
        stability = refl;
        not_above = rounding.not_above g.seen n (omega (arith, g.seen_bound, g.seen_pos));
        not_below = rounding.not_below g.seen n (omega (arith, g.seen_bound, g.seen_pos));
        share_le =
            thousandths-le cal rounding g.seen n (omega (arith, g.seen_bound, g.seen_pos))
              (omega (arith, g.seen_bound));
      }

  entry_at :
      (found : Option Entry) (x : Sighting)
      → seen_at cal found ≡ some (ok x)
      → (e : Entry) × (found ≡ some e) × (sighting_of cal e ≡ ok x)
  entry_at none x h = cc
  entry_at (some e) x h = (e, refl, some_inj h)

  -- The derived lifetime of an id that a good state shows.
  lifetime_for-Shows :
      (s : SeenState) (t : Timeline) (sid : String) (x : Sighting)
      → IsGood cal s
      → Shows cal s t
      → t.at sid ≡ some x
      → (l : Lifetime) × (lifetime_for cal sid now s ≡ ok l) × Describes cal now t.total x l
  lifetime_for-Shows s t sid x good shows at =
      let (e, found, says) =
        entry_at (lookup sid s.nodes) x (shows.same_nodes sid ∙ ap (expected cal) at) in
      let g : Good cal s.runs_total e =
        lookup-All (IsGoodEntry cal s.runs_total) sid e s.nodes good.entries found in
      let same : sighting cal s.runs_total e g ≡ x =
        ok_inj (sym (sighting_of-Good cal lawful s.runs_total e g) ∙ says) in
      (
        lifetime_of cal lawful rounding now s.runs_total e g,
        lifetime_for-Good cal lawful rounding now sid s e g found,
        rw (← shows.same_total, ← same) (lifetime_of-Describes s.runs_total e g),
      )

  sighted_now : (total : ℕ) (x : Option Sighting) → (sighted now total x).last ≡ whole_second now
  sighted_now total none = refl
  sighted_now total (some x) = refl

  kept-sighted :
      (total window : ℕ) (x : Option Sighting)
      → kept now (pos (window + 1)) (some (sighted now total x)) ≡ some (sighted now total x)
  kept-sighted total window x = rw (sighted_now total x) (ground arith)

  -- After a run over a good state and a set of ids, with a window of at least an hour that does not reach
  -- out of the calendar, the lifetime of every id that was present can be derived, and it describes the
  -- sighting of the contract. Its stamps and its count are those of the sighting, which was last seen at
  -- the run; its age is the number of whole hours since it was first seen; its class is fresh below 24
  -- hours, short-lived up to 72, and long-lived above; and its stability, of at most 1000 thousandths, is
  -- a nearest thousandth of the share of the runs since its first one in which it was seen. The state shows
  -- a timeline of the contract, printed instants can be read, and `round` gives a nearest thousandth.
  pub lifetime_for-observe :
      (ids : List String) (s : SeenState) (t : Timeline) (window : ℕ) (sid : String)
      → IsIdSet ids
      → IsGood cal s
      → s.window_h ≡ pos (window + 1)
      → in_calendar cal now s.window_h ≡ true
      → Shows cal s t
      → one_of sid ids ≡ true
      → (s' : SeenState) × (l : Lifetime) × (observe cal ids now s ≡ ok s')
        × (lifetime_for cal sid now s' ≡ ok l)
        × Describes cal now (t.total + 1) (sighted now t.total (t.at sid)) l
  unfolding run_timeline
  lifetime_for-observe ids s t window sid set good hours fits shows present =
      let (s', ran, good', shows') = observe-Shows cal lawful ids now s t set good fits shows in
      let span : t.window ≡ pos (window + 1) = sym shows.same_window ∙ hours in
      let at : (run_timeline ids now t).at sid ≡ some (sighted now t.total (t.at sid)) =
        rw (present, span) (kept-sighted t.total window (t.at sid)) in
      let (l, derived, describes) =
        lifetime_for-Shows s' (run_timeline ids now t) sid (sighted now t.total (t.at sid)) good'
          shows' at in
      (s', l, ran, derived, describes)
