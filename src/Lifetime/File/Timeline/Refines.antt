-- ===== src/Lifetime/File/Timeline/Refines.antt =====
-- `observe`, and a save with the load after it, do what the contract says.
use weronity_vpn.Prelude.{
  ℕ, ◌+◌, ◌*◌, leb, ◌≡◌, refl, sym, ap, ◌∙◌, String, Bool, true, false, Option, none, some, List,
  if◌then◌else◌, arith, All, Bool-cases, inl, inr,
}
use weronity_vpn.Prelude.Int.{ℤ, pos_part, neg_part, pos, ◌+ℤ◌}
use weronity_vpn.Prelude.Dict.{Dict, lookup, lookup-insert, lookup-All}
use weronity_vpn.Prelude.Text.{one_of}
use weronity_vpn.Prelude.Value.{Runtime, str, to_str, int, null, to_int, get_or}
use weronity_vpn.Prelude.Result.{
  Result, ok, value_error, ◌>>=◌, >>=-eq-ok, ok_inj, some_inj, or_raise,
}
use weronity_vpn.Lifetime.{
  Calendar, Entry, SeenState, whole_second, stamp, is_stale, in_calendar, hour, instant,
  first_entry, touch, observe,
}
use weronity_vpn.Lifetime.Good.{IsLawful, Good, touched, touch-eq, instant_first, instant_last}
use weronity_vpn.Lifetime.Prune.{survivor}
use weronity_vpn.Lifetime.Observe.{
  IsGood, IsGoodEntry, IsIdSet, marked_entry, to_option, observe_lem,
}
use weronity_vpn.Prelude.Json.{Json, IsJson, sorted, sort_keys}
use weronity_vpn.Lifetime.File.{holds, load, save, as_state}
use weronity_vpn.Lifetime.File.Sorted.{load-save, sorted_at, sorted_entry, lookup-sorted_entry}
use weronity_vpn.Lifetime.File.Timeline.{
  Sighting, Timeline, sighted, kept, run_timeline, sighting_of, seen_at, expected, Shows, sighting,
}

module _ ⦃py : Runtime⦄ (cal : Calendar) (lawful : IsLawful cal) where
  pub sighting_of-Good :
      (total : ℕ) (e : Entry) (g : Good cal total e)
      → sighting_of cal e ≡ ok (sighting cal total e g)
  unfolding sighting_of get_or to_int
  sighting_of-Good total e g =
      rw
        (
          instant_first cal lawful 0 total e g,
          instant_last cal lawful 0 total e g,
          get_or,
          g.has_seen,
          g.has_run,
        )
        refl

  sighting_of_parts :
      (e : Entry) (first last : ℕ) (seen run : ℤ)
      → instant cal "first_seen" e ≡ ok first
      → instant cal "last_seen" e ≡ ok last
      → lookup "seen_runs" e ≡ some (int seen)
      → lookup "first_run" e ≡ some (int run)
      → sighting_of cal e ≡ ok (record { first = first; last = last; seen = seen; first_run = run })
  unfolding sighting_of get_or to_int
  sighting_of_parts e first last seen run hf hl hs hr = rw (hf, hl, get_or, hs, hr) refl

  instant-text :
      (key text : String) (e : Entry) (t : ℕ)
      → lookup key e ≡ some (str text)
      → cal.parse text ≡ some t
      → instant cal key e ≡ ok t
  unfolding instant to_str
  instant-text key text e t has parses = rw (has, parses) refl

  instant-sighting_of :
      (e : Entry) (x : Sighting) → sighting_of cal e ≡ ok x → instant cal "last_seen" e ≡ ok x.last
  unfolding sighting_of
  instant-sighting_of e x h =
      let (first, _, h1) = >>=-eq-ok (instant cal "first_seen" e) _ h in
      let (last, at, h2) = >>=-eq-ok (instant cal "last_seen" e) _ h1 in
      let (seen, _, h3) =
        >>=-eq-ok (or_raise value_error (to_int (get_or null "seen_runs" e))) _ h2 in
      let (run, _, h4) =
        >>=-eq-ok (or_raise value_error (to_int (get_or null "first_run" e))) _ h3 in
      at ∙ ap (λ (y : Sighting). ok y.last) (ok_inj h4)

  out_of_window :
      (now : ℕ) (window : ℤ) (last : ℕ)
      → is_stale now window last ≡ true
      → leb (now + neg_part window * hour) (last + pos_part window * hour) ≡ false
  out_of_window now window last h = ground arith

  in_window :
      (now : ℕ) (window : ℤ) (last : ℕ)
      → is_stale now window last ≡ false
      → leb (now + neg_part window * hour) (last + pos_part window * hour) ≡ true
  in_window now window last h = ground arith

  -- An entry that the pruning looks at.
  survivor-kept :
      (now : ℕ) (window : ℤ) (e : Entry) (x : Sighting)
      → sighting_of cal e ≡ ok x
      → seen_at cal (survivor cal now window (some e)) ≡ expected cal (kept now window (some x))
  survivor-kept now window e x says =
      rw (instant-sighting_of e x says) (elim (Bool-cases (is_stale now window x.last)) [
        | inl stale ↦ rw (stale, out_of_window now window x.last stale) refl
        | inr fresh ↦
            rw (fresh, in_window now window x.last fresh)
              (ap (λ (r : Result Sighting). some r) says)
      ])

  sighting_of-first_entry :
      (now total : ℕ)
      → sighting_of cal (first_entry cal now (total + 1)) ≡ ok (sighted now total none)
  unfolding lookup
  sighting_of-first_entry now total =
      sighting_of_parts (first_entry cal now (total + 1)) (whole_second now) (whole_second now)
        (pos 1) (pos (total + 1))
        (instant-text "first_seen" (stamp cal now) _ _ refl (lawful.parse-format now))
        (instant-text "last_seen" (stamp cal now) _ _ refl (lawful.parse-format now)) refl refl

  succ-seen : (n : ℕ) → pos n +ℤ pos 1 ≡ pos (n + 1)
  unfolding ◌+ℤ◌
  succ-seen n = ground arith

  sighting_of-touched :
      (now total : ℕ) (e : Entry) (g : Good cal total e)
      → sighting_of cal (touched cal now g.seen e)
        ≡ ok (sighted now total (some (sighting cal total e g)))
  sighting_of-touched now total e g = rw (succ-seen g.seen) (
      sighting_of_parts (touched cal now g.seen e) g.first (whole_second now) (pos (g.seen + 1))
        (pos g.first_run)
        (instant-text "first_seen" g.first_text _ _ (simp lookup-insert g.has_first) g.first_parses)
        (instant-text "last_seen" (stamp cal now) _ _ (simp lookup-insert)
          (lawful.parse-format now))
        (simp lookup-insert) (simp lookup-insert g.has_run))

  -- What one run makes of one id, with an entry that is good if it is there.
  entry_step :
      (now total : ℕ) (window : ℤ) (present : Bool) (found : Option Entry) (x : Option Sighting)
      → ((e : Entry) → found ≡ some e → Good cal total e)
      → seen_at cal found ≡ expected cal x
      → seen_at cal (
          survivor cal now window
            (if present then to_option (marked_entry cal now total found) else found))
        ≡ expected cal (kept now window (if present then some (sighted now total x) else x))
  entry_step now total window true none none good same =
      survivor-kept now window (first_entry cal now (total + 1)) (sighted now total none)
        (sighting_of-first_entry now total)
  entry_step now total window false none none good same = refl
  entry_step now total window present none (some x) good same = cc
  entry_step now total window present (some e) none good same = cc
  entry_step now total window false (some e) (some x) good same =
      survivor-kept now window e x (some_inj same)
  entry_step now total window true (some e) (some x) good same =
      let g = good e refl in
      let is_x : sighting cal total e g ≡ x =
        ok_inj (sym (sighting_of-Good total e g) ∙ some_inj same) in
      let marked : to_option (touch cal now e) ≡ some (touched cal now g.seen e) =
        ap to_option (touch-eq cal lawful now total e g) in
      ap (λ (found : Option Entry). seen_at cal (survivor cal now window found)) marked
      ∙ survivor-kept now window (touched cal now g.seen e)
          (sighted now total (some (sighting cal total e g))) (sighting_of-touched now total e g)
      ∙ ap (λ (y : Sighting). expected cal (kept now window (some (sighted now total (some y)))))
          is_x

  All-lookup :
      (total : ℕ) (nodes : Dict Entry) (k : String)
      → All (IsGoodEntry cal total) nodes
      → (e : Entry) → lookup k nodes ≡ some e
      → Good cal total e
  All-lookup total nodes k goods e at = lookup-All (IsGoodEntry cal total) k e nodes goods at

  -- A run refines the contract. From a good state that shows a timeline, with a set of ids and a window
  -- that does not reach out of the calendar, `observe` succeeds and leaves a good state that shows the
  -- timeline after the contract's run: one run more, the same window, and for each id the instants and
  -- counts of its sighting. A sighting of an id that is present is made, or counted once more and set to
  -- the second of the run; one whose last instant is more than the window before the run is forgotten;
  -- all others stay. Printed instants can be read.
  pub observe-Shows :
      (ids : List String) (now : ℕ) (s : SeenState) (t : Timeline)
      → IsIdSet ids
      → IsGood cal s
      → in_calendar cal now s.window_h ≡ true
      → Shows cal s t
      → (s' : SeenState) × (observe cal ids now s ≡ ok s')
        × IsGood cal s'
        × Shows cal s' (run_timeline ids now t)
  unfolding run_timeline
  observe-Shows ids now s t set good fits shows =
      let (s', ran, counted, window, good', found) =
        observe_lem cal lawful ids now s set good fits in
      (
        s',
        ran,
        good',
        record {
          same_total = counted ∙ ap (λ n. n + 1) shows.same_total;
          same_window = window ∙ shows.same_window;
          same_nodes = λ k.
              ap (seen_at cal) (found k)
              ∙ rw (shows.same_total, shows.same_window)
                  (entry_step now t.total t.window (one_of k ids) (lookup k s.nodes) (t.at k)
                    (rw (← shows.same_total) (All-lookup s.runs_total s.nodes k good.entries))
                    (shows.same_nodes k));
        },
      )

  -- Sorting the keys of an entry changes nothing that it says.
  seen_at-sorted_at :
      (total : ℕ) (found : Option Entry)
      → ((e : Entry) → found ≡ some e → Good cal total e)
      → seen_at cal (sorted_at found) ≡ seen_at cal found
  unfolding sort_keys
  seen_at-sorted_at total none good = refl
  seen_at-sorted_at total (some e) good =
      let g = good e refl in
      let at = λ (key : String). lookup-sorted_entry key e in
      ap (λ (r : Result Sighting). some r)
        (sighting_of_parts (sorted_entry e) g.first g.last (pos g.seen) (pos g.first_run)
            (instant-text "first_seen" g.first_text _ _ (at "first_seen" ∙ ap sorted g.has_first)
              g.first_parses)
            (instant-text "last_seen" g.last_text _ _ (at "last_seen" ∙ ap sorted g.has_last)
              g.last_parses)
            (at "seen_runs" ∙ ap sorted g.has_seen) (at "first_run" ∙ ap sorted g.has_run)
          ∙ sym (sighting_of-Good total e g))

  -- A state that is saved and loaded again shows what it showed.
  pub load-save-Shows :
      (json : Json)
      → IsJson json
      → (s : SeenState) (t : Timeline) → IsGood cal s
      → Shows cal s t
      → (s' : SeenState) × ((load json (holds (save json s)) >>= as_state) ≡ ok s')
        × IsGood cal s'
        × Shows cal s' t
  load-save-Shows json lawful_json s t good shows =
      let (s', loaded, good', total, window, found) = load-save json lawful_json cal s good in
      (
        s',
        loaded,
        good',
        record {
          same_total = total ∙ shows.same_total;
          same_window = window ∙ shows.same_window;
          same_nodes = λ k.
              ap (seen_at cal) (found k)
              ∙ seen_at-sorted_at s.runs_total (lookup k s.nodes)
                  (All-lookup s.runs_total s.nodes k good.entries)
              ∙ shows.same_nodes k;
        },
      )
