-- ===== src/Lifetime/File/History.antt =====
-- Runs that follow each other through the state file.
use weronity_vpn.Prelude.{
  ℕ, ◌≡◌, refl, ap, ◌∙◌, true, false, String, Option, none, some, List, [], ◌∷◌, All,
}
use weronity_vpn.Prelude.Int.{pos}
use weronity_vpn.Prelude.Dict.{lookup}
use weronity_vpn.Prelude.Value.{Value, null, bool, int, float, str, obj, arr, Runtime}
use weronity_vpn.Prelude.Json.{Json, IsJson}
use weronity_vpn.Prelude.Result.{ok, err, overflow_error, ◌>>=◌, >>=-eq-ok}
use weronity_vpn.Lifetime.{Calendar, SeenState, in_calendar}
use weronity_vpn.Lifetime.Good.{IsLawful}
use weronity_vpn.Lifetime.Observe.{IsGood, IsIdSet, observe_overflow}
use weronity_vpn.Lifetime.File.Sorted.{load-save}
use weronity_vpn.Lifetime.File.{
  StateFile, no_file, unreadable, holds, empty_state, load, load_value, save, as_state, run_state,
  history,
}
use weronity_vpn.Lifetime.File.Timeline.{
  Timeline, Shows, run_timeline, run_timelines, empty_timeline,
}
use weronity_vpn.Lifetime.File.Timeline.Refines.{observe-Shows, load-save-Shows}

-- A text that is no JSON, or whose top level is not an object.
abbrev pub IsBroken : Option Value → Type 0
IsBroken (some (obj fs)) = ⊥
IsBroken _ = Unit

-- A file that is missing, cannot be read, or has such a text.
abbrev pub IsLost : (json : Json) → StateFile json.Text → Type 0
IsLost json (holds text) = IsBroken (json.loads text)
IsLost json _ = Unit

module _ ⦃py : Runtime⦄ (json : Json) where
  load_value-broken : (v : Option Value) → IsBroken v → load_value json v ≡ ok empty_state
  unfolding load_value
  load_value-broken none h = refl
  load_value-broken (some (obj fs)) h = absurd h
  load_value-broken (some null) h = refl
  load_value-broken (some (bool b)) h = refl
  load_value-broken (some (int z)) h = refl
  load_value-broken (some (float x)) h = refl
  load_value-broken (some (str s)) h = refl
  load_value-broken (some (arr vs)) h = refl

  load-lost : (file : StateFile json.Text) → IsLost json file → load json file ≡ ok empty_state
  unfolding load
  load-lost no_file h = refl
  load-lost unreadable h = refl
  load-lost (holds text) h = load_value-broken (json.loads text) h

module _ ⦃py : Runtime⦄ (json : Json) (lawful_json : IsJson json) (cal : Calendar)
    (lawful : IsLawful cal) where
  -- The file holds a good state that shows a timeline.
  abbrev pub Keeps : Timeline → StateFile json.Text → Type 0
  Keeps t file =
      (s : SeenState) × ((load json file >>= as_state) ≡ ok s) × IsGood cal s × Shows cal s t

  lost-Keeps : (file : StateFile json.Text) → IsLost json file → Keeps empty_timeline file
  unfolding as_state lookup
  lost-Keeps file h = (
    record { runs_total = 0; window_h = pos 336; nodes = [] },
    rw (load-lost json file h) refl,
    record { entries = tt; distinct = tt },
    record { same_total = refl; same_window = refl; same_nodes = λ k. refl },
  )

  run_state-Keeps :
      (t : Timeline) (now : ℕ) (ids : List String) (file : StateFile json.Text)
      → IsIdSet ids
      → in_calendar cal now t.window ≡ true
      → Keeps t file
      → (s : SeenState) × (run_state cal json file ids now ≡ ok s)
        × Keeps (run_timeline ids now t) (holds (save json s))
  unfolding run_state
  run_state-Keeps t now ids file set fits (s, loaded, good, shows) =
      let (s', observed, good', shows') =
        observe-Shows cal lawful ids now s t set good
          (ap (in_calendar cal now) shows.same_window ∙ fits) shows in
      let (read, r1, r2) = >>=-eq-ok (load json file) as_state loaded in
      (
        s',
        rw (r1, r2) observed,
        load-save-Shows cal lawful json lawful_json s' (run_timeline ids now t) good' shows',
      )

  -- A run with the ids of a set, at an instant that is at least 336 hours inside the calendar.
  abbrev pub IsRun : List String × ℕ → Type 0
  IsRun (ids, now) = IsIdSet ids × (in_calendar cal now (pos 336) ≡ true)

  history-Keeps :
      (t : Timeline) (file : StateFile json.Text) (runs : List (List String × ℕ))
      → All IsRun runs
      → t.window ≡ pos 336
      → Keeps t file
      → (file' : StateFile json.Text) × (history cal json file runs ≡ ok file')
        × Keeps (run_timelines runs t) file'
  unfolding history run_timelines
  history-Keeps t file [] _ _ keeps = (file, refl, keeps)
  history-Keeps t file ((ids, now) ∷ runs) ((set, fits), sets) span keeps =
      let (s, ran, held) =
        run_state-Keeps t now ids file set (ap (in_calendar cal now) span ∙ fits) keeps in
      let (file', went, held') =
        history-Keeps (run_timeline ids now t) (holds (save json s)) runs sets span held in
      (file', rw ran went, held')

  -- The runs of the collector refine a contract that knows no file. From a state file that is missing,
  -- cannot be read, is no JSON or has no object at its top level, any sequence of runs succeeds, and the
  -- file then holds a good state that shows what the contract's runs make of nothing: the same number of
  -- runs, and for each id the same instants and counts, or that it is forgotten. The ids of a run are
  -- those of a set, and its instant is at least the 336 hours of the window after the calendar's begin;
  -- printed JSON and printed instants can be read.
  pub history_refines :
      (file : StateFile json.Text) (runs : List (List String × ℕ))
      → IsLost json file
      → All IsRun runs
      → (file' : StateFile json.Text) × (s : SeenState) × (history cal json file runs ≡ ok file')
        × ((load json file' >>= as_state) ≡ ok s)
        × IsGood cal s
        × Shows cal s (run_timelines runs empty_timeline)
  history_refines file runs lost sets =
      let (file', went, (s, loaded, good, shows)) =
        history-Keeps empty_timeline file runs sets refl (lost-Keeps file lost) in
      (file', s, went, loaded, good, shows)

  -- The file of a good state whose window reaches out of the calendar at the time of the next run, for a
  -- run with the ids of a set, printed JSON and printed instants that can be read: the file is loaded, not
  -- taken as lost, and the run raises OverflowError before it saves, whatever runs would follow.
  pub history_overflow :
      (s : SeenState) (ids : List String) (now : ℕ) (runs : List (List String × ℕ))
      → IsIdSet ids
      → IsGood cal s
      → in_calendar cal now s.window_h ≡ false
      → history cal json (holds (save json s)) ((ids, now) ∷ runs) ≡ err overflow_error
  unfolding history run_state
  history_overflow s ids now runs set good out =
      let (s', loaded, good', _, window, _) = load-save json lawful_json cal s good in
      let (read, r1, r2) = >>=-eq-ok (load json (holds (save json s))) as_state loaded in
      let raises =
        observe_overflow cal lawful ids now s' set good' (ap (in_calendar cal now) window ∙ out) in
      rw (r1, r2, raises) refl
