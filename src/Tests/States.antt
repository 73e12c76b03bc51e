-- ===== src/Tests/States.antt =====
-- Examples for the state file.
use weronity_vpn.Prelude.{ℕ, ◌≡◌, refl, String, some, List, [], ◌∷◌}
use weronity_vpn.Prelude.Int.{pos}
use weronity_vpn.Prelude.Dict.{lookup}
use weronity_vpn.Prelude.Value.{Value}
use weronity_vpn.Prelude.Text.{one_of}
use weronity_vpn.Prelude.Json.{Json, IsJson, sort_keys}
use weronity_vpn.Prelude.Result.{ok, err, overflow_error, ◌>>=◌}
use weronity_vpn.Lifetime.{SeenState}
use weronity_vpn.Lifetime.Observe.{IsGood}
use weronity_vpn.Lifetime.File.{StateFile, unreadable, holds, load, save, as_state, history}
use weronity_vpn.Lifetime.File.Sorted.{load-save, sorted_at}
use weronity_vpn.Lifetime.File.History.{history_refines, history_overflow}
use weronity_vpn.Lifetime.File.Timeline.{Shows, run_timelines, empty_timeline}
use weronity_vpn.Tests.Setup.{ascii, calendar, calendar-IsLawful}
use weronity_vpn.Tests.Tables.{state, state-IsGood, ids, ids-IsIdSet, later}

-- The text of a file is the value itself, with its keys in order.
abbrev pub json : Json
json = record { Text = Value; dumps = sort_keys; loads = λ v. some v; dict_of_items = λ vs. ok [] }

pub json-IsJson : IsJson json
json-IsJson = record { loads-dumps = λ v. refl }

load-save_example :
    (s' : SeenState) × ((load ⦃py = ascii⦄ json (holds (save json state)) >>= as_state) ≡ ok s')
    × IsGood calendar s'
    × (s'.runs_total ≡ state.runs_total)
    × (s'.window_h ≡ state.window_h)
    × ((k : String) → lookup k s'.nodes ≡ sorted_at (lookup k state.nodes))
load-save_example = load-save ⦃py = ascii⦄ json json-IsJson calendar state state-IsGood

abbrev two_runs : List (List String × ℕ)
two_runs = (ids, later) ∷ ("id1" ∷ [], later) ∷ []

history_refines_example :
    (file' : StateFile Value) × (s : SeenState) × (history ⦃py = ascii⦄ calendar json unreadable
        two_runs
      ≡ ok file')
    × ((load ⦃py = ascii⦄ json file' >>= as_state) ≡ ok s)
    × IsGood calendar s
    × Shows ⦃py = ascii⦄ calendar s (run_timelines two_runs empty_timeline)
history_refines_example =
    history_refines ⦃py = ascii⦄ json json-IsJson calendar calendar-IsLawful unreadable two_runs tt
      ((ids-IsIdSet, refl), (((unfold one_of in refl, tt), refl), tt))

-- A window of 10 ^ 8 hours.
abbrev long_window : SeenState
long_window = record state { window_h = pos 100_000_000 }

history_overflow_example :
    history ⦃py = ascii⦄ calendar json (holds (save json long_window)) ((ids, later) ∷ two_runs)
    ≡ err overflow_error
history_overflow_example =
    history_overflow ⦃py = ascii⦄ json json-IsJson calendar calendar-IsLawful long_window ids later
      two_runs ids-IsIdSet
      (record { entries = state-IsGood.entries; distinct = state-IsGood.distinct }) refl
