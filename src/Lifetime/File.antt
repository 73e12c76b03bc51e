-- ===== src/Lifetime/File.antt =====
-- pipeline/lifetime.py: the state file, how it is loaded and saved, and runs that follow each other
-- through it. The proofs are in the modules below.
pub mod Sorted
pub mod Timeline
pub mod History
use weronity_vpn.Prelude.{
  ℕ, zero, suc, ◌+◌, ◌≡◌, String, Bool, true, false, Option, none, some, List, [], ◌∷◌,
  if◌then◌else◌, ◌==◌,
}
use weronity_vpn.Prelude.Int.{ℤ, pos, negsuc}
use weronity_vpn.Prelude.Dict.{Dict, lookup}
use weronity_vpn.Prelude.Value.{
  Value, null, bool, int, float, str, obj, arr, Fields, end, field, Items, nil, cons, to_dict,
  fields, Runtime, to_int, get_or,
}
use weronity_vpn.Prelude.Json.{Json}
use weronity_vpn.Prelude.Result.{Result, ok, err, type_error, value_error, ◌>>=◌, or_raise}
use weronity_vpn.Lifetime.{Calendar, Entry, SeenState, observe}

-- What is at the path of the state: no file, one that cannot be read, or a text.
pub data StateFile {ℓ} (A : Type ℓ) : Type ℓ where
  no_file unreadable : StateFile A
  holds : A → StateFile A

-- The state as `load` makes it. The entries are whatever the file has.
pub record Loaded : Type 0 where
  pub runs_total : ℤ
  pub window_h : ℤ
  pub nodes : Dict Value

-- `cls()`
abbrev pub empty_state : Loaded
empty_state = record { runs_total = pos 0; window_h = pos 336; nodes = [] }

-- `dict(v)`
unfoldable pub dict_of : Json → Value → Result (Dict Value)
unfolding to_dict
dict_of json (obj fs) = ok (to_dict fs)
dict_of json (arr nil) = ok []
dict_of json (arr (cons v vs)) = json.dict_of_items (cons v vs)
dict_of json (str s) = if s == "" then ok [] else err value_error
dict_of json _ = err type_error

module _ ⦃py : Runtime⦄ (json : Json) where
  -- The constructor's call at the end of `load`, which is outside of the `try`.
  unfoldable pub loaded_of : Dict Value → Result Loaded
  unfolding to_int get_or dict_of
  loaded_of raw = do
    runs ← or_raise value_error (to_int (get_or (int (pos 0)) "runs_total" raw))
    window ← or_raise value_error (to_int (get_or (int (pos 336)) "window" raw))
    nodes ← dict_of json (get_or (obj end) "nodes" raw)
    ok (record { runs_total = runs; window_h = window; nodes = nodes })

  -- The top level has to be an object.
  unfoldable pub load_value : Option Value → Result Loaded
  unfolding loaded_of to_dict
  load_value (some (obj fs)) = loaded_of (to_dict fs)
  load_value _ = ok empty_state

  -- `SeenState.load`
  unfoldable pub load : StateFile json.Text → Result Loaded
  unfolding load_value
  load no_file = ok empty_state
  load unreadable = ok empty_state
  load (holds text) = load_value (json.loads text)

abbrev pub node_fields : Dict Entry → Fields
node_fields [] = end
node_fields ((sid, e) ∷ nodes) = field sid (obj (fields e)) (node_fields nodes)

-- The object that `save` prints.
abbrev pub state_value : SeenState → Value
state_value s = obj (
    field "runs_total" (int (pos s.runs_total))
      (field "window" (int s.window_h) (field "nodes" (obj (node_fields s.nodes)) end)))

-- `SeenState.save`: the text that replaces the file.
unfoldable pub save : (json : Json) → SeenState → json.Text
save json s = json.dumps (state_value s)

-- The entries, if each is an object. The pruning reads all of them, and raises on any other value but for
-- an entry of null whose id is present: the code writes a new entry over it, and here it is left out.
unfoldable pub entries_of : Dict Value → Result (Dict Entry)
unfolding to_dict
entries_of [] = ok []
entries_of ((sid, obj fs) ∷ nodes) = do rest ← entries_of nodes; ok ((sid, to_dict fs) ∷ rest)
entries_of (_ ∷ nodes) = err type_error

-- A number of runs. No run writes a negative one, and what a run does with it is left out.
abbrev pub count_of : ℤ → Result ℕ
count_of (pos n) = ok n
count_of (negsuc n) = err value_error

-- A loaded state as one that can be observed.
unfoldable pub as_state : Loaded → Result SeenState
unfolding entries_of
as_state loaded = do
  entries ← entries_of loaded.nodes
  total ← count_of loaded.runs_total
  ok (record { runs_total = total; window_h = loaded.window_h; nodes = entries })

module _ ⦃py : Runtime⦄ (cal : Calendar) (json : Json) where
  -- What a run does with the state: `SeenState.load`, `observe` and `save`, as `build_pool` calls them.
  unfoldable pub run_state : StateFile json.Text → List String → ℕ → Result SeenState
  unfolding load as_state observe
  run_state file ids now = do
    loaded ← load json file
    state ← as_state loaded
    observe cal ids now state

  -- The runs of a list of ids and times, each from the file of the one before it.
  unfoldable pub history :
      StateFile json.Text → List (List String × ℕ) → Result (StateFile json.Text)
  unfolding run_state save
  history file [] = ok file
  history file ((ids, now) ∷ runs) = do
    state ← run_state file ids now
    history (holds (save json state)) runs
