-- ===== src/Sources.antt =====
-- sources/github.py: the documents of a GitHub repository. The answers of the server are a parameter.
-- The proofs are in the module below.
pub mod Listed
use weronity_vpn.Prelude.{
  ℕ, ◌≡◌, String, ◌<>◌, Bool, true, false, Option, none, some, List, [], ◌∷◌, ◌&&◌, ◌||◌, not, ◌==◌,
  eqb, ltb, any_of, select, if◌then◌else◌,
}
use weronity_vpn.Prelude.Int.{ℤ, pos, negsuc}
use weronity_vpn.Prelude.Dict.{Dict, lookup}
use weronity_vpn.Prelude.Text.{strip, split_by, contains, ends_with, cut_last, one_of}
use weronity_vpn.Prelude.Value.{
  Value, null, bool, int, float, str, obj, arr, Fields, end, field, Items, nil, cons, to_dict,
  Float, Runtime, get, get_or,
}
use weronity_vpn.Prelude.Result.{
  Result, ok, err, key_error, type_error, value_error, http_error, ◌>>=◌, guard, or_raise,
}
use weronity_vpn.Harvest.{RawDocument, Libraries, detect_kind, unknown}
use Prim.Native.Char.{code}

-- `PurePosixPath(path).name`: the last part that is neither empty nor a dot
unfoldable pub last_part : List String → String
last_part [] = ""
last_part (p ∷ ps) =
    let rest = last_part ps in if rest == "" then (if p == "." then "" else p) else rest

-- `PurePosixPath(path).suffix`
unfoldable pub suffix_of : String → String
unfolding last_part split_by cut_last
suffix_of path = elim (cut_last "." (last_part (split_by (λ c. eqb (code c) b'/') path))) [
  | none ↦ ""
  | some (stem, ext) ↦ if stem == "" || ext == "" then "" else "." <> ext
]

abbrev pub text_suffixes : List String
text_suffixes = ".txt" ∷ ".yaml" ∷ ".yml" ∷ ".json" ∷ ".conf" ∷ ".list" ∷ ".ini" ∷ "" ∷ []

abbrev pub skip_suffixes : List String
skip_suffixes = ".png" ∷ ".jpg" ∷ ".jpeg" ∷ ".gif" ∷ ".svg" ∷ ".ico" ∷ ".pdf" ∷ ".zip" ∷ ".gz" ∷ []

abbrev pub max_bytes : ℕ
max_bytes = 3_000_000

-- An answer of the server: whether `raise_for_status` passes, the status, the text, and the JSON if the
-- text is one.
pub record Response : Type 0 where
  pub is_success : Bool
  pub status : ℕ
  pub text : String
  pub json : Option Value

-- What the source takes from outside: the answer to a GET, or the error of `httpx`; `quote`; whether a
-- float is above `_MAX_BYTES`.
pub record Http : Type 0 where
  pub send : String → Dict String → Option Response
  pub quote : String → String
  pub large : Float → Bool

pub record GitHubRepoSource : Type 0 where
  pub repo : String
  pub ref : String
  pub token : Option String

-- `self.name`
abbrev pub name : GitHubRepoSource → String
name source = "github:" <> source.repo

-- `_headers`
unfoldable pub headers : GitHubRepoSource → Dict String
headers source =
    let common : Dict String =
      ("Accept", "application/vnd.github+json") ∷ ("User-Agent", "weronity-collector") ∷ [] in
    elim source.token [
      | none ↦ common
      | some token ↦
          if token == ""
          then common
          else ("Accept", "application/vnd.github+json")
            ∷ ("User-Agent", "weronity-collector")
            ∷ ("Authorization", "Bearer " <> token)
            ∷ []
    ]

-- The items that `for entry in tree` goes over; the parts of a text or the keys of an object have no
-- `get`, so all but the empty ones raise.
unfoldable pub items_of : Value → Result Items
items_of (arr vs) = ok vs
items_of (obj end) = ok nil
items_of (str s) = if s == "" then ok nil else err type_error
items_of _ = err type_error

-- `PurePosixPath(low).suffix in _TEXT_SUFFIXES or "base64" in low`
unfoldable pub is_text : String → Bool
unfolding suffix_of one_of contains
is_text low = one_of (suffix_of low) text_suffixes || contains "base64" low

unfoldable pub is_skipped : String → Bool
unfolding any_of ends_with
is_skipped low = any_of (λ s. ends_with low s) skip_suffixes

module _ ⦃py : Runtime⦄ (http : Http) where
  -- `entry.get("size", 0) > _MAX_BYTES`
  unfoldable pub too_large : Value → Result Bool
  too_large (int (pos n)) = ok (ltb max_bytes n)
  too_large (int (negsuc n)) = ok false
  too_large (bool b) = ok false
  too_large (float x) = ok (http.large x)
  too_large _ = err type_error

  -- The rest of a round, for an entry of type "blob" with its path.
  unfoldable pub blob_path : Dict Value → Value → Result (Option String)
  unfolding too_large is_text is_skipped get_or
  blob_path entry (str path) =
      let low = py.lower path in
      let sized : Result (Option String) =
        too_large (get_or (int (pos 0)) "size" entry) >>= λ large.
        ok (if large then none else if is_text low then some path else none) in
      if is_skipped low then ok none else sized
  blob_path entry _ = err type_error

  -- One round of the loop over the tree: the path of a blob that is downloaded.
  unfoldable pub entry_path : Value → Result (Option String)
  unfolding to_dict get lookup blob_path
  entry_path (obj fs) =
      let entry = to_dict fs in
      let blob : Result (Option String) =
        or_raise key_error (lookup "path" entry) >>= λ path. blob_path entry path in
      elim (get "type" entry) [ str t ↦ if t == "blob" then blob else ok none | _ ↦ ok none ]
  entry_path _ = err type_error

  unfoldable pub tree_paths : Items → Result (List String)
  unfolding entry_path
  tree_paths nil = ok []
  tree_paths (cons v vs) = do
    found ← entry_path v
    rest ← tree_paths vs
    ok (elim found [ none ↦ rest | some path ↦ path ∷ rest ])

  -- `body.get("tree", [])`
  unfoldable pub tree_of : Value → Result Items
  unfolding to_dict get_or items_of
  tree_of (obj fs) = items_of (get_or (arr nil) "tree" (to_dict fs))
  tree_of _ = err type_error

  -- `_list_blobs`, with the address of the tree
  unfoldable pub list_blobs : GitHubRepoSource → Result (List String)
  unfolding headers tree_of tree_paths
  list_blobs source = do
    let url =
        "https://api.github.com/repos/" <> source.repo <> "/git/trees/" <> source.ref
        <> "?recursive=1"
    resp ← or_raise http_error (http.send url (headers source))
    _ ← guard resp.is_success http_error
    body ← or_raise value_error resp.json
    tree ← tree_of body
    tree_paths tree

  module _ (libs : Libraries) where
    -- The document of an answer, if it has one.
    unfoldable pub document : GitHubRepoSource → String → Response → Option RawDocument
    unfolding strip detect_kind
    document source path r =
        let doc : RawDocument = record {
          source = name source;
          source_file = path;
          content = r.text;
          kind = unknown;
        } in
        if not (eqb r.status 200) || strip r.text == ""
        then none
        else some (record doc { kind = detect_kind libs doc })

    -- The loop over the paths.
    unfoldable pub fetch_all : GitHubRepoSource → List String → Result (List RawDocument)
    unfolding document
    fetch_all source [] = ok []
    fetch_all source (path ∷ paths) = do
      let url =
          "https://raw.githubusercontent.com/"
          <> source.repo
          <> "/"
          <> source.ref
          <> "/"
          <> http.quote path
      r ← or_raise http_error (http.send url (("User-Agent", "weronity-collector") ∷ []))
      rest ← fetch_all source paths
      ok (elim (document source path r) [ none ↦ rest | some doc ↦ doc ∷ rest ])

    -- `list(source.fetch())`
    unfoldable pub fetch : GitHubRepoSource → Result (List RawDocument)
    unfolding list_blobs fetch_all
    fetch source = do paths ← list_blobs source; fetch_all source paths
