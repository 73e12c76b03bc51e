-- ===== src/Sources/Listed.antt =====
-- What the documents of a repository have passed.
use weronity_vpn.Prelude.{
  ◌≡◌, refl, String, Bool, true, false, Option, none, some, List, [], ◌∷◌, ◌||◌, not, ◌==◌, eqb,
  arith, All, Bool-cases, inl, inr, if◌then◌else◌,
}
use weronity_vpn.Prelude.Int.{pos}
use weronity_vpn.Prelude.Dict.{Dict, lookup}
use weronity_vpn.Prelude.Text.{strip}
use weronity_vpn.Prelude.Value.{
  Value, null, bool, int, float, str, obj, arr, Items, nil, cons, to_dict, Runtime, get, get_or,
}
use weronity_vpn.Prelude.Result.{
  Result, ok, key_error, value_error, http_error, >>=-eq-ok, ok_inj, some_inj, guard, or_raise,
}
use weronity_vpn.Harvest.{RawDocument, Libraries, detect_kind, unknown}
use weronity_vpn.Sources.{
  Http, Response, GitHubRepoSource, name, headers, too_large, is_text, is_skipped, blob_path,
  entry_path, tree_paths, tree_of, list_blobs, document, fetch_all, fetch,
}

or_false : (a b : Bool) → (a || b) ≡ false → (a ≡ false) × (b ≡ false)
or_false true b h = cc
or_false false b h = (refl, h)

picked :
    (large text : Bool) (p path : String)
    → ok (if large then none else if text then some p else none) ≡ ok (some path)
    → (text ≡ true) × (p ≡ path)
picked true text p path h = cc
picked false false p path h = cc
picked false true p path h = (refl, cc)

-- An entry that gives a path has the type of a blob.
of_blob :
    (kind : Value) (blob : Result (Option String)) (path : String)
    → elim kind [ str t ↦ if t == "blob" then blob else ok none | _ ↦ ok none ] ≡ ok (some path)
    → blob ≡ ok (some path)
of_blob (str t) blob path h = elim (Bool-cases (t == "blob")) [
  | inl hit ↦ rw hit at h
  | inr miss ↦ absurd (ground arith)
]
of_blob null blob path h = cc
of_blob (bool b) blob path h = cc
of_blob (int z) blob path h = cc
of_blob (float x) blob path h = cc
of_blob (obj fs) blob path h = cc
of_blob (arr vs) blob path h = cc

module _ ⦃py : Runtime⦄ (http : Http) where
  -- A path whose name says that it is a text, and not that it is something else.
  abbrev pub IsWanted : String → Type 0
  IsWanted path = (is_skipped (py.lower path) ≡ false) × (is_text (py.lower path) ≡ true)

  blob_path-IsWanted :
      (entry : Dict Value) (v : Value) (path : String)
      → blob_path http entry v ≡ ok (some path)
      → IsWanted path
  unfolding blob_path
  blob_path-IsWanted entry (str p) path h = elim (Bool-cases (is_skipped (py.lower p))) [
    | inl skip ↦ absurd (ground arith)
    | inr keep ↦
        let (large, _, e) =
          >>=-eq-ok (too_large http (get_or (int (pos 0)) "size" entry)) _ (rw keep at h) in
        let (text, same) = picked large (is_text (py.lower p)) p path e in rw (← same) (keep, text)
  ]
  blob_path-IsWanted entry null path h = cc
  blob_path-IsWanted entry (bool b) path h = cc
  blob_path-IsWanted entry (int z) path h = cc
  blob_path-IsWanted entry (float x) path h = cc
  blob_path-IsWanted entry (obj fs) path h = cc
  blob_path-IsWanted entry (arr vs) path h = cc

  entry_path-IsWanted :
      (v : Value) (path : String) → entry_path http v ≡ ok (some path) → IsWanted path
  unfolding entry_path
  entry_path-IsWanted (obj fs) path h =
      let (v, _, e) =
        >>=-eq-ok (or_raise key_error (lookup "path" (to_dict fs))) (blob_path http (to_dict fs))
          (of_blob (get "type" (to_dict fs)) _ path h) in
      blob_path-IsWanted (to_dict fs) v path e
  entry_path-IsWanted (str s) path h = cc
  entry_path-IsWanted null path h = cc
  entry_path-IsWanted (bool b) path h = cc
  entry_path-IsWanted (int z) path h = cc
  entry_path-IsWanted (float x) path h = cc
  entry_path-IsWanted (arr vs) path h = cc

  found_first :
      (found : Option String) (rest : List String)
      → ((path : String) → found ≡ some path → IsWanted path)
      → All IsWanted rest
      → All IsWanted (elim found [ none ↦ rest | some path ↦ path ∷ rest ])
  found_first none rest h hs = hs
  found_first (some path) rest h hs = (h path refl, hs)

  tree_paths-IsWanted :
      (tree : Items) (paths : List String) → tree_paths http tree ≡ ok paths → All IsWanted paths
  unfolding tree_paths
  tree_paths-IsWanted nil paths h = rw (← ok_inj h) tt
  tree_paths-IsWanted (cons v vs) paths h =
      let (found, e, h') = >>=-eq-ok (entry_path http v) _ h in
      let (rest, e', h'') = >>=-eq-ok (tree_paths http vs) _ h' in
      rw (← ok_inj h'') (
        found_first found rest (λ path at. entry_path-IsWanted v path (rw (e, at) refl))
          (tree_paths-IsWanted vs rest e'))

  list_blobs-IsWanted :
      (source : GitHubRepoSource) (paths : List String)
      → list_blobs http source ≡ ok paths
      → All IsWanted paths
  unfolding list_blobs
  list_blobs-IsWanted source paths h =
      let (resp, _, h1) = >>=-eq-ok (or_raise http_error (http.send _ (headers source))) _ h in
      let (_, _, h2) = >>=-eq-ok (guard resp.is_success http_error) _ h1 in
      let (body, _, h3) = >>=-eq-ok (or_raise value_error resp.json) _ h2 in
      let (tree, _, h4) = >>=-eq-ok (tree_of http body) _ h3 in tree_paths-IsWanted tree paths h4

  module _ (libs : Libraries) (source : GitHubRepoSource) where
    -- A document of the source: its name, a wanted path, a text that is not blank, and its kind.
    abbrev pub IsFetched : RawDocument → Type 0
    IsFetched doc =
        (doc.source ≡ name source)
        × IsWanted doc.source_file
        × ((strip doc.content == "") ≡ false)
        × (doc.kind ≡ detect_kind libs (record doc { kind = unknown }))

    document-IsFetched :
        (path : String) (r : Response) (doc : RawDocument)
        → IsWanted path
        → document http libs source path r ≡ some doc
        → IsFetched doc
    unfolding document
    document-IsFetched path r doc wanted h =
        elim (Bool-cases (not (eqb r.status 200) || strip r.text == "")) [
          | inl skip ↦ absurd (ground arith)
          | inr keep ↦
              let full : (strip r.text == "") ≡ false = (or_false _ _ keep).1 in
              rw (← some_inj (rw keep at h)) (refl, wanted, full, refl)
        ]

    next_document :
        (found : Option RawDocument) (rest : List RawDocument)
        → ((doc : RawDocument) → found ≡ some doc → IsFetched doc)
        → All IsFetched rest
        → All IsFetched (elim found [ none ↦ rest | some doc ↦ doc ∷ rest ])
    next_document none rest h hs = hs
    next_document (some doc) rest h hs = (h doc refl, hs)

    fetch_all-IsFetched :
        (paths : List String) (docs : List RawDocument)
        → All IsWanted paths
        → fetch_all http libs source paths ≡ ok docs
        → All IsFetched docs
    unfolding fetch_all
    fetch_all-IsFetched [] docs _ h = rw (← ok_inj h) tt
    fetch_all-IsFetched (path ∷ paths) docs (w, ws) h =
        let (r, _, h1) = >>=-eq-ok (or_raise http_error (http.send _ _)) _ h in
        let (rest, e, h2) = >>=-eq-ok (fetch_all http libs source paths) _ h1 in
        rw (← ok_inj h2) (
          next_document (document http libs source path r) rest
            (λ doc at. document-IsFetched path r doc w at) (fetch_all-IsFetched paths rest ws e))

    -- Every document that is fetched from a repository has the repository's name as its source, a path
    -- of a text's kind (and of none that is skipped), a text that is not blank, and the kind that its
    -- content shows.
    pub fetch-IsFetched :
        (docs : List RawDocument) → fetch http libs source ≡ ok docs → All IsFetched docs
    unfolding fetch
    fetch-IsFetched docs h =
        let (paths, e, h') = >>=-eq-ok (list_blobs http source) _ h in
        fetch_all-IsFetched paths docs (list_blobs-IsWanted source paths e) h'
