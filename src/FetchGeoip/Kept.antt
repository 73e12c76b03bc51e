-- ===== src/FetchGeoip/Kept.antt =====
-- A failed download keeps the database that is there, and shows in the exit code.
use weronity_vpn.Prelude.{
  ◌≡◌, refl, sym, ap, ◌∙◌, String, ◌<>◌, Bool, true, false, ◌&&◌, Option, none, some, [], ◌∷◌,
  if◌then◌else◌, arith, Bool-cases, inl, inr, eq_iff, ◌==◌,
}
use weronity_vpn.Prelude.Dict.{Dict, lookup, has, insert, lookup-insert, lookup-has, Distinct}
use weronity_vpn.FetchGeoip.{cdn, datasets, fetch_file, fetch_datasets, main}

module _ {A : Type 0} (download : String → Option A) where
  -- The content of a file after the run: the download if there is one, and the old content if not.
  abbrev pub or_old : Option A → Option A → Option A
  or_old none old = old
  or_old (some new) old = some new

  abbrev pub downloaded : Option String → Option A
  downloaded none = none
  downloaded (some path) = download (cdn <> "/" <> path)

  abbrev pub is_done : Option A → Bool
  is_done none = false
  is_done (some content) = true

  -- Every dataset can be downloaded.
  unfoldable pub all_done : Dict String → Bool
  all_done [] = true
  all_done ((filename, path) ∷ sets) = is_done (download (cdn <> "/" <> path)) && all_done sets

  -- What a run of the loop comes to.
  abbrev IsRun : Dict String → Bool → Dict A → Type 0
  IsRun todo flag old =
      ((fetch_datasets download todo flag old).0 ≡ (flag && all_done todo))
      × ((k : String)
          → lookup k (fetch_datasets download todo flag old).1
            ≡ or_old (downloaded (lookup k todo)) (lookup k old))

  fetch_datasets_lem :
      (sets : Dict String) (good : Bool) (directory : Dict A)
      → Distinct sets
      → IsRun sets good directory
  unfolding fetch_datasets fetch_file all_done lookup
  fetch_datasets_lem [] good directory _ = (ground arith, λ k. refl)
  fetch_datasets_lem ((filename, path) ∷ sets) good directory (new, distinct) =
      go (download (cdn <> "/" <> path)) refl
        λ good' directory'. fetch_datasets_lem sets good' directory' distinct
    where
      absent : (k : String) → (filename == k) ≡ true → lookup k sets ≡ none
      absent k hit =
          let same : filename ≡ k = (eq_iff filename k).0 hit in
          rw (← same) (lookup-has filename sets new)

      go :
          (found : Option A)
          → download (cdn <> "/" <> path) ≡ found
          → ((good' : Bool) (directory' : Dict A) → IsRun sets good' directory')
          → IsRun ((filename, path) ∷ sets) good directory
      go none e ih =
          let step : fetch_datasets download ((filename, path) ∷ sets) good directory
              ≡ fetch_datasets download sets false directory =
            rw (fetch_datasets, fetch_file, e) refl in
          let (flag, kept) = ih false directory in
          (
            ap (λ r. r.0) step ∙ flag ∙ rw e (ground arith),
            λ k. ap (λ r. lookup k r.1) step ∙ kept k ∙ elim (Bool-cases (filename == k)) [
              | inr other ↦ rw other refl
              | inl hit ↦
                  rw (hit, absent k hit) (ap (λ found. or_old found (lookup k directory)) (sym e))
            ],
          )
      go (some content) e ih =
          let step : fetch_datasets download ((filename, path) ∷ sets) good directory
              ≡ fetch_datasets download sets good (insert filename content directory) =
            rw (fetch_datasets, fetch_file, e) refl in
          let (flag, kept) = ih good (insert filename content directory) in
          (
            ap (λ r. r.0) step ∙ flag ∙ rw e refl,
            λ k. ap (λ r. lookup k r.1) step ∙ kept k ∙ elim (Bool-cases (filename == k)) [
              | inr other ↦ rw (lookup-insert k filename content directory, other) refl
              | inl hit ↦
                  rw (lookup-insert k filename content directory, hit, absent k hit)
                    (ap (λ found. or_old found (lookup k directory)) (sym e))
            ],
          )

  -- The script exits with 0 exactly when both databases were downloaded, and with 1 otherwise. After it
  -- a database is the downloaded one; where the download failed, and in every other file, the directory
  -- has what it had before.
  pub main_lem :
      (directory : Dict A)
      → ((main download directory).0 ≡ (if all_done datasets then 0 else 1))
        × ((k : String)
            → lookup k (main download directory).1
              ≡ or_old (downloaded (lookup k datasets)) (lookup k directory))
  unfolding main
  main_lem directory =
      let (flag, kept) =
        fetch_datasets_lem datasets true directory (unfold has in refl, (unfold has in refl, tt)) in
      (ap (λ good. if good then 0 else 1) flag, kept)
