-- ===== src/FetchGeoip.antt =====
-- scripts/fetch_geoip.py: the download of the databases into a directory. What the server answers is a
-- parameter; the directory is a dict from file names to contents. The proofs are in the module below.
pub mod Kept
use weronity_vpn.Prelude.{
  ℕ, String, ◌<>◌, Bool, true, false, Option, none, some, List, [], ◌∷◌, if◌then◌else◌,
}
use weronity_vpn.Prelude.Dict.{Dict, insert}

abbrev pub cdn : String
cdn = "https://cdn.jsdelivr.net/npm/@ip-location-db"

-- `DATASETS`: the local name and the path of each database
abbrev pub datasets : Dict String
datasets =
    ("dbip-country-lite.mmdb", "dbip-country-mmdb/dbip-country.mmdb")
    ∷ ("dbip-asn-lite.mmdb", "asn-mmdb/asn.mmdb")
    ∷ []

module _ {A : Type 0} (download : String → Option A) where
  -- `fetch`: whether the download succeeded, and the directory after it
  unfoldable pub fetch_file : String → String → Dict A → Bool × Dict A
  unfolding insert
  fetch_file url out directory = elim (download url) [
    | none ↦ (false, directory)
    | some content ↦ (true, insert out content directory)
  ]

  -- The loop of `main` with its flag `ok`.
  unfoldable pub fetch_datasets : Dict String → Bool → Dict A → Bool × Dict A
  unfolding fetch_file
  fetch_datasets [] good directory = (good, directory)
  fetch_datasets ((filename, path) ∷ sets) good directory =
      let (fetched, directory') = fetch_file (cdn <> "/" <> path) filename directory in
      fetch_datasets sets (if fetched then good else false) directory'

  -- `main`: the exit code and the directory
  unfoldable pub main : Dict A → ℕ × Dict A
  unfolding fetch_datasets
  main directory =
      let (good, directory') = fetch_datasets datasets true directory in
      (if good then 0 else 1, directory')
