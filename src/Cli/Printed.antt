-- ===== src/Cli/Printed.antt =====
-- The tables that `stats` prints.
use weronity_vpn.Prelude.{ℕ, ◌≡◌, refl, String, ◌<>◌, Bool, ◌∷◌, map, count, arith}
use weronity_vpn.Prelude.Dict.{Dict}
use weronity_vpn.Prelude.Sort.{sort, count-sort, IsOrder, Sorted, sort-Sorted}
use weronity_vpn.Cli.{by_count, count_line, section}

by_count-IsOrder : IsOrder by_count
by_count-IsOrder = record { total = λ x y h. ground arith; chain = λ x y z h1 h2. ground arith }

-- A table is printed with a line for each of its entries, in an order in which the counts never rise:
-- the printed entries pass every test as often as those of the table.
section_lem :
    (title : String) (d : Dict ℕ)
    → (printed : Dict ℕ) × (section title d ≡ "" ∷ ("by " <> title <> ":") ∷ map count_line printed)
      × Sorted by_count printed
      × ((p : String × ℕ → Bool) → count p printed ≡ count p d)
unfolding section
section_lem title d =
    (sort by_count d, refl, sort-Sorted by_count by_count-IsOrder d, λ p. count-sort by_count p d)
