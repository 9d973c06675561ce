-- ===== src/App/Menu/Cells/Stale.antt =====
-- The rating label of a cell of View/MenuDetailsVC.swift that is used for two items.
use yum_quest.Base.{ℕ, ◌≡◌, true, some, List, [], ◌∷◌, arith, ◌==◌}
use yum_quest.App.Swift.{chain}
use yum_quest.App.Menu.{MenuItem}
use yum_quest.App.Menu.Cells.{MenuCell, Table, Lookup, asked, answered, handle_all}

-- What a cell shows, and the lookups that are left.
abbrev pub cell_and_lookups : {Text : Type 0} → ℕ → Table Text → MenuCell Text × List (Lookup Text)
cell_and_lookups cell t = (t.cells cell, t.lookups)

same_cell : (c : ℕ) → (c == c) ≡ true
same_cell c = ground arith

module _ {Text Double : Type 0} (format : Double → Text) where
  -- A table without lookups shows one item and then another in the same cell, both of which have a
  -- rating, and the answers for the second item arrive first. The cell ends with the name, the price
  -- and the description of the second item beside the rating of the first.
  pub handle_all-overtaken :
      (cells : ℕ → MenuCell Text) (cell : ℕ) (first second : MenuItem Text) (a b : Text)
      (of_first of_second : Double)
      → chain
          (handle_all format
            (asked cell (record first { entry_id = some a })
              ∷ asked cell (record second { entry_id = some b })
              ∷ answered 1 (some (some of_second))
              ∷ answered 1 (some (some of_second))
              ∷ answered 0 (some (some of_first))
              ∷ answered 0 (some (some of_first))
              ∷ [])
            (record { cells = cells; lookups = [] }))
          (λ t'. some (cell_and_lookups cell t'))
        ≡ some (
          record {
            name = second.name;
            price = second.price;
            description = second.description;
            rating = format of_first;
          },
          [],
        )
  unfolding handle_all
  handle_all-overtaken cells cell first second a b of_first of_second = ground arith
