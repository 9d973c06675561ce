-- ===== src/App/Menu/Cells/Tests.antt =====
-- The theorems on the cells of YumQuest/YumQuest/View/MenuDetailsVC.swift at concrete inputs: the texts
-- are numbers, and so are the averages.
use yum_quest.Base.{ℕ, ◌+◌, ◌≡◌, refl, none, some, List, [], ◌∷◌}
use yum_quest.App.Swift.{chain}
use yum_quest.App.Menu.{MenuItem}
use yum_quest.App.Menu.Cells.{
  MenuCell, Table, Event, check_item, asked, answered, fill_cell, answer_lookup, handle_all, handle,
}
use yum_quest.App.Menu.Cells.Stale.{cell_and_lookups, handle_all-overtaken}
use yum_quest.App.Menu.Cells.Labels.{labels_in, handle_all-labels}

abbrev format : ℕ → ℕ
format rating = rating + 100

abbrev soup : MenuItem ℕ
soup = record { entry_id = some 1; name = some 10; description = none; price = some 4 }

abbrev salad : MenuItem ℕ
salad = record { entry_id = some 2; name = some 20; description = some 21; price = some 5 }

abbrev empty_cells : ℕ → MenuCell ℕ
empty_cells c = record { name = none; price = none; description = none; rating = 0 }

handle_all-overtaken_example :
    chain
      (handle_all format
        (asked 0 soup
          ∷ asked 0 salad
          ∷ answered 1 (some (some 3))
          ∷ answered 1 (some (some 3))
          ∷ answered 0 (some (some 5))
          ∷ answered 0 (some (some 5))
          ∷ [])
        (record { cells = empty_cells; lookups = [] }))
      (λ t'. some (cell_and_lookups 0 t'))
    ≡ some (record { name = some 20; price = some 5; description = some 21; rating = 105 }, [])
handle_all-overtaken_example = handle_all-overtaken format empty_cells 0 soup salad 1 2 5 3

abbrev start : Table ℕ
start = record { cells = empty_cells; lookups = [] }

abbrev two_filled : Table ℕ
two_filled = fill_cell format 1 salad (fill_cell format 0 soup start)

-- Two rows, the answer that the salad has no rating, and the salad again in the first cell.
abbrev events : List (Event ℕ ℕ)
events = asked 0 soup ∷ asked 1 salad ∷ answered 1 none ∷ asked 0 salad ∷ []

abbrev after : Table ℕ
after = fill_cell format 0 salad (record two_filled { lookups = check_item 0 1 ∷ [] })

events_run : handle_all format events start ≡ some after
unfolding handle_all handle fill_cell answer_lookup
events_run = refl

handle_all-labels_example :
    labels_in (after.cells 0) ≡ record { name = some 20; price = some 5; description = some 21 }
handle_all-labels_example = handle_all-labels format events start after 0 events_run
