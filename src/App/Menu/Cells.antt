-- ===== src/App/Menu/Cells.antt =====
-- The cells of View/MenuDetailsVC.swift: tableView(_:cellForRowAt:) fills a cell that the table may have
-- shown another row in before, and asks the database for the rating of the item; the answers come
-- later. `Text` is the type of strings, `Double` that of averages.
pub mod Stale
pub mod Labels
mod Tests
use yum_quest.Base.{
  ℕ, zero, suc, Bool, true, false, Option, none, some, List, [], ◌∷◌, ◌++◌, length, ◌==◌,
  if◌then◌else◌,
}
use yum_quest.App.Swift.{chain, ◌>>=◌, at}
use yum_quest.App.Menu.{MenuItem}

-- The labels of a MenuTVC.
pub record MenuCell (Text : Type 0) : Type 0 where
  pub name : Option Text
  pub price : Option Text
  pub description : Option Text
  pub rating : Text

-- An observeSingleEvent that has not been answered: of the node of all ratings, or of the child
-- "averageRating" of the item.
pub data Lookup (Text : Type 0) : Type 0 where
  check_item : (cell : ℕ) → Text → Lookup Text
  read_average : (cell : ℕ) → Text → Lookup Text

pub record Table (Text : Type 0) : Type 0 where
  pub cells : ℕ → MenuCell Text
  pub lookups : List (Lookup Text)

-- The table asks for a row with an item in a cell; the database answers the lookup at an index, with
-- what it has then for the item, the average being a child that may be missing.
pub data Event (Text Double : Type 0) : Type 0 where
  asked : (cell : ℕ) → MenuItem Text → Event Text Double
  answered : ℕ → Option (Option Double) → Event Text Double

abbrev pub set_cell : {Text : Type 0} → ℕ → MenuCell Text → (ℕ → MenuCell Text) → ℕ → MenuCell Text
set_cell cell labels cells c = if c == cell then labels else cells c

-- The list without its entry at an index.
abbrev pub remove_at {ℓ} : {A : Type ℓ} → ℕ → List A → List A
remove_at i [] = []
remove_at zero (x ∷ xs) = xs
remove_at (suc i) (x ∷ xs) = x ∷ remove_at i xs

module _ {Text Double : Type 0} (format : Double → Text) where
  -- tableView(_:cellForRowAt:). The rating label stays as it is.
  unfoldable pub fill_cell : ℕ → MenuItem Text → Table Text → Table Text
  fill_cell cell item t =
      let labels = record (t.cells cell) {
        name = item.name;
        price = item.price;
        description = item.description;
      } in
      record {
        cells = set_cell cell labels t.cells;
        lookups = elim item.entry_id [
          | none ↦ t.lookups
          | some id ↦ t.lookups ++ (check_item cell id ∷ [])
        ];
      }

  -- The closures of the two observeSingleEvent calls; `none` is the trap of `as! Double`.
  unfoldable pub answer_lookup :
      Lookup Text → Option (Option Double) → Table Text → Option (Table Text)
  answer_lookup (check_item cell id) none t = some t
  answer_lookup (check_item cell id) (some average) t =
      some (record t { lookups = t.lookups ++ (read_average cell id ∷ []) })
  answer_lookup (read_average cell id) value t = do
    average ← value
    rating ← average
    some (record t {
      cells = set_cell cell (record (t.cells cell) { rating = format rating }) t.cells;
    })

  unfoldable pub handle : Event Text Double → Table Text → Option (Table Text)
  unfolding fill_cell answer_lookup
  handle (asked cell item) t = some (fill_cell cell item t)
  handle (answered i value) t = elim (at t.lookups i) [
    | none ↦ some t
    | some l ↦ answer_lookup l value (record t { lookups = remove_at i t.lookups })
  ]

  unfoldable pub handle_all : List (Event Text Double) → Table Text → Option (Table Text)
  unfolding handle
  handle_all [] t = some t
  handle_all (e ∷ es) t = do next ← handle e t; handle_all es next
