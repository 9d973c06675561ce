-- ===== src/App/Details.antt =====
-- YumQuest/YumQuest/View/ItemDetailsVC.swift: the reviews of an item that the table shows. `Text` is
-- the type of strings.
pub mod Rows
use yum_quest.Base.{ℕ, Option, none, some, List, [], ◌∷◌, ◌++◌, length}
use yum_quest.App.Swift.{at, chain, ◌>>=◌}

-- One entry of `userIDsReviews` in the database.
pub record Review (Text : Type 0) : Type 0 where
  pub review : Text
  pub date : Text
  pub rating : ℕ

-- The arrays of the view controller.
pub record Arrays (Text : Type 0) : Type 0 where
  pub reviews : List Text
  pub dates : List Text
  pub ratings : List Text

-- What a cell shows.
pub record Cell (Text : Type 0) : Type 0 where
  pub date : Text
  pub review : Text
  pub rating : Text

module _ {Text : Type 0} where
  abbrev pub new_arrays : Arrays Text
  new_arrays = record { reviews = []; dates = []; ratings = [] }

  -- The start of reloadViewDidLoad, before it asks the database.
  unfoldable pub start_reload : Arrays Text → Arrays Text
  start_reload a = record a { reviews = []; dates = [] }

  -- tableView(_:numberOfRowsInSection:)
  abbrev pub number_of_rows : Arrays Text → ℕ
  number_of_rows a = length a.reviews

  -- tableView(_:cellForRowAt:); an index out of range traps.
  unfoldable pub cell_for_row : Arrays Text → ℕ → Option (Cell Text)
  cell_for_row a row = do
    date ← at a.dates row
    review ← at a.reviews row
    rating ← at a.ratings row
    some (record { date = date; review = review; rating = rating })

-- `show` is String(rating).
module _ {Text : Type 0} (show : ℕ → Text) where
  -- The answer of the database: the closure of reloadViewDidLoad appends each review.
  unfoldable pub finish_reload : List (Review Text) → Arrays Text → Arrays Text
  finish_reload [] a = a
  finish_reload (r ∷ rs) a = finish_reload rs (record {
    reviews = a.reviews ++ (r.review ∷ []);
    dates = a.dates ++ (r.date ∷ []);
    ratings = a.ratings ++ (show r.rating ∷ []);
  })

  -- reloadViewDidLoad, with the answer of the database coming before anything else happens.
  unfoldable pub reload : List (Review Text) → Arrays Text → Arrays Text
  unfolding finish_reload start_reload
  reload rs a = finish_reload rs (start_reload a)
