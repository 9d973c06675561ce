-- ===== src/App/Search/Tests.antt =====
-- The theorems on the search for venues of YumQuest/YumQuest/Model/GetNearbyVenues.swift at concrete
-- inputs; the texts are numbers.
use yum_quest.Base.{ℕ, ◌+◌, ◌≡◌, refl, true, false, none, some, List, [], ◌∷◌, arith}
use yum_quest.App.Swift.{at}
use yum_quest.App.Venues.{
  DetailFoodVenue, number_of_rows, cell_for_row, venue_cell, filter_table_pressed,
}
use yum_quest.App.Search.{
  Search, Event, response, answered, pressed, table, update_locations, complete_search, select_row,
  handle, handle_all,
}
use yum_quest.App.Search.Select.{select_row-located, select_row-answered, select_row-counted}

-- No details are there yet.
abbrev no_details : ℕ → DetailFoodVenue ℕ
no_details v = record { has_menu = none; info = none }

abbrev asked : Search ℕ
asked = record {
  helpers = none ∷ [];
  nearby_venues = some 0;
  ids = [];
  filter = false;
  venues_with_menus = [];
}

abbrev listed : Search ℕ
listed = record asked { helpers = some (0 ∷ 1 ∷ []) ∷ []; ids = 50 ∷ 60 ∷ [] }

-- Two presses and an answer to the first request, after the second location update.
abbrev events : List ((ℕ → DetailFoodVenue ℕ) × Event ℕ)
events =
    (no_details, pressed)
    ∷ (no_details, answered 0 (response 200 (7 ∷ [])))
    ∷ (no_details, pressed)
    ∷ []

select_row-located_example : select_row (handle_all events (update_locations true asked)) 0 ≡ none
select_row-located_example =
    select_row-located events asked 0 (tt, ((λ e. omega arith), (tt, tt))) off
  where
    off : (handle_all events (update_locations true asked)).filter ≡ false
    off =
        unfold handle_all handle filter_table_pressed update_locations complete_search table in refl

select_row-answered_example :
    (number_of_rows no_details
        (table (handle_all [] (complete_search 0 (response 200 (50 ∷ 60 ∷ [])) asked)))
      ≡ 2)
    × (v : ℕ) × (select_row
          (handle_all [] (complete_search 0 (response 200 (50 ∷ 60 ∷ [])) asked))
          1
        ≡ some (some v))
    × (at (handle_all [] (complete_search 0 (response 200 (50 ∷ 60 ∷ [])) asked)).ids v ≡ some 60)
select_row-answered_example =
    select_row-answered 0 none (50 ∷ 60 ∷ []) [] asked 1 60 no_details
      (record { current = refl; holds = refl }) tt off refl
  where
    off : (handle_all [] (complete_search 0 (response 200 (50 ∷ 60 ∷ [])) asked)).filter ≡ false
    off = unfold handle_all complete_search in refl

two_rows : number_of_rows no_details (table listed) ≡ 2
unfolding number_of_rows table
two_rows = refl

select_row-counted_example :
    (v : ℕ) × (select_row listed 1 ≡ some (some v))
    × (cell_for_row no_details (λ a b. a + b) 0 (table listed) 1
        ≡ venue_cell no_details (λ a b. a + b) 0 v)
select_row-counted_example =
    select_row-counted no_details (λ a b. a + b) 0 listed 1 (omega (arith, two_rows))
