-- ===== src/App/Tests.antt =====
-- The theorems on YumQuest/YumQuest at concrete inputs.
use yum_quest.Base.{
  ℕ, ◌+◌, ◌≡◌, ◌≤◌, refl, true, false, Option, none, some, List, [], ◌∷◌, ◌++◌, ◌/◌, arith, length,
  All, ◌==◌, if◌then◌else◌,
}
use yum_quest.App.Rating.{Control, tap, resize, new_control, run}
use yum_quest.App.Rating.Stars.{Shows, new_control-Shows, run-Shows, taps, run-taps, run-chooses}
use yum_quest.App.Menu.{MenuItem, MenuSection, MenuCategory, Menu, MenuTableSection, load_sections}
use yum_quest.App.Menu.Load.{load_sections-items, table_items, category_items, IsCollapsed}
use yum_quest.App.Menu.Toggle.{toggle_all, toggle_all-in_range, turned, with_collapsed}
use yum_quest.App.Swift.{pos, at}
use yum_quest.App.Details
use yum_quest.App.Details.Rows.{reload-first, reload-second, row_of}
use yum_quest.App.Venues
use yum_quest.App.Venues.Filter.{
  HasMenu, filter_table_pressed-HasMenu, filter_table_pressed-twice, cell_for_row-HasCategory,
}
use yum_quest.App.Reviews
use yum_quest.App.Reviews.Alone.{submit_all-counts, tally, all_signed_in}
use yum_quest.App.Reviews.Together.{run-reviews, calls, unsent}
use yum_quest.App.Reviews.Lost.{run-lost_count}

abbrev three_stars : Control
three_stars = record { rating = 2; star_count = 3; selected = true ∷ true ∷ false ∷ [] }

run-Shows_example : Shows three_stars
unfolding run new_control
run-Shows_example = run-Shows (tap 4 ∷ resize (pos 3) ∷ tap 1 ∷ []) three_stars refl

run-taps_example :
    (c : Control) × (run (taps (4 ∷ 4 ∷ 2 ∷ [])) new_control ≡ some c)
    × (c.star_count ≡ new_control.star_count)
    × (c.rating ≤ new_control.star_count)
unfolding new_control
run-taps_example =
    run-taps (4 ∷ 4 ∷ 2 ∷ []) new_control new_control-Shows (omega arith)
      (omega arith, (omega arith, (omega arith, tt)))

run-chooses_example :
    (is : List ℕ) × (length is ≤ 1)
    × (c : Control) × (run (taps is) new_control ≡ some c)
    × (c.rating ≡ 4)
unfolding new_control
run-chooses_example = run-chooses 4 new_control new_control-Shows (omega arith) (omega arith)

-- A menu with one category of two sections, whose strings are numbers.
abbrev dish : ℕ → MenuItem ℕ
dish n = record { entry_id = some n; name = some n; description = none; price = none }

abbrev menu_section : ℕ → List (MenuItem ℕ) → MenuSection ℕ
menu_section n dishes = record {
  section_id = some n;
  name = some n;
  entries = record { count = some 1; items = some dishes };
}

abbrev categories : List (MenuCategory ℕ)
categories =
    record {
      menu_id = some 1;
      name = some 1;
      entries = some (record {
        count = some 2;
        items = some (menu_section 1 (dish 1 ∷ dish 2 ∷ []) ∷ menu_section 2 (dish 3 ∷ []) ∷ []);
      });
    }
    ∷ []

abbrev small_menu : Option (Menu ℕ)
small_menu = some (record {
  menu = some (record { menus = some (record { count = some 1; items = some categories }) });
})

load_sections-items_example :
    (ts : List (MenuTableSection ℕ)) × (load_sections small_menu ≡ some ts)
    × (table_items ts ≡ category_items categories)
    × All IsCollapsed ts
load_sections-items_example =
    load_sections-items small_menu categories refl ((tt, ((tt, tt), ((tt, tt), tt))), tt)

abbrev small_table : List (MenuTableSection ℕ)
small_table =
    record { section_name = 1; menu_items = dish 1 ∷ dish 2 ∷ []; collapsed = false }
    ∷ record { section_name = 2; menu_items = dish 3 ∷ []; collapsed = true }
    ∷ []

toggle_all-in_range_example :
    (ts : List (MenuTableSection ℕ)) × (toggle_all (1 ∷ 0 ∷ 1 ∷ []) small_table ≡ some ts)
    × (length ts ≡ 2)
    × ((j : ℕ) → at ts j ≡ with_collapsed (turned j (1 ∷ 0 ∷ 1 ∷ [])) (at small_table j))
toggle_all-in_range_example =
    toggle_all-in_range (1 ∷ 0 ∷ 1 ∷ []) small_table (omega arith, (omega arith, (omega arith, tt)))

abbrev two_reviews : List (Details.Review ℕ)
two_reviews =
    record { review = 10; date = 20; rating = 5 }
    ∷ record { review = 11; date = 21; rating = 1 }
    ∷ []

abbrev one_review : List (Details.Review ℕ)
one_review = record { review = 12; date = 22; rating = 3 } ∷ []

reload-first_example :
    (Details.number_of_rows (Details.reload (λ n. n) two_reviews Details.new_arrays) ≡ 2)
    × (Details.cell_for_row (Details.reload (λ n. n) two_reviews Details.new_arrays) 1
        ≡ row_of (λ n. n) two_reviews two_reviews 1)
reload-first_example = reload-first (λ n. n) two_reviews 1

reload-second_example :
    Details.cell_for_row
      (Details.reload (λ n. n) one_review (Details.reload (λ n. n) two_reviews Details.new_arrays))
      0
    ≡ row_of (λ n. n) one_review (two_reviews ++ one_review) 0
reload-second_example = reload-second (λ n. n) two_reviews one_review 0

abbrev posted : ℕ → Reviews.Posted ℕ
posted r = record { user = 1; date = 2; review = 3; rating = r }

-- A Double that is a quotient, as a number: the quotients here have no remainder.
abbrev quotient : ℕ → ℕ → ℕ
quotient n d = n / d

abbrev signed_out : Reviews.Submission ℕ
signed_out = record { user = none; date = 2; review = 3; rating = 5 }

submit_all-counts_example :
    (Reviews.submit_all quotient
        (λ r. r)
        (all_signed_in (posted 5 ∷ posted 3 ∷ []))
        Reviews.empty_node
      ≡ some (tally quotient (λ r. r) (posted 5 ∷ posted 3 ∷ [])))
    × (Reviews.submit_review quotient (λ r. r) signed_out Reviews.empty_node ≡ none)
submit_all-counts_example =
    submit_all-counts quotient (λ r. r) (λ r. omega arith) (posted 5 ∷ posted 3 ∷ []) signed_out
      Reviews.empty_node

run-lost_count_example :
    (w : Reviews.World ℕ ℕ) × (Reviews.run quotient
        (λ r. r)
        (0 ∷ 0 ∷ 0 ∷ 1 ∷ 1 ∷ 1 ∷ 1 ∷ 1 ∷ 1 ∷ 1 ∷ 0 ∷ 0 ∷ 0 ∷ 0 ∷ [])
        (record {
          node = tally quotient (λ r. r) (posted 5 ∷ []);
          sessions = calls (posted 3 ∷ posted 4 ∷ []);
        })
      ≡ some w)
    × (w.node.count ≡ some 2)
    × (w.node.reviews ≡ posted 5 ∷ posted 3 ∷ posted 4 ∷ [])
    × (w.node.total_ratings ≡ some 12)
    × (w.node.average_rating ≡ some 6)
    × (unsent (λ _. true) w.sessions ≡ 0)
run-lost_count_example = run-lost_count quotient (λ r. r) (posted 3) (posted 4) (posted 5) []

-- The database after the requests of two calls on a new item, one by one in turn.
abbrev both_first : Reviews.Node ℕ ℕ
both_first = record {
  count = some 1;
  total_ratings = some 4;
  average_rating = some 4;
  reviews = posted 3 ∷ posted 4 ∷ [];
}

abbrev finished : ℕ → Reviews.Session ℕ
finished r = record { posted = posted r; value = 0; new_count = 0; new_total = 0; requests = [] }

abbrev turns : List ℕ
turns = 0 ∷ 1 ∷ 0 ∷ 1 ∷ 0 ∷ 1 ∷ 0 ∷ 1 ∷ 0 ∷ 1 ∷ []

-- The reviews with a rating of 3.
run-reviews_example : 1 + 0 ≡ 0 + 1
unfolding Reviews.run Reviews.step Reviews.next_request Reviews.perform Reviews.has_child
run-reviews_example =
    run-reviews quotient (λ r. r) (λ p. p.rating == 3) turns (posted 3 ∷ posted 4 ∷ [])
      Reviews.empty_node (record { node = both_first; sessions = finished 3 ∷ finished 4 ∷ [] })
      refl

-- Venues whose strings are numbers; those with an even address have a menu.
abbrev venue_info : Venues.VenueInfo ℕ
venue_info = record {
  name = 7;
  address = some 8;
  city = some 9;
  state = none;
  categories = some 1 ∷ [];
}

abbrev venue_objects : ℕ → Venues.DetailFoodVenue ℕ
venue_objects v = record {
  has_menu = if v == 2 then some true else if v == 3 then some false else none;
  info = some venue_info;
}

abbrev nearby : Venues.NearbyLocations
nearby = record { filter = false; venues = some (1 ∷ 2 ∷ 3 ∷ []); venues_with_menus = [] }

filter_table_pressed-HasMenu_example :
    ((Venues.filter_table_pressed venue_objects nearby).filter ≡ true)
    × ((row v : ℕ)
        → at (Venues.filter_table_pressed venue_objects nearby).venues_with_menus row ≡ some v
        → HasMenu venue_objects v × (i : ℕ) × (at (1 ∷ 2 ∷ 3 ∷ []) i ≡ some v))
    × ((i v : ℕ)
        → at (1 ∷ 2 ∷ 3 ∷ []) i ≡ some v
        → HasMenu venue_objects v
        → (row : ℕ) × (at (Venues.filter_table_pressed venue_objects nearby).venues_with_menus row
            ≡ some v))
filter_table_pressed-HasMenu_example =
    filter_table_pressed-HasMenu venue_objects nearby (1 ∷ 2 ∷ 3 ∷ []) refl refl

filter_table_pressed-twice_example :
    (Venues.number_of_rows venue_objects (
        Venues.filter_table_pressed venue_objects
          (Venues.filter_table_pressed venue_objects nearby))
      ≡ Venues.number_of_rows venue_objects nearby)
    × (Venues.cell_for_row venue_objects
          (λ a b. a + b)
          0
          (Venues.filter_table_pressed venue_objects
            (Venues.filter_table_pressed venue_objects nearby))
          1
        ≡ Venues.cell_for_row venue_objects (λ a b. a + b) 0 nearby 1)
filter_table_pressed-twice_example =
    filter_table_pressed-twice venue_objects (λ a b. a + b) 0 nearby 1 refl

cell_for_row-HasCategory_example :
    (cell : Option (Venues.VenueCell ℕ)) × (Venues.cell_for_row venue_objects
        (λ a b. a + b)
        0
        nearby
        2
      ≡ some cell)
unfolding Venues.number_of_rows
cell_for_row-HasCategory_example =
    cell_for_row-HasCategory venue_objects (λ a b. a + b) 0 nearby 2 (λ v. omega arith)
      (omega arith)
