-- ===== src/App/Venues.antt =====
-- YumQuest/YumQuest/View/NearbyLocationsVC.swift: the table of venues and its filter, and what it takes
-- from API Structs/DetailFoodVenue.swift. A DetailFoodVenue is an object that is filled when the answer
-- of the service arrives, so the arrays hold addresses and `objects` is what stands there. `Text` is the
-- type of strings; the labels of rating and price are left out.
pub mod Filter
use yum_quest.Base.{
  ℕ, Bool, true, false, not, Option, none, some, List, [], ◌∷◌, ◌++◌, length, if◌then◌else◌,
}
use yum_quest.App.Swift.{chain, ◌>>=◌, at}

-- GetDetailsOfVenueResponse.Response.VenueInfo, with its location.
pub record VenueInfo (Text : Type 0) : Type 0 where
  pub name : Text
  pub address : Option Text
  pub city : Option Text
  pub state : Option Text
  pub categories : List (Option Text)

-- DetailFoodVenue, with getDetailsOfVenueResponse?.response.venue as `info`.
pub record DetailFoodVenue (Text : Type 0) : Type 0 where
  pub has_menu : Option Bool
  pub info : Option (VenueInfo Text)

-- The variables of NearbyLocationsVC; `venues` is nearbyVenues?.venues.
pub record NearbyLocations : Type 0 where
  pub filter : Bool
  pub venues : Option (List ℕ)
  pub venues_with_menus : List ℕ

-- The labels of a VenueInfoTVC.
pub record VenueCell (Text : Type 0) : Type 0 where
  pub name : Text
  pub category : Option Text
  pub address : Text
  pub menu_hidden : Bool

-- if let hasMenu = venue.hasMenu { if hasMenu … }
abbrev pub offers_menu : Option Bool → Bool
offers_menu none = false
offers_menu (some b) = b

-- `joined a b` is a + ", " + b, and `unknown` the text for a venue without an address.
unfoldable pub address_label : {Text : Type 0} → (Text → Text → Text) → Text → VenueInfo Text → Text
address_label joined unknown v = elim v.address [
  | none ↦ unknown
  | some a ↦ elim v.city [
    | none ↦ a
    | some c ↦ elim v.state [ none ↦ joined a c | some s ↦ joined (joined a c) s ]
  ]
]

module _ {Text : Type 0} (objects : ℕ → DetailFoodVenue Text) where
  -- for venue in venues: venuesWithMenus.append(venue)
  unfoldable pub append_with_menus : List ℕ → List ℕ → List ℕ
  append_with_menus [] found = found
  append_with_menus (v ∷ rest) found =
      append_with_menus rest (if offers_menu (objects v).has_menu then found ++ (v ∷ []) else found)

  unfoldable pub filter_table_pressed : NearbyLocations → NearbyLocations
  unfolding append_with_menus
  filter_table_pressed s =
      let on = record s {
        filter = true;
        venues_with_menus = elim s.venues [ none ↦ [] | some venues ↦ append_with_menus venues [] ];
      } in
      if not s.filter then on else record s { filter = false }

  -- tableView(_:numberOfRowsInSection:)
  unfoldable pub number_of_rows : NearbyLocations → ℕ
  number_of_rows s =
      if s.filter
      then length s.venues_with_menus
      else elim s.venues [ none ↦ 0 | some venues ↦ length venues ]

  -- The cell of a venue; one without details stays as it is, and `categories[0]` may trap.
  unfoldable pub venue_cell : (Text → Text → Text) → Text → ℕ → Option (Option (VenueCell Text))
  unfolding address_label
  venue_cell joined unknown v = elim (objects v).info [
    | none ↦ some none
    | some info ↦ do
      category ← at info.categories 0
      some (
          some (record {
            name = info.name;
            category = category;
            address = address_label joined unknown info;
            menu_hidden = not (offers_menu (objects v).has_menu);
          }))
  ]

  -- tableView(_:cellForRowAt:)
  unfoldable pub cell_for_row :
      (Text → Text → Text) → Text → NearbyLocations → ℕ → Option (Option (VenueCell Text))
  unfolding venue_cell
  cell_for_row joined unknown s row =
      if s.filter
      then chain (at s.venues_with_menus row) (venue_cell joined unknown)
      else elim s.venues [
        | none ↦ some none
        | some venues ↦ chain (at venues row) (venue_cell joined unknown)
      ]
