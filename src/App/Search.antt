-- ===== src/App/Search.antt =====
-- YumQuest/YumQuest/Model/GetNearbyVenues.swift, and what View/NearbyLocationsVC.swift does with it: each
-- location update makes a new GetNearbyVenuesHelper, whose venues are there when the answer of the
-- service to its request arrives. The helpers and the venues are objects: a helper is an index into
-- `helpers`, and a venue into `ids`, which has the id that each DetailFoodVenue was made with.
pub mod Quiet
pub mod Select
mod Tests
use yum_quest.Base.{
  ℕ, zero, suc, ◌+◌, Bool, true, false, Option, none, some, List, [], ◌∷◌, ◌++◌, length, ◌==◌,
  if◌then◌else◌,
}
use yum_quest.App.Swift.{chain, at}
use yum_quest.App.Venues.{NearbyLocations, DetailFoodVenue, filter_table_pressed}

-- What the completion handler of the request has: no data, data that JSONDecoder refuses, or the code
-- of a response and the ids of its venues.
pub data Answer (Text : Type 0) : Type 0 where
  no_data : Answer Text
  undecodable : Answer Text
  response : (code : ℕ) → List Text → Answer Text

pub record Search (Text : Type 0) : Type 0 where
  -- `venues` of each helper, and `nearbyVenues`.
  pub helpers : List (Option (List ℕ))
  pub nearby_venues : Option ℕ
  pub ids : List Text
  pub filter : Bool
  pub venues_with_menus : List ℕ

-- A location update, which has a first location or none; the answer to the request of a helper; and a
-- press of the filter button.
pub data Event (Text : Type 0) : Type 0 where
  located : Bool → Event Text
  answered : ℕ → Answer Text → Event Text
  pressed : Event Text

-- `n` new objects from address `first` on.
unfoldable pub addresses : ℕ → ℕ → List ℕ
addresses first zero = []
addresses first (suc n) = first ∷ addresses (suc first) n

-- helper.venues = venues
unfoldable pub set_venues : List (Option (List ℕ)) → ℕ → List ℕ → List (Option (List ℕ))
set_venues [] helper venues = []
set_venues (v ∷ rest) zero venues = some venues ∷ rest
set_venues (v ∷ rest) (suc helper) venues = v ∷ set_venues rest helper venues

module _ {Text : Type 0} where
  -- What the table of NearbyLocationsVC reads.
  unfoldable pub table : Search Text → NearbyLocations
  table s = record {
    filter = s.filter;
    venues = chain s.nearby_venues (λ h. chain (at s.helpers h) (λ v. v));
    venues_with_menus = s.venues_with_menus;
  }

  -- locationManager(_:didUpdateLocations:), with the init of GetNearbyVenuesHelper.
  unfoldable pub update_locations : Bool → Search Text → Search Text
  update_locations has_first s =
      if has_first
      then record s { helpers = s.helpers ++ (none ∷ []); nearby_venues = some (length s.helpers) }
      else s

  -- The completion handler of the request.
  unfoldable pub complete_search : ℕ → Answer Text → Search Text → Search Text
  unfolding addresses set_venues
  complete_search helper no_data s = s
  complete_search helper undecodable s = s
  complete_search helper (response code found) s =
      if code == 200
      then record s {
        helpers = set_venues s.helpers helper (addresses (length s.ids) (length found));
        ids = s.ids ++ found;
      }
      else s

  -- prepare(for:sender:) with the row that is selected: what detailFoodVenue becomes, or a trap.
  unfoldable pub select_row : Search Text → ℕ → Option (Option ℕ)
  select_row s row =
      if s.filter
      then chain (at s.venues_with_menus row) (λ v. some (some v))
      else elim s.nearby_venues [
        | none ↦ some none
        | some h ↦
            chain (at s.helpers h)
              (λ venues. chain venues (λ vs. chain (at vs row) (λ v. some (some v))))
      ]

  -- The details of the venues (`objects`) may be there or not at each press.
  unfoldable pub handle : (ℕ → DetailFoodVenue Text) → Event Text → Search Text → Search Text
  unfolding update_locations complete_search table
  handle objects (located has_first) s = update_locations has_first s
  handle objects (answered helper answer) s = complete_search helper answer s
  handle objects pressed s =
      let t = filter_table_pressed objects (table s) in
      record s { filter = t.filter; venues_with_menus = t.venues_with_menus }

  unfoldable pub handle_all :
      List ((ℕ → DetailFoodVenue Text) × Event Text) → Search Text → Search Text
  unfolding handle
  handle_all [] s = s
  handle_all ((objects, e) ∷ rest) s = handle_all rest (handle objects e s)
