-- ===== src/App/Venues/Filter.antt =====
-- What the table of NearbyLocationsVC.swift shows with its filter and without.
use yum_quest.Base.{
  ℕ, zero, suc, ◌<◌, ◌≡◌, refl, sym, ap, ◌∙◌, true, false, not, Option, none, some, List, [], ◌∷◌,
  ◌++◌, length, arith, if◌then◌else◌, Bool-cases, inl, inr,
}
use mathlib.Core.List.{append_assoc, append-nil}
use yum_quest.App.Swift.{chain, at, at-below}
use yum_quest.App.Venues.{
  VenueInfo, DetailFoodVenue, NearbyLocations, VenueCell, offers_menu, address_label,
  append_with_menus, filter_table_pressed, number_of_rows, venue_cell, cell_for_row,
}

abbrev value_or : ℕ → Option ℕ → ℕ
value_or a none = a
value_or a (some b) = b

module _ {Text : Type 0} (objects : ℕ → DetailFoodVenue Text) where
  -- The venue has a menu, as far as is known.
  abbrev pub HasMenu : ℕ → Type 0
  HasMenu v = offers_menu (objects v).has_menu ≡ true

  -- The venues with a menu, in their order.
  abbrev with_menus : List ℕ → List ℕ
  with_menus [] = []
  with_menus (v ∷ vs) =
      if offers_menu (objects v).has_menu then v ∷ with_menus vs else with_menus vs

  append_with_menus-append :
      (vs found : List ℕ) → append_with_menus objects vs found ≡ found ++ with_menus vs
  unfolding append_with_menus
  append_with_menus-append [] found = sym (append-nil found)
  append_with_menus-append (v ∷ vs) found = elim (Bool-cases (offers_menu (objects v).has_menu)) [
    | inl menu ↦ rw menu (
        append_with_menus-append vs (found ++ (v ∷ []))
        ∙ append_assoc found (v ∷ []) (with_menus vs))
    | inr none_yet ↦ rw none_yet (append_with_menus-append vs found)
  ]

  -- Each of them is a venue with a menu.
  with_menus-HasMenu :
      (vs : List ℕ) (row v : ℕ)
      → at (with_menus vs) row ≡ some v
      → HasMenu v × (i : ℕ) × (at vs i ≡ some v)
  with_menus-HasMenu [] row v e = absurd (ground (arith, e))
  with_menus-HasMenu (x ∷ vs) row v e = elim (Bool-cases (offers_menu (objects x).has_menu)) [
    | inl menu ↦ first (λ row e. with_menus-HasMenu vs row v e) menu row (rw menu at e)
    | inr none_yet ↦
        let (has, i, same) = with_menus-HasMenu vs row v (rw none_yet at e) in (has, suc i, same)
  ]
    where
      first :
          ((row : ℕ) → at (with_menus vs) row ≡ some v → HasMenu v × (i : ℕ) × (at vs i ≡ some v))
          → HasMenu x
          → (row : ℕ) → at (x ∷ with_menus vs) row ≡ some v
          → HasMenu v × (i : ℕ) × (at (x ∷ vs) i ≡ some v)
      first rest menu zero e = let same : x ≡ v = ap (value_or x) e in (rw (← same) menu, 0, e)
      first rest menu (suc row) e = let (has, i, same) = rest row e in (has, suc i, same)

  with_menus-all :
      (vs : List ℕ) (i v : ℕ)
      → at vs i ≡ some v
      → HasMenu v
      → (row : ℕ) × (at (with_menus vs) row ≡ some v)
  with_menus-all [] i v e h = absurd (ground (arith, e))
  with_menus-all (x ∷ vs) zero v e h =
      let same : x ≡ v = ap (value_or x) e in let menu : HasMenu x = rw same h in rw menu (0, e)
  with_menus-all (x ∷ vs) (suc i) v e h =
      let (row, same) = with_menus-all vs i v e h in
      elim (Bool-cases (offers_menu (objects x).has_menu)) [
        | inl menu ↦ rw menu (suc row, same)
        | inr none_yet ↦ rw none_yet (row, same)
      ]

  -- Pressed while it is off, the filter is on, and its list has the venues with a menu, and no others.
  pub filter_table_pressed-HasMenu :
      (s : NearbyLocations) (vs : List ℕ)
      → s.filter ≡ false
      → s.venues ≡ some vs
      → ((filter_table_pressed objects s).filter ≡ true)
        × ((row v : ℕ)
            → at (filter_table_pressed objects s).venues_with_menus row ≡ some v
            → HasMenu v × (i : ℕ) × (at vs i ≡ some v))
        × ((i v : ℕ)
            → at vs i ≡ some v
            → HasMenu v
            → (row : ℕ) × (at (filter_table_pressed objects s).venues_with_menus row ≡ some v))
  unfolding filter_table_pressed
  filter_table_pressed-HasMenu s vs off some_venues =
      rw (off, some_venues, append_with_menus-append vs [])
        (refl, λ row v e. with_menus-HasMenu vs row v e, λ i v e h. with_menus-all vs i v e h)

  -- Pressed twice while it is off, the table shows what it showed.
  pub filter_table_pressed-twice :
      (joined : Text → Text → Text) (unknown : Text) (s : NearbyLocations) (row : ℕ)
      → s.filter ≡ false
      → (number_of_rows objects (filter_table_pressed objects (filter_table_pressed objects s))
          ≡ number_of_rows objects s)
        × (cell_for_row objects joined unknown
              (filter_table_pressed objects (filter_table_pressed objects s))
              row
            ≡ cell_for_row objects joined unknown s row)
  unfolding filter_table_pressed number_of_rows cell_for_row
  filter_table_pressed-twice joined unknown s row off = rw off (refl, refl)

  -- A venue whose details are there has a category.
  abbrev pub HasCategory : Option (VenueInfo Text) → Type 0
  HasCategory none = Unit
  HasCategory (some info) = 0 < length info.categories

  venue_cell-HasCategory :
      (joined : Text → Text → Text) (unknown : Text) (v : ℕ)
      → HasCategory (objects v).info
      → (cell : Option (VenueCell Text)) × (venue_cell objects joined unknown v ≡ some cell)
  unfolding venue_cell
  venue_cell-HasCategory joined unknown v h = go (objects v).info refl h
    where
      go :
          (o : Option (VenueInfo Text))
          → (objects v).info ≡ o
          → HasCategory o
          → (cell : Option (VenueCell Text)) × (venue_cell objects joined unknown v ≡ some cell)
      go none e h = (none, rw (venue_cell, e) refl)
      go (some info) e h =
          let (category, first) = at-below info.categories 0 h in
          (
            some (record {
              name = info.name;
              category = category;
              address = address_label joined unknown info;
              menu_hidden = not (offers_menu (objects v).has_menu);
            }),
            rw (venue_cell, e, first) refl,
          )

  listed_cell :
      (joined : Text → Text → Text) (unknown : Text) (vs : List ℕ) (row : ℕ)
      → ((v : ℕ) → HasCategory (objects v).info)
      → row < length vs
      → (cell : Option (VenueCell Text)) × (chain (at vs row) (venue_cell objects joined unknown)
          ≡ some cell)
  listed_cell joined unknown vs row all lt =
      let (v, e) = at-below vs row lt in
      let (cell, same) = venue_cell-HasCategory joined unknown v (all v) in (cell, rw e same)

  -- With the filter or without, no row that the table counts crashes, where every venue whose details are
  -- there has a category.
  pub cell_for_row-HasCategory :
      (joined : Text → Text → Text) (unknown : Text) (s : NearbyLocations) (row : ℕ)
      → ((v : ℕ) → HasCategory (objects v).info)
      → row < number_of_rows objects s
      → (cell : Option (VenueCell Text)) × (cell_for_row objects joined unknown s row ≡ some cell)
  unfolding number_of_rows cell_for_row
  cell_for_row-HasCategory joined unknown s row all lt = elim (Bool-cases s.filter) [
    | inl on ↦ rw on (listed_cell joined unknown s.venues_with_menus row all (rw on at lt))
    | inr off ↦ rw off (go s.venues (rw off at lt))
  ]
    where
      go :
          (o : Option (List ℕ))
          → row < elim o [ none ↦ 0 | some venues ↦ length venues ]
          → (cell : Option (VenueCell Text)) × (elim o [
            | none ↦ some none
            | some venues ↦ chain (at venues row) (venue_cell objects joined unknown)
          ]
              ≡ some cell)
      go none lt = (none, refl)
      go (some vs) lt = listed_cell joined unknown vs row all lt
