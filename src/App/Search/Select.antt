-- ===== src/App/Search/Select.antt =====
-- What a selected row of View/NearbyLocationsVC.swift opens.
use yum_quest.Base.{
  ℕ, zero, suc, ◌+◌, ◌<◌, ◌≡◌, refl, ap, ◌∙◌, true, false, Option, none, some, List, [], ◌∷◌,
  length, All, arith, Bool-cases, inl, inr,
}
use yum_quest.App.Swift.{at, chain, at-below}
use yum_quest.App.Venues.{DetailFoodVenue, number_of_rows, cell_for_row, venue_cell}
use yum_quest.App.Search.{
  Search, Event, response, addresses, table, update_locations, complete_search, select_row,
  handle_all,
}
use yum_quest.App.Search.Quiet.{
  IsQuiet, Has, handle_all-Has, update_locations-Has, at-set_venues, at-append_behind,
}

at-addresses : (first n i : ℕ) → i < n → at (addresses first n) i ≡ some (first + i)
unfolding addresses
at-addresses first zero i lt = absurd (omega arith)
at-addresses first (suc n) zero lt = ap some (omega arith)
at-addresses first (suc n) (suc i) lt =
    let e : suc first + i ≡ first + suc i = omega arith in
    at-addresses (suc first) n i (omega arith) ∙ ap some e

length-addresses : (first n : ℕ) → length (addresses first n) ≡ n
unfolding addresses
length-addresses first zero = refl
length-addresses first (suc n) = ap suc (length-addresses (suc first) n)

at-lt : {A : Type 0} (xs : List A) (i : ℕ) (a : A) → at xs i ≡ some a → i < length xs
at-lt [] i a e = cc e
at-lt (x ∷ xs) zero a e = omega arith
at-lt (x ∷ xs) (suc i) a e = omega (arith, at-lt xs i a e)

-- A table with rows has a helper with venues.
filled :
    (nearby : Option ℕ) (helpers : List (Option (List ℕ))) (row : ℕ)
    → row < (elim (chain nearby (λ h. chain (at helpers h) (λ v. v))) [
      | none ↦ 0
      | some venues ↦ length venues
    ])
    → (h : ℕ) × (nearby ≡ some h)
      × (vs : List ℕ) × (at helpers h ≡ some (some vs))
      × (row < length vs)
filled none helpers row lt = absurd (omega arith)
filled (some h) helpers row lt = go (at helpers h) refl lt
  where
    go :
        (o : Option (Option (List ℕ)))
        → at helpers h ≡ o
        → row < (elim (chain o (λ v. v)) [ none ↦ 0 | some venues ↦ length venues ])
        → (h' : ℕ) × (some h ≡ some h')
          × (vs : List ℕ) × (at helpers h' ≡ some (some vs))
          × (row < length vs)
    go none e lt = absurd (omega arith)
    go (some none) e lt = absurd (omega arith)
    go (some (some vs)) e lt = (h, refl, vs, e, lt)

module _ {Text : Type 0} where
  -- After a location update, as long as the answer to its request is not there, with whatever presses
  -- of the filter and answers to earlier requests: where the filter is then off, selecting any row
  -- crashes.
  pub select_row-located :
      (es : List ((ℕ → DetailFoodVenue Text) × Event Text)) (s : Search Text) (row : ℕ)
      → All (IsQuiet (length s.helpers)) es
      → (handle_all es (update_locations true s)).filter ≡ false
      → select_row (handle_all es (update_locations true s)) row ≡ none
  unfolding select_row
  select_row-located es s row quiet off =
      let (has, keeps) =
        handle_all-Has (length s.helpers) none es (update_locations true s) quiet
          (update_locations-Has s) in
      rw (off, has.current, has.holds) refl

  -- Once the answer to the request of the view's helper is there, whatever presses of the filter and
  -- answers to other requests come after it: where the filter is then off, the table has a row for
  -- each venue of the answer, and selecting it opens an object that was made with the venue's id.
  pub select_row-answered :
      (h : ℕ) (old : Option (List ℕ)) (found : List Text)
      (es : List ((ℕ → DetailFoodVenue Text) × Event Text)) (s : Search Text) (row : ℕ) (id : Text)
      (objects : ℕ → DetailFoodVenue Text)
      → Has h old s
      → All (IsQuiet h) es
      → (handle_all es (complete_search h (response 200 found) s)).filter ≡ false
      → at found row ≡ some id
      → (number_of_rows objects (table (handle_all es (complete_search h (response 200 found) s)))
          ≡ length found)
        × (v : ℕ) × (select_row (handle_all es (complete_search h (response 200 found) s)) row
            ≡ some (some v))
        × (at (handle_all es (complete_search h (response 200 found) s)).ids v ≡ some id)
  unfolding select_row table number_of_rows
  select_row-answered h old found es s row id objects has quiet off listed =
      let s' = complete_search h (response 200 found) s in
      let venues = addresses (length s.ids) (length found) in
      let (later, keeps) = handle_all-Has h (some venues) es s' quiet (just_answered) in
      (
        rw (off, later.current, later.holds) (length-addresses (length s.ids) (length found)),
        length s.ids + row,
        rw
            (
              off,
              later.current,
              later.holds,
              at-addresses (length s.ids) (length found) row (at-lt found row id listed),
            )
            refl,
        keeps (length s.ids + row) id (made ∙ listed),
      )
    where
      just_answered :
          Has h
            (some (addresses (length s.ids) (length found)))
            (complete_search h (response 200 found) s)
      just_answered =
          unfold complete_search in
          record {
            current = has.current;
            holds =
                at-set_venues s.helpers h old (addresses (length s.ids) (length found)) has.holds;
          }

      made : at (complete_search h (response 200 found) s).ids (length s.ids + row) ≡ at found row
      made = unfold complete_search in at-append_behind s.ids found row

  -- With the filter or without, a row that the table counts opens the venue that its cell shows.
  pub select_row-counted :
      (objects : ℕ → DetailFoodVenue Text) (joined : Text → Text → Text) (unknown : Text)
      (s : Search Text) (row : ℕ)
      → row < number_of_rows objects (table s)
      → (v : ℕ) × (select_row s row ≡ some (some v))
        × (cell_for_row objects joined unknown (table s) row ≡ venue_cell objects joined unknown v)
  unfolding select_row table number_of_rows cell_for_row
  select_row-counted objects joined unknown s row lt = elim (Bool-cases s.filter) [
    | inl on ↦
        let (v, e) = at-below s.venues_with_menus row (rw on at lt) in
        (v, rw (on, e) refl, rw (on, e) refl)
    | inr off ↦
        let (h, found, vs, has, full) = filled s.nearby_venues s.helpers row (rw off at lt) in
        let (v, e) = at-below vs row full in
        (v, rw (off, found, has, e) refl, rw (off, found, has, e) refl)
  ]
