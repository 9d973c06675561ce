-- ===== src/App/Search/Quiet.antt =====
-- The helper of the latest location update in View/NearbyLocationsVC.swift, while nothing happens to it.
use yum_quest.Base.{
  ℕ, zero, suc, ◌+◌, ◌≡◌, ◌≢◌, refl, ap, ◌∙◌, true, false, Option, none, some, List, [], ◌∷◌, ◌++◌,
  length, All, arith, ◌==◌, Bool-cases, inl, inr,
}
use yum_quest.App.Swift.{at}
use yum_quest.App.Venues.{DetailFoodVenue}
use yum_quest.App.Search.{
  Answer, Search, Event, no_data, undecodable, response, located, answered, pressed, addresses,
  set_venues, update_locations, complete_search, handle, handle_all,
}

at-append :
    {A : Type 0} (xs ys : List A) (i : ℕ) (a : A) → at xs i ≡ some a → at (xs ++ ys) i ≡ some a
at-append [] ys i a e = cc e
at-append (x ∷ xs) ys zero a e = e
at-append (x ∷ xs) ys (suc i) a e = at-append xs ys i a e

pub at-append_behind :
    {A : Type 0} (xs ys : List A) (i : ℕ) → at (xs ++ ys) (length xs + i) ≡ at ys i
at-append_behind [] ys i = ap (at ys) (omega arith)
at-append_behind (x ∷ xs) ys i =
    let e : suc (length xs) + i ≡ suc (length xs + i) = omega arith in
    rw e (at-append_behind xs ys i)

at-set_venues_other :
    (helpers : List (Option (List ℕ))) (k h : ℕ) (venues : List ℕ)
    → k ≢ h
    → at (set_venues helpers k venues) h ≡ at helpers h
unfolding set_venues
at-set_venues_other [] k h venues ne = refl
at-set_venues_other (v ∷ rest) zero zero venues ne = absurd (ne refl)
at-set_venues_other (v ∷ rest) zero (suc h) venues ne = refl
at-set_venues_other (v ∷ rest) (suc k) zero venues ne = refl
at-set_venues_other (v ∷ rest) (suc k) (suc h) venues ne =
    at-set_venues_other rest k h venues (λ e. ne (ap suc e))

pub at-set_venues :
    (helpers : List (Option (List ℕ))) (h : ℕ) (old : Option (List ℕ)) (venues : List ℕ)
    → at helpers h ≡ some old
    → at (set_venues helpers h venues) h ≡ some (some venues)
unfolding set_venues
at-set_venues [] h old venues e = cc e
at-set_venues (v ∷ rest) zero old venues e = refl
at-set_venues (v ∷ rest) (suc h) old venues e = at-set_venues rest h old venues e

module _ {Text : Type 0} where
  -- No location update with a location, and no answer for this helper.
  abbrev pub IsQuiet : ℕ → (ℕ → DetailFoodVenue Text) × Event Text → Type 0
  IsQuiet h (objects, located has_first) = has_first ≡ false
  IsQuiet h (objects, answered k answer) = k ≢ h
  IsQuiet h (objects, pressed) = Unit {0}

  -- The view has helper `h`, whose `venues` are these.
  pub record Has (h : ℕ) (venues : Option (List ℕ)) (s : Search Text) : Type 0 where
    pub current : s.nearby_venues ≡ some h
    pub holds : at s.helpers h ≡ some venues

  -- Objects keep the ids that they were made with.
  abbrev pub Keeps : List Text → List Text → Type 0
  Keeps old new = (i : ℕ) (id : Text) → at old i ≡ some id → at new i ≡ some id

  complete_search-Has :
      (h k : ℕ) (venues : Option (List ℕ)) (answer : Answer Text) (s : Search Text)
      → k ≢ h
      → Has h venues s
      → Has h venues (complete_search k answer s) × Keeps s.ids (complete_search k answer s).ids
  unfolding complete_search
  complete_search-Has h k venues no_data s ne has = (has, λ i id e. e)
  complete_search-Has h k venues undecodable s ne has = (has, λ i id e. e)
  complete_search-Has h k venues (response code found) s ne has = elim (Bool-cases (code == 200)) [
    | inl good ↦ rw good (
      record {
        current = has.current;
        holds =
            at-set_venues_other s.helpers k h (addresses (length s.ids) (length found)) ne
            ∙ has.holds;
      },
      λ i id e. at-append s.ids found i id e,
    )
    | inr bad ↦ rw bad (has, λ i id e. e)
  ]

  handle-Has :
      (h : ℕ) (venues : Option (List ℕ)) (e : (ℕ → DetailFoodVenue Text) × Event Text)
      (s : Search Text)
      → IsQuiet h e
      → Has h venues s
      → Has h venues (handle e.0 e.1 s) × Keeps s.ids (handle e.0 e.1 s).ids
  unfolding handle update_locations
  handle-Has h venues (objects, located true) s quiet has = absurd (cc quiet)
  handle-Has h venues (objects, located false) s quiet has = (has, λ i id e. e)
  handle-Has h venues (objects, answered k answer) s quiet has =
      complete_search-Has h k venues answer s quiet has
  handle-Has h venues (objects, pressed) s quiet has =
      (record { current = has.current; holds = has.holds }, λ i id e. e)

  pub handle_all-Has :
      (h : ℕ) (venues : Option (List ℕ)) (es : List ((ℕ → DetailFoodVenue Text) × Event Text))
      (s : Search Text)
      → All (IsQuiet h) es
      → Has h venues s
      → Has h venues (handle_all es s) × Keeps s.ids (handle_all es s).ids
  unfolding handle_all
  handle_all-Has h venues [] s quiet has = (has, λ i id e. e)
  handle_all-Has h venues ((objects, e) ∷ es) s quiet has =
      let (has', keeps) = handle-Has h venues (objects, e) s quiet.0 has in
      let (has'', keeps') = handle_all-Has h venues es (handle objects e s) quiet.1 has' in
      (has'', λ i id eq. keeps' i id (keeps i id eq))

  -- A location update makes a helper without venues.
  pub update_locations-Has :
      (s : Search Text) → Has (length s.helpers) none (update_locations true s)
  unfolding update_locations
  update_locations-Has s = record {
    current = refl;
    holds =
        let e : length s.helpers + 0 ≡ length s.helpers = omega arith in
        rw e at (at-append_behind s.helpers (none ∷ []) 0);
  }
