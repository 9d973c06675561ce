-- ===== src/App/Rating.antt =====
-- YumQuest/YumQuest/View/RatingControl.swift: the stars that rate an item.
pub mod Stars
use yum_quest.App.Swift.{ℤ, pos, negsuc}
use yum_quest.Base.{
  ℕ, zero, suc, ◌+◌, ◌-◌, ◌≤◌, ◌<◌, ◌≡◌, refl, ap, Bool, true, false, Option, none, some, List, [],
  ◌∷◌, arith, length, get_or, replicate, ltb, ◌==◌, if◌then◌else◌, All,
}

-- The control: `rating`, `starCount`, and `isSelected` of each of `ratingButtons`. The rating starts at
-- 0 and is an index plus one after that, so it is never negative.
pub record Control : Type 0 where
  pub rating : ℕ
  pub star_count : ℕ
  pub selected : List Bool

-- updateButtonSelectionStates from button `index` on: button.isSelected = index < rating
unfoldable pub states_from : ℕ → ℕ → List Bool → List Bool
states_from rating index [] = []
states_from rating index (b ∷ buttons) = ltb index rating ∷ states_from rating (index + 1) buttons

unfoldable pub update_button_selection_states : Control → Control
unfolding states_from
update_button_selection_states c = record c { selected = states_from c.rating 0 c.selected }

-- setupButtons: new buttons, none of them selected, and then the update.
unfoldable pub setup_buttons : Control → Control
unfolding update_button_selection_states
setup_buttons c =
    update_button_selection_states (record c { selected = replicate c.star_count false })

-- rating = r, with its didSet.
unfoldable pub set_rating : ℕ → Control → Control
unfolding update_button_selection_states
set_rating r c = update_button_selection_states (record c { rating = r })

-- starCount = n, with its didSet, which crashes on the range 0..<starCount of a negative number.
unfoldable pub set_star_count : ℤ → Control → Option Control
unfolding setup_buttons
set_star_count (pos n) c = some (setup_buttons (record c { star_count = n }))
set_star_count (negsuc n) c = none

-- init: the initial values of the properties, and setupButtons.
unfoldable pub new_control : Control
unfolding setup_buttons
new_control = setup_buttons (record { rating = 0; star_count = 5; selected = [] })

-- ratingButtonTapped for the button at `index`; a button that is not in the array is a fatalError.
unfoldable pub rating_button_tapped : ℕ → Control → Option Control
unfolding set_rating
rating_button_tapped index c =
    if ltb index (length c.selected)
    then some (if index + 1 == c.rating then set_rating 0 c else set_rating (index + 1) c)
    else none

-- What may happen to a control: a star is tapped, or the number of stars is set.
pub data Event : Type 0 where
  tap : ℕ → Event
  resize : ℤ → Event

unfoldable pub step : Event → Control → Option Control
unfolding rating_button_tapped set_star_count
step (tap index) c = rating_button_tapped index c
step (resize n) c = set_star_count n c

-- Events one after the other; `none` is a crash.
unfoldable pub run : List Event → Control → Option Control
unfolding step
run [] c = some c
run (e ∷ es) c = elim (step e c) [ none ↦ none | some c' ↦ run es c' ]
