-- ===== src/App/Rating/Stars.antt =====
-- What RatingControl.swift keeps true of its stars, and what taps do to its rating.
use yum_quest.Base.{
  ℕ, zero, suc, ◌+◌, ◌-◌, ◌≤◌, ◌<◌, ◌≡◌, refl, ap, sym, ◌∙◌, Bool-cases, inl, inr, Bool, false,
  Option, none, some, List, [], ◌∷◌, arith, length, get_or, replicate, ltb, ◌==◌, if◌then◌else◌,
  All,
}
use native.Mathlib.Decide.{ℕ_discrete}
use yum_quest.App.Swift.{same_bound, ℤ, pos, negsuc}
use yum_quest.App.Rating.{
  Control, states_from, update_button_selection_states, setup_buttons, set_rating, set_star_count,
  new_control, rating_button_tapped, Event, tap, resize, step, run,
}

-- The control shows its rating: it has a button for each star, and the buttons below the rating, and
-- no others, are selected.
pub record Shows (c : Control) : Type 0 where
  pub counted : length c.selected ≡ c.star_count
  pub lit : (i : ℕ) → i < c.star_count → get_or c.selected i false ≡ ltb i c.rating

length-states_from : (r k : ℕ) (bs : List Bool) → length (states_from r k bs) ≡ length bs
unfolding states_from
length-states_from r k [] = refl
length-states_from r k (b ∷ bs) = ap suc (length-states_from r (k + 1) bs)

get_or-states_from :
    (r k i : ℕ) (bs : List Bool)
    → i < length bs
    → get_or (states_from r k bs) i false ≡ ltb (k + i) r
unfolding states_from
get_or-states_from r k i [] h = absurd (omega arith)
get_or-states_from r k zero (b ∷ bs) h = ground arith
get_or-states_from r k (suc i) (b ∷ bs) h =
    ground (arith, get_or-states_from r (k + 1) i bs (omega arith))

length-replicate : (n : ℕ) → length (replicate n false) ≡ n
length-replicate zero = refl
length-replicate (suc n) = ap suc (length-replicate n)

update-Shows :
    (c : Control) → length c.selected ≡ c.star_count → Shows (update_button_selection_states c)
unfolding update_button_selection_states
update-Shows c h = record {
  counted = omega (arith, length-states_from c.rating 0 c.selected);
  lit = λ i lt. ground (arith, get_or-states_from c.rating 0 i c.selected (omega arith));
}

set_rating-Shows : (r : ℕ) (c : Control) → Shows c → Shows (set_rating r c)
unfolding set_rating
set_rating-Shows r c h = update-Shows (record c { rating = r }) h.counted

-- Either a crash, or a result with the property.
abbrev IfSome : (Control → Type 0) → Option Control → Type 0
IfSome P none = Unit
IfSome P (some c) = P c

set_star_count-Shows : (n : ℤ) (c : Control) → IfSome Shows (set_star_count n c)
unfolding set_star_count setup_buttons
set_star_count-Shows (pos n) c =
    update-Shows (record c { star_count = n; selected = replicate n false }) (length-replicate n)
set_star_count-Shows (negsuc n) c = tt

tapped-Shows : (i : ℕ) (c : Control) → Shows c → IfSome Shows (rating_button_tapped i c)
unfolding rating_button_tapped
tapped-Shows i c h = elim (Bool-cases (ltb i (length c.selected))) [
  | inl here ↦ rw here (elim (Bool-cases (i + 1 == c.rating)) [
    | inl again ↦ rw again (set_rating-Shows 0 c h)
    | inr other ↦ rw other (set_rating-Shows (i + 1) c h)
  ])
  | inr out ↦ rw out tt
]

step-Shows : (e : Event) (c : Control) → Shows c → IfSome Shows (step e c)
unfolding step
step-Shows (tap i) c h = tapped-Shows i c h
step-Shows (resize n) c h = set_star_count-Shows n c

run-IfSome : (es : List Event) (c : Control) → Shows c → IfSome Shows (run es c)
unfolding run
run-IfSome [] c h = h
run-IfSome (e ∷ es) c h = go (λ c' g. run-IfSome es c' g) (step e c) (step-Shows e c h)
  where
    go :
        ((c' : Control) → Shows c' → IfSome Shows (run es c'))
        → (o : Option Control) → IfSome Shows o
        → IfSome Shows (elim o [ none ↦ none | some c' ↦ run es c' ])
    go rest none g = tt
    go rest (some c') g = rest c' g

pub new_control-Shows : Shows new_control
unfolding new_control setup_buttons
new_control-Shows =
    update-Shows (record { rating = 0; star_count = 5; selected = replicate 5 false }) refl

-- After any sequence of taps and changes of the number of stars that does not crash, a new control
-- shows its rating: it has a button for each star, and a star is selected exactly if its index is below
-- the rating.
pub run-Shows : (es : List Event) (c : Control) → run es new_control ≡ some c → Shows c
run-Shows es c e = rw e at (run-IfSome es new_control new_control-Shows)

-- A tap on a star that is there, on a control that shows its rating.
tapped-in_range :
    (i : ℕ) (c : Control)
    → Shows c
    → c.rating ≤ c.star_count
    → i < c.star_count
    → (c' : Control) × (rating_button_tapped i c ≡ some c')
      × Shows c'
      × (c'.star_count ≡ c.star_count)
      × (c'.rating ≡ (if i + 1 == c.rating then 0 else i + 1))
unfolding rating_button_tapped set_rating update_button_selection_states
tapped-in_range i c h le lt = elim (Bool-cases (i + 1 == c.rating)) [
  | inl again ↦
      (set_rating 0 c, ground (arith, h.counted), set_rating-Shows 0 c h, refl, ground arith)
  | inr other ↦ (
    set_rating (i + 1) c,
    ground (arith, h.counted),
    set_rating-Shows (i + 1) c h,
    refl,
    ground arith,
  )
]

abbrev pub taps : List ℕ → List Event
taps [] = []
taps (i ∷ is) = tap i ∷ taps is

run-tap :
    (i : ℕ) (es : List Event) (c c' : Control)
    → rating_button_tapped i c ≡ some c'
    → run (tap i ∷ es) c ≡ run es c'
unfolding run step
run-tap i es c c' e = ap (λ (o : Option Control). elim o [ none ↦ none | some d ↦ run es d ]) e

-- On a control that shows its rating, which is at most its number of stars, taps on stars that it has
-- never crash, and its rating never exceeds its number of stars.
pub run-taps :
    (is : List ℕ) (c : Control)
    → Shows c
    → c.rating ≤ c.star_count
    → All (λ i. i < c.star_count) is
    → (c' : Control) × (run (taps is) c ≡ some c')
      × (c'.star_count ≡ c.star_count)
      × (c'.rating ≤ c.star_count)
unfolding run step
run-taps [] c h le all = (c, refl, refl, le)
run-taps (i ∷ is) c h le all =
    let (d, e, g, n, r) = tapped-in_range i c h le all.0 in
    let (c', e', n', r') =
      run-taps is d g (ground arith) (same_bound c.star_count d.star_count is (sym n) all.1) in
    (c', run-tap i (taps is) c d e ∙ e', n' ∙ n, omega arith)

-- On a control that shows its rating, which is at most its number of stars, every rating from 0 to the
-- number of stars can be chosen with one tap at most.
pub run-chooses :
    (r : ℕ) (c : Control)
    → Shows c
    → c.rating ≤ c.star_count
    → r ≤ c.star_count
    → (is : List ℕ) × (length is ≤ 1)
      × (c' : Control) × (run (taps is) c ≡ some c')
      × (c'.rating ≡ r)
unfolding run step
run-chooses r c h le fits = elim (ℕ_discrete r c.rating) [
  | yes e ↦ ([], omega arith, c, refl, sym e)
  | no ne ↦ elim (ℕ_discrete r 0) [
    | yes e ↦
        let (c', t, _, _, q) = tapped-in_range (c.rating - 1) c h le (omega arith) in
        ((c.rating - 1) ∷ [], omega arith, c', run-tap _ [] c c' t, ground arith)
    | no nonzero ↦
        let (c', t, _, _, q) = tapped-in_range (r - 1) c h le (omega arith) in
        ((r - 1) ∷ [], omega arith, c', run-tap _ [] c c' t, ground arith)
  ]
]
