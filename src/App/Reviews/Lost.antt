-- ===== src/App/Reviews/Lost.antt =====
-- Two calls of submitReview of ReviewItemVC.swift, the second within the first.
use yum_quest.Base.{ℕ, ◌+◌, ◌≡◌, refl, some, List, [], ◌∷◌, ◌++◌, length, ap, true}
use mathlib.Core.List.{append_assoc}
use yum_quest.App.Reviews.{Posted, World, has_child, perform, next_request, step, run}
use yum_quest.App.Reviews.Alone.{tally, sum_of}
use yum_quest.App.Reviews.Together.{unsent, calls}

module _ {Text Double : Type 0} (divide : ℕ → ℕ → Double) (whole : ℕ → Double) where
  -- Two devices that submit a review of the same item can lose one of the two in its count: where
  -- the second call runs between the first one's snapshot of the count and its write, the database
  -- ends with both reviews behind those it had and the sum of all ratings, but with a count that is
  -- one too low, and with the sum divided by it as the average.
  pub run-lost_count :
      (p q r : Posted Text) (ps : List (Posted Text))
      → (w : World Text Double) × (run divide whole
            (0 ∷ 0 ∷ 0 ∷ 1 ∷ 1 ∷ 1 ∷ 1 ∷ 1 ∷ 1 ∷ 1 ∷ 0 ∷ 0 ∷ 0 ∷ 0 ∷ [])
            (record { node = tally divide whole (r ∷ ps); sessions = calls (p ∷ q ∷ []) })
          ≡ some w)
        × (w.node.count ≡ some (length (r ∷ ps) + 1))
        × (w.node.reviews ≡ (r ∷ ps) ++ (p ∷ q ∷ []))
        × (w.node.total_ratings ≡ some (sum_of (r ∷ ps) + q.rating + p.rating))
        × (w.node.average_rating
            ≡ some (divide (sum_of (r ∷ ps) + q.rating + p.rating) (length (r ∷ ps) + 1)))
        × (unsent (λ _. true) w.sessions ≡ 0)
  unfolding run step next_request perform has_child
  run-lost_count p q r ps =
      (_, refl, refl, ap (λ rs. r ∷ rs) (append_assoc ps (p ∷ []) (q ∷ [])), refl, refl, refl)
