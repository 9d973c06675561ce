-- ===== src/App/Reviews/Alone.antt =====
-- Calls of submitReview of ReviewItemVC.swift, one after the other.
use yum_quest.Base.{
  ℕ, suc, ◌+◌, ◌≡◌, ap, sym, ◌∙◌, refl, none, some, List, [], ◌∷◌, ◌++◌, length, length-append,
  arith,
}
use mathlib.Core.List.{append_assoc, append-nil}
use yum_quest.App.Swift.{chain}
use yum_quest.App.Reviews.{
  Posted, Submission, Node, empty_node, has_child, perform, next_request, step, run, submit_review,
  submit_all,
}

abbrev pub sum_of : {Text : Type 0} → List (Posted Text) → ℕ
sum_of [] = 0
sum_of (p ∷ ps) = p.rating + sum_of ps

sum_of-append :
    {Text : Type 0} (ps qs : List (Posted Text)) → sum_of (ps ++ qs) ≡ sum_of ps + sum_of qs
sum_of-append [] qs = ground arith
sum_of-append (p ∷ ps) qs = ground (arith, sum_of-append ps qs)

-- The call that posts this review, by its user.
abbrev pub signed_in : {Text : Type 0} → Posted Text → Submission Text
signed_in p = record { user = some p.user; date = p.date; review = p.review; rating = p.rating }

abbrev pub all_signed_in : {Text : Type 0} → List (Posted Text) → List (Submission Text)
all_signed_in [] = []
all_signed_in (p ∷ ps) = signed_in p ∷ all_signed_in ps

module _ {Text Double : Type 0} (divide : ℕ → ℕ → Double) (whole : ℕ → Double) where
  -- What the database should hold for the reviews of an item: their number, the sum of their ratings,
  -- and the average.
  abbrev pub tally : List (Posted Text) → Node Text Double
  tally [] = empty_node
  tally (p ∷ ps) = record {
    count = some (length (p ∷ ps));
    total_ratings = some (sum_of (p ∷ ps));
    average_rating = some (divide (sum_of (p ∷ ps)) (length (p ∷ ps)));
    reviews = p ∷ ps;
  }

  -- The node for `n` reviews whose ratings add up to `t`.
  abbrev counted : ℕ → ℕ → List (Posted Text) → Node Text Double
  counted n t ps = record {
    count = some n;
    total_ratings = some t;
    average_rating = some (divide t n);
    reviews = ps;
  }

  submit_review-tally :
      ((r : ℕ) → divide r 1 ≡ whole r)
      → (p : Posted Text) (ps : List (Posted Text))
      → submit_review divide whole (signed_in p) (tally ps) ≡ some (tally (ps ++ (p ∷ [])))
  unfolding submit_review run step next_request perform has_child
  submit_review-tally h p [] =
      rw (← h p.rating) (ap (λ t. some (counted 1 t (p ∷ []))) (omega arith))
  submit_review-tally h p (q ∷ ps) =
      ap (λ n. some (counted n (q.rating + sum_of ps + p.rating) (q ∷ (ps ++ (p ∷ [])))))
        (ground (arith, length-append ps (p ∷ [])))
      ∙ ap (λ t. some (counted (suc (length (ps ++ (p ∷ [])))) t (q ∷ (ps ++ (p ∷ [])))))
          (ground (arith, sum_of-append ps (p ∷ [])))

  submit_all-tally :
      ((r : ℕ) → divide r 1 ≡ whole r)
      → (qs ps : List (Posted Text))
      → submit_all divide whole (all_signed_in qs) (tally ps) ≡ some (tally (ps ++ qs))
  unfolding submit_all
  submit_all-tally h [] ps = ap (λ rs. some (tally rs)) (sym (append-nil ps))
  submit_all-tally h (q ∷ qs) ps =
      ap (λ o. chain o (λ next. submit_all divide whole (all_signed_in qs) next))
        (submit_review-tally h q ps)
      ∙ submit_all-tally h qs (ps ++ (q ∷ []))
      ∙ ap (λ rs. some (tally rs)) (append_assoc ps (q ∷ []) qs)

  -- Calls of submitReview that do not overlap, each of a user who is signed in, do not crash on the
  -- requests to the database. They leave it with all the reviews in their order, and with their number,
  -- the sum of their ratings, and their average, where a Double divided by 1 is itself. Where nobody is
  -- signed in, a call crashes.
  pub submit_all-counts :
      ((r : ℕ) → divide r 1 ≡ whole r)
      → (ps : List (Posted Text)) (c : Submission Text) (node : Node Text Double)
      → (submit_all divide whole (all_signed_in ps) empty_node ≡ some (tally ps))
        × (submit_review divide whole (record c { user = none }) node ≡ none)
  unfolding submit_review
  submit_all-counts h ps c node = (submit_all-tally h ps [], refl)
