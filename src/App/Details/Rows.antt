-- ===== src/App/Details/Rows.antt =====
-- What the rows of ItemDetailsVC.swift show after one reload and after two.
use yum_quest.Base.{
  ℕ, zero, suc, ◌≡◌, refl, ap, ◌∙◌, Option, none, some, List, [], ◌∷◌, ◌++◌, length, arith,
}
use mathlib.Core.List.{append_assoc, append-nil, map}
use yum_quest.App.Swift.{at, chain, ◌>>=◌}
use yum_quest.App.Details.{
  Review, Arrays, Cell, new_arrays, start_reload, finish_reload, reload, cell_for_row,
  number_of_rows,
}

module _ {Text : Type 0} (show : ℕ → Text) where
  finish_reload-arrays :
      (rs : List (Review Text)) (a : Arrays Text)
      → finish_reload show rs a ≡ record {
        reviews = a.reviews ++ map (λ r. r.review) rs;
        dates = a.dates ++ map (λ r. r.date) rs;
        ratings = a.ratings ++ map (λ r. show r.rating) rs;
      }
  unfolding finish_reload
  finish_reload-arrays [] a =
      ground (arith, append-nil a.reviews, append-nil a.dates, append-nil a.ratings)
  finish_reload-arrays (r ∷ rs) a =
      finish_reload-arrays rs (record {
        reviews = a.reviews ++ (r.review ∷ []);
        dates = a.dates ++ (r.date ∷ []);
        ratings = a.ratings ++ (show r.rating ∷ []);
      })
      ∙ rw
          (
            append_assoc a.reviews (r.review ∷ []) (map (λ (q : Review Text). q.review) rs),
            append_assoc a.dates (r.date ∷ []) (map (λ (q : Review Text). q.date) rs),
            append_assoc a.ratings (show r.rating ∷ [])
                (map (λ (q : Review Text). show q.rating) rs),
          )
          refl

  at-map :
      {B : Type 0} (f : Review Text → B) (rs : List (Review Text)) (i : ℕ)
      → at (map f rs) i ≡ chain (at rs i) (λ r. some (f r))
  at-map f [] i = refl
  at-map f (r ∷ rs) zero = refl
  at-map f (r ∷ rs) (suc i) = at-map f rs i

  length-map :
      {B : Type 0} (f : Review Text → B) (rs : List (Review Text)) → length (map f rs) ≡ length rs
  length-map f [] = refl
  length-map f (r ∷ rs) = ap suc (length-map f rs)

  -- What row `i` shows of two lists: the date and the review of the one, the rating of the other.
  abbrev pub row_of : List (Review Text) → List (Review Text) → ℕ → Option (Cell Text)
  row_of shown rated i = do
    r ← at shown i
    q ← at rated i
    some (record { date = r.date; review = r.review; rating = show q.rating })

  -- The arrays after a reload: new reviews and dates, and ratings behind those there were.
  abbrev arrays_of : List (Review Text) → List (Review Text) → Arrays Text
  arrays_of shown rated = record {
    reviews = map (λ r. r.review) shown;
    dates = map (λ r. r.date) shown;
    ratings = map (λ r. show r.rating) rated;
  }

  map-append :
      {B : Type 0} (f : Review Text → B) (xs ys : List (Review Text))
      → map f (xs ++ ys) ≡ map f xs ++ map f ys
  map-append f [] ys = refl
  map-append f (x ∷ xs) ys = ap (λ t. f x ∷ t) (map-append f xs ys)

  reload-arrays_of :
      (shown rated ys : List (Review Text))
      → reload show ys (arrays_of shown rated) ≡ arrays_of ys (rated ++ ys)
  unfolding reload start_reload
  reload-arrays_of shown rated ys =
      finish_reload-arrays ys (record {
        reviews = [];
        dates = [];
        ratings = map (λ (r : Review Text). show r.rating) rated;
      })
      ∙ rw (map-append (λ (r : Review Text). show r.rating) rated ys) refl

  abbrev cell : Text → Text → Text → Cell Text
  cell d v q = record { date = d; review = v; rating = q }

  cell_for_row-arrays_of :
      (shown rated : List (Review Text)) (i : ℕ)
      → cell_for_row (arrays_of shown rated) i ≡ row_of shown rated i
  unfolding cell_for_row
  cell_for_row-arrays_of shown rated i =
      rw
        (
          at-map (λ (r : Review Text). r.date) shown i,
          at-map (λ (r : Review Text). r.review) shown i,
          at-map (λ (r : Review Text). show r.rating) rated i,
        )
        (go (at shown i) (at rated i))
    where
      go :
          (o p : Option (Review Text))
          → chain (chain o (λ r. some r.date)) (λ d.
            chain
              (chain o (λ r. some r.review))
              (λ v. chain (chain p (λ r. some (show r.rating))) (λ q. some (cell d v q))))
            ≡ chain o (λ r. chain p (λ q. some (cell r.date r.review (show q.rating))))
      go none p = refl
      go (some r) none = refl
      go (some r) (some q) = refl

  -- After the first load of the reviews each row shows the date, the text and the rating of its review,
  -- and the table has a row for each review.
  pub reload-first :
      (rs : List (Review Text)) (i : ℕ)
      → (number_of_rows (reload show rs new_arrays) ≡ length rs)
        × (cell_for_row (reload show rs new_arrays) i ≡ row_of rs rs i)
  reload-first rs i = (
    ap number_of_rows (reload-arrays_of [] [] rs) ∙ length-map (λ (r : Review Text). r.review) rs,
    ap (λ a. cell_for_row a i) (reload-arrays_of [] [] rs) ∙ cell_for_row-arrays_of rs rs i,
  )

  -- After a second load, of `ys` after `xs`, row `i` shows the date and the text of review `i` of `ys`,
  -- but the rating of review `i` of `xs` and `ys` one after the other: the ratings of the first load are
  -- still there.
  pub reload-second :
      (xs ys : List (Review Text)) (i : ℕ)
      → cell_for_row (reload show ys (reload show xs new_arrays)) i ≡ row_of ys (xs ++ ys) i
  reload-second xs ys i =
      ap (λ a. cell_for_row (reload show ys a) i) (reload-arrays_of [] [] xs)
      ∙ ap (λ a. cell_for_row a i) (reload-arrays_of xs xs ys)
      ∙ cell_for_row-arrays_of ys (xs ++ ys) i
