-- ===== src/App/Menu/Cells/Labels.antt =====
-- The labels of a cell of View/MenuDetailsVC.swift that need no answer of the database.
use yum_quest.Base.{
  ℕ, ◌≡◌, refl, sym, ap, ◌∙◌, none, some, Option, List, [], ◌∷◌, arith, ◌==◌, if◌then◌else◌,
  Bool-cases, inl, inr,
}
use yum_quest.App.Swift.{at, chain}
use yum_quest.App.Menu.{MenuItem}
use yum_quest.App.Menu.Cells.{
  MenuCell, Lookup, check_item, read_average, Table, Event, asked, answered, set_cell, remove_at,
  fill_cell, answer_lookup, handle, handle_all,
}

-- The name, the price and the description in a cell, and those of an item.
pub record Labels (Text : Type 0) : Type 0 where
  pub name : Option Text
  pub price : Option Text
  pub description : Option Text

abbrev pub labels_in : {Text : Type 0} → MenuCell Text → Labels Text
labels_in c = record { name = c.name; price = c.price; description = c.description }

abbrev pub labels_of : {Text : Type 0} → MenuItem Text → Labels Text
labels_of m = record { name = m.name; price = m.price; description = m.description }

module _ {Text Double : Type 0} where
  -- The labels of the item that a cell was asked for last, and the old ones where there is none.
  abbrev pub last_labels : List (Event Text Double) → ℕ → Labels Text → Labels Text
  last_labels [] c old = old
  last_labels (asked cell item ∷ es) c old =
      last_labels es c (if c == cell then labels_of item else old)
  last_labels (answered i value ∷ es) c old = last_labels es c old

one_more :
    {Text Double : Type 0} (e : Event Text Double) (es : List (Event Text Double)) (c : ℕ)
    (old : Labels Text)
    → last_labels es c (last_labels (e ∷ []) c old) ≡ last_labels (e ∷ es) c old
one_more (asked cell item) es c old = refl
one_more (answered i value) es c old = refl

same_some : {A : Type 0} (a b : A) → some a ≡ some b → a ≡ b
same_some a b e = ap (λ o. elim o [ none ↦ a | some x ↦ x ]) e

module _ {Text Double : Type 0} (format : Double → Text) where
  fill_cell-labels :
      (cell : ℕ) (item : MenuItem Text) (t : Table Text) (c : ℕ)
      → labels_in ((fill_cell format cell item t).cells c)
        ≡ (if c == cell then labels_of item else labels_in (t.cells c))
  unfolding fill_cell
  fill_cell-labels cell item t c = elim (Bool-cases (c == cell)) [
    | inl same ↦ rw same refl
    | inr other ↦ rw other refl
  ]

  set_rating-labels :
      (cell : ℕ) (text : Text) (cells : ℕ → MenuCell Text) (c : ℕ)
      → labels_in (set_cell cell (record (cells cell) { rating = text }) cells c)
        ≡ labels_in (cells c)
  set_rating-labels cell text cells c = elim (Bool-cases (c == cell)) [
    | inl same ↦ let e : c ≡ cell = ground arith in rw same (ap (λ a. labels_in (cells a)) (sym e))
    | inr other ↦ rw other refl
  ]

  answer_lookup-labels :
      (l : Lookup Text) (value : Option (Option Double)) (t t' : Table Text) (c : ℕ)
      → answer_lookup format l value t ≡ some t'
      → labels_in (t'.cells c) ≡ labels_in (t.cells c)
  unfolding answer_lookup
  answer_lookup-labels (check_item cell id) none t t' c e = cc e
  answer_lookup-labels (check_item cell id) (some average) t t' c e =
      ap (λ x. labels_in (x.cells c)) (sym (same_some _ t' e))
  answer_lookup-labels (read_average cell id) none t t' c e = cc e
  answer_lookup-labels (read_average cell id) (some none) t t' c e = cc e
  answer_lookup-labels (read_average cell id) (some (some rating)) t t' c e =
      ap (λ x. labels_in (x.cells c)) (sym (same_some _ t' e))
      ∙ set_rating-labels cell (format rating) t.cells c

  handle-labels :
      (e : Event Text Double) (t t' : Table Text) (c : ℕ)
      → handle format e t ≡ some t'
      → labels_in (t'.cells c) ≡ last_labels (e ∷ []) c (labels_in (t.cells c))
  unfolding handle
  handle-labels (asked cell item) t t' c done =
      ap (λ x. labels_in (x.cells c)) (sym (same_some _ t' done)) ∙ fill_cell-labels cell item t c
  handle-labels (answered i value) t t' c done = go (at t.lookups i) done
    where
      go :
          (o : Option (Lookup Text))
          → elim o [
            | none ↦ some t
            | some l ↦ answer_lookup format l value (record t { lookups = remove_at i t.lookups })
          ]
            ≡ some t'
          → labels_in (t'.cells c) ≡ labels_in (t.cells c)
      go none e = ap (λ x. labels_in (x.cells c)) (sym (same_some t t' e))
      go (some l) e =
          answer_lookup-labels l value (record t { lookups = remove_at i t.lookups }) t' c e

  -- In whatever order the rows are asked for and the database answers, unless the view crashes, each
  -- cell has the name, the price and the description of the item that it was asked for last.
  pub handle_all-labels :
      (es : List (Event Text Double)) (t t' : Table Text) (c : ℕ)
      → handle_all format es t ≡ some t'
      → labels_in (t'.cells c) ≡ last_labels es c (labels_in (t.cells c))
  unfolding handle_all
  handle_all-labels [] t t' c done = ap (λ x. labels_in (x.cells c)) (sym (same_some t t' done))
  handle_all-labels (e ∷ es) t t' c done =
      go (λ next. handle_all-labels es next t' c) (handle format e t) refl done
    where
      go :
          ((next : Table Text)
            → handle_all format es next ≡ some t'
            → labels_in (t'.cells c) ≡ last_labels es c (labels_in (next.cells c)))
          → (o : Option (Table Text)) → handle format e t ≡ o
          → chain o (handle_all format es) ≡ some t'
          → labels_in (t'.cells c) ≡ last_labels (e ∷ es) c (labels_in (t.cells c))
      go later none eq rest = cc rest
      go later (some next) eq rest =
          later next rest
          ∙ ap (last_labels es c) (handle-labels e t next c eq)
          ∙ one_more e es c (labels_in (t.cells c))
