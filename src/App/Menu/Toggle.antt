-- ===== src/App/Menu/Toggle.antt =====
-- Opening and closing the sections of the table of MenuDetailsVC.swift.
use yum_quest.Base.{
  ℕ, zero, suc, ◌<◌, ◌≡◌, refl, ap, sym, ◌∙◌, Bool, not, Option, none, some, List, [], ◌∷◌, length,
  All, arith, ◌==◌, if◌then◌else◌, Bool-cases, inl, inr,
}
use yum_quest.App.Swift.{same_bound, at-below, at, ◌>>=◌}
use yum_quest.App.Menu.{
  MenuItem, MenuTableSection, number_of_rows, number_of_sections, shown_item, toggle_section,
}

-- What the taps make of `collapsed` of section `j`: every tap on it turns it over.
abbrev pub turned : ℕ → List ℕ → Bool → Bool
turned j [] b = b
turned j (i ∷ is) b = turned j is (if i == j then not b else b)

module _ {Text : Type 0} where
  -- Taps on the headers of sections, one after the other; `none` is a crash.
  unfoldable pub toggle_all :
      List ℕ → List (MenuTableSection Text) → Option (List (MenuTableSection Text))
  toggle_all [] ss = some ss
  toggle_all (i ∷ is) ss = do ts ← toggle_section ss i; toggle_all is ts

  abbrev pub with_collapsed :
      (Bool → Bool) → Option (MenuTableSection Text) → Option (MenuTableSection Text)
  with_collapsed f none = none
  with_collapsed f (some s) = some (record s { collapsed = f s.collapsed })

  with_collapsed-same :
      (f g : Bool → Bool) (o : Option (MenuTableSection Text))
      → ((b : Bool) → f b ≡ g b)
      → with_collapsed f o ≡ with_collapsed g o
  with_collapsed-same f g none h = refl
  with_collapsed-same f g (some s) h = ap (λ b. some (record s { collapsed = b })) (h s.collapsed)

  with_collapsed-id : (o : Option (MenuTableSection Text)) → o ≡ with_collapsed (λ b. b) o
  with_collapsed-id none = refl
  with_collapsed-id (some s) = refl

  toggle_section-in_range :
      (ss : List (MenuTableSection Text)) (i : ℕ)
      → i < length ss
      → (ts : List (MenuTableSection Text)) × (toggle_section ss i ≡ some ts)
        × (length ts ≡ length ss)
        × ((j : ℕ) → at ts j ≡ with_collapsed (λ b. if i == j then not b else b) (at ss j))
  unfolding toggle_section
  toggle_section-in_range [] i h = absurd (omega arith)
  toggle_section-in_range (s ∷ ss) zero h = (_, refl, refl, others)
    where
      others :
          (j : ℕ)
          → at (record s { collapsed = not s.collapsed } ∷ ss) j
            ≡ with_collapsed (λ b. if 0 == j then not b else b) (at (s ∷ ss) j)
      others zero = refl
      others (suc j) =
          with_collapsed-id (at ss j)
          ∙ with_collapsed-same (λ b. b) (λ b. if 0 == suc j then not b else b) (at ss j)
              (λ b. ground arith)
  toggle_section-in_range (s ∷ ss) (suc i) h =
      let (ts, e, n, same) = toggle_section-in_range ss i (omega arith) in
      (s ∷ ts, rw e refl, ap suc n, others ts same)
    where
      others :
          (ts : List (MenuTableSection Text))
          → ((j : ℕ) → at ts j ≡ with_collapsed (λ b. if i == j then not b else b) (at ss j))
          → (j : ℕ)
          → at (s ∷ ts) j ≡ with_collapsed (λ b. if suc i == j then not b else b) (at (s ∷ ss) j)
      others ts same zero = ground arith
      others ts same (suc j) =
          same j
          ∙ with_collapsed-same (λ b. if i == j then not b else b)
              (λ b. if suc i == suc j then not b else b) (at ss j) (λ b. ground arith)

  with_collapsed-twice :
      (f g : Bool → Bool) (o : Option (MenuTableSection Text))
      → with_collapsed g (with_collapsed f o) ≡ with_collapsed (λ b. g (f b)) o
  with_collapsed-twice f g none = refl
  with_collapsed-twice f g (some s) = refl

  -- Taps on headers of sections that are there never crash. They keep the number of sections, and leave
  -- each section as it was, but for `collapsed`, which every tap on its header turns over.
  pub toggle_all-in_range :
      (is : List ℕ) (ss : List (MenuTableSection Text))
      → All (λ i. i < length ss) is
      → (ts : List (MenuTableSection Text)) × (toggle_all is ss ≡ some ts)
        × (length ts ≡ length ss)
        × ((j : ℕ) → at ts j ≡ with_collapsed (turned j is) (at ss j))
  unfolding toggle_all
  toggle_all-in_range [] ss h = (ss, refl, refl, λ j. with_collapsed-id (at ss j))
  toggle_all-in_range (i ∷ is) ss h =
      let (us, e, n, same) = toggle_section-in_range ss i h.0 in
      let (ts, e', n', same') =
        toggle_all-in_range is us (same_bound (length ss) (length us) is (sym n) h.1) in
      (
        ts,
        rw e e',
        n' ∙ n,
        λ j.
            same' j
            ∙ ap (with_collapsed (turned j is)) (same j)
            ∙ with_collapsed-twice (λ b. if i == j then not b else b) (turned j is) (at ss j),
      )

  -- The table never asks for an item that is not there: each row that a section counts has an item, and
  -- every section below the number of sections has a number of rows.
  pub shown_item-below :
      (ss : List (MenuTableSection Text)) (section : ℕ)
      → section < number_of_sections ss
      → (n : ℕ) × (number_of_rows ss section ≡ some n)
        × ((row : ℕ) → row < n → (m : MenuItem Text) × (shown_item ss section row ≡ some m))
  unfolding number_of_rows shown_item
  shown_item-below ss section h =
      let (s, e) = at-below ss section h in
      (
        (if s.collapsed then 0 else length s.menu_items),
        rw e refl,
        λ row lt. rw e (
            at-below s.menu_items row (elim (Bool-cases s.collapsed) [
              | inl shut ↦ absurd (ground (arith, shut, lt))
              | inr shown ↦ ground (arith, shown, lt)
            ])),
      )
