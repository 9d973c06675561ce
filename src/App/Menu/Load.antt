-- ===== src/App/Menu/Load.antt =====
-- What viewDidLoad of MenuDetailsVC.swift makes of a menu.
use yum_quest.Base.{◌≡◌, refl, ap, sym, ◌∙◌, true, Option, none, some, List, [], ◌∷◌, ◌++◌, All}
use mathlib.Core.List.{append_assoc}
use yum_quest.App.Swift.{chain, ◌>>=◌}
use yum_quest.App.Menu.{
  MenuItem, MenuSection, Entries, MenuCategory, Menus, MenuBody, Menu, MenuTableSection,
  load_category, load_categories, load_sections,
}

-- The optional has a value.
abbrev pub Has {ℓ} : {A : Type ℓ} → Option A → Type 0
Has none = ⊥
Has (some a) = Unit

abbrev pub or_empty {ℓ} : {A : Type ℓ} → Option (List A) → List A
or_empty none = []
or_empty (some xs) = xs

present {ℓ} : {A : Type ℓ} (o : Option A) → Has o → (a : A) × (o ≡ some a)
present none h = absurd h
present (some a) h = (a, refl)

module _ {Text : Type 0} where
  -- The items of a menu in its order, whatever is missing.
  abbrev pub section_items : List (MenuSection Text) → List (MenuItem Text)
  section_items [] = []
  section_items (s ∷ rest) = or_empty s.entries.items ++ section_items rest

  abbrev pub entries_sections : Option (Entries Text) → List (MenuSection Text)
  entries_sections none = []
  entries_sections (some e) = or_empty e.items

  abbrev pub category_items : List (MenuCategory Text) → List (MenuItem Text)
  category_items [] = []
  category_items (c ∷ rest) = section_items (entries_sections c.entries) ++ category_items rest

  abbrev pub table_items : List (MenuTableSection Text) → List (MenuItem Text)
  table_items [] = []
  table_items (s ∷ rest) = s.menu_items ++ table_items rest

  -- A section has a name and items.
  abbrev pub IsComplete : MenuSection Text → Type 0
  IsComplete s = Has s.name × Has s.entries.items

  abbrev pub HasSections : Option (Entries Text) → Type 0
  HasSections none = ⊥
  HasSections (some e) = Has e.items × All IsComplete (or_empty e.items)

  table_items-append :
      (ss ts : List (MenuTableSection Text))
      → table_items (ss ++ ts) ≡ table_items ss ++ table_items ts
  table_items-append [] ts = refl
  table_items-append (s ∷ ss) ts =
      ap (λ t. s.menu_items ++ t) (table_items-append ss ts)
      ∙ sym (append_assoc s.menu_items (table_items ss) (table_items ts))

  All-append :
      (P : MenuTableSection Text → Type 0) (ss ts : List (MenuTableSection Text))
      → All P ss
      → All P ts
      → All P (ss ++ ts)
  All-append P [] ts h g = g
  All-append P (s ∷ ss) ts h g = (h.0, All-append P ss ts h.1 g)

  abbrev pub IsCollapsed : MenuTableSection Text → Type 0
  IsCollapsed s = s.collapsed ≡ true

  load_category-items :
      (ss : List (MenuSection Text))
      → All IsComplete ss
      → (ts : List (MenuTableSection Text)) × (load_category ss ≡ some ts)
        × (table_items ts ≡ section_items ss)
        × All IsCollapsed ts
  unfolding load_category
  load_category-items [] h = ([], refl, refl, tt)
  load_category-items (s ∷ ss) h =
      let (n, en) = present s.name h.0.0 in
      let (items, ei) = present s.entries.items h.0.1 in
      let (ts, e, same, all) = load_category-items ss h.1 in
      (
        record { section_name = n; menu_items = items; collapsed = true } ∷ ts,
        rw (en, ei, e) refl,
        rw (ei, same) refl,
        (refl, all),
      )

  load_categories-items :
      (cs : List (MenuCategory Text))
      → All (λ c. HasSections c.entries) cs
      → (ts : List (MenuTableSection Text)) × (load_categories cs ≡ some ts)
        × (table_items ts ≡ category_items cs)
        × All IsCollapsed ts
  unfolding load_categories
  load_categories-items [] h = ([], refl, refl, tt)
  load_categories-items (c ∷ cs) h = go c.entries refl h.0 (load_categories-items cs h.1)
    where
      go :
          (o : Option (Entries Text))
          → c.entries ≡ o
          → HasSections o
          → (ts : List (MenuTableSection Text)) × (load_categories cs ≡ some ts)
            × (table_items ts ≡ category_items cs)
            × All IsCollapsed ts
          → (ts : List (MenuTableSection Text)) × (load_categories (c ∷ cs) ≡ some ts)
            × (table_items ts ≡ category_items (c ∷ cs))
            × All IsCollapsed ts
      go none ec g rest = absurd g
      go (some en) ec g (ts, e, same, all) =
          let (items, ei) = present en.items g.0 in
          let (us, e', same', all') = load_category-items items (rw ei at g.1) in
          (
            us ++ ts,
            rw (ec, ei, e', e) refl,
            table_items-append us ts ∙ rw (ec, ei, same, same') refl,
            All-append IsCollapsed us ts all' all,
          )

  -- The categories of a menu, where every optional on the way has a value.
  abbrev pub categories_of : Option (Menu Text) → Option (List (MenuCategory Text))
  categories_of menu = do response ← menu; body ← response.menu; menus ← body.menus; menus.items

  load_sections-categories :
      (menu : Option (Menu Text)) → load_sections menu ≡ chain (categories_of menu) load_categories
  unfolding load_sections
  load_sections-categories none = refl
  load_sections-categories (some response) = go response.menu
    where
      go :
          (o : Option (MenuBody Text))
          → chain o (λ body. chain body.menus (λ menus. chain menus.items load_categories))
            ≡ chain (chain o (λ body. chain body.menus (λ menus. menus.items))) load_categories
      go none = refl
      go (some body) = go' body.menus
        where
          go' :
              (o : Option (Menus Text))
              → chain o (λ menus. chain menus.items load_categories)
                ≡ chain (chain o (λ menus. menus.items)) load_categories
          go' none = refl
          go' (some menus) = refl

  -- For a menu with categories that all have their sections, each with a name and items, the table is
  -- made without a crash: its sections have the items of the menu, all of them and in the order of the
  -- menu, and every section is collapsed.
  pub load_sections-items :
      (menu : Option (Menu Text)) (cs : List (MenuCategory Text))
      → categories_of menu ≡ some cs
      → All (λ c. HasSections c.entries) cs
      → (ts : List (MenuTableSection Text)) × (load_sections menu ≡ some ts)
        × (table_items ts ≡ category_items cs)
        × All IsCollapsed ts
  load_sections-items menu cs e h =
      let (ts, e', same, all) = load_categories-items cs h in
      (ts, load_sections-categories menu ∙ ap (λ o. chain o load_categories) e ∙ e', same, all)
