-- ===== src/App/Menu.antt =====
-- The menu of a restaurant: YumQuest/YumQuest/API Structs/Menu.swift, the sections of
-- CollapsibleTableCell/MenuTableSection.swift, and the table of View/MenuDetailsVC.swift. `Text` is the
-- type of strings, which are only passed on.
pub mod Load
pub mod Toggle
pub mod Cells
use yum_quest.Base.{
  ℕ, zero, suc, Bool, true, false, not, Option, none, some, List, [], ◌∷◌, ◌++◌, length,
  if◌then◌else◌,
}
use yum_quest.App.Swift.{chain, ◌>>=◌, at}

pub record MenuItem (Text : Type 0) : Type 0 where
  pub entry_id : Option Text
  pub name : Option Text
  pub description : Option Text
  pub price : Option Text

pub record MenuItems (Text : Type 0) : Type 0 where
  pub count : Option ℕ
  pub items : Option (List (MenuItem Text))

pub record MenuSection (Text : Type 0) : Type 0 where
  pub section_id : Option Text
  pub name : Option Text
  pub entries : MenuItems Text

pub record Entries (Text : Type 0) : Type 0 where
  pub count : Option ℕ
  pub items : Option (List (MenuSection Text))

pub record MenuCategory (Text : Type 0) : Type 0 where
  pub menu_id : Option Text
  pub name : Option Text
  pub entries : Option (Entries Text)

pub record Menus (Text : Type 0) : Type 0 where
  pub count : Option ℕ
  pub items : Option (List (MenuCategory Text))

-- Menu.Response.Menu, and Menu with its one field `response` and that one's field `menu`.
pub record MenuBody (Text : Type 0) : Type 0 where
  pub menus : Option (Menus Text)

pub record Menu (Text : Type 0) : Type 0 where
  pub menu : Option (MenuBody Text)

-- MenuTableSection; its init has `collapsed` true by default.
pub record MenuTableSection (Text : Type 0) : Type 0 where
  pub section_name : Text
  pub menu_items : List (MenuItem Text)
  pub collapsed : Bool

module _ {Text : Type 0} where
  -- for menuSection in …: sections.append(MenuTableSection(…)), with name! and items!.
  unfoldable pub load_category : List (MenuSection Text) → Option (List (MenuTableSection Text))
  load_category [] = some []
  load_category (s ∷ rest) = do
    name ← s.name
    items ← s.entries.items
    sections ← load_category rest
    some (record { section_name = name; menu_items = items; collapsed = true } ∷ sections)

  -- for menuCategory in …, with (menuCategory.entries?.items)!.
  unfoldable pub load_categories : List (MenuCategory Text) → Option (List (MenuTableSection Text))
  unfolding load_category
  load_categories [] = some []
  load_categories (c ∷ rest) = do
    entries ← c.entries
    items ← entries.items
    sections ← load_category items
    more ← load_categories rest
    some (sections ++ more)

  -- The sections that viewDidLoad makes of `restaurantDetails?.menu`.
  unfoldable pub load_sections : Option (Menu Text) → Option (List (MenuTableSection Text))
  unfolding load_categories
  load_sections menu = do
    response ← menu
    body ← response.menu
    menus ← body.menus
    categories ← menus.items
    load_categories categories

  -- tableView(_:numberOfRowsInSection:) and numberOfSections(in:).
  unfoldable pub number_of_rows : List (MenuTableSection Text) → ℕ → Option ℕ
  number_of_rows sections section = do
    s ← at sections section
    some (if s.collapsed then 0 else length s.menu_items)

  abbrev pub number_of_sections : List (MenuTableSection Text) → ℕ
  number_of_sections sections = length sections

  -- The item that tableView(_:cellForRowAt:) shows and prepare(for:sender:) passes on.
  unfoldable pub shown_item : List (MenuTableSection Text) → ℕ → ℕ → Option (MenuItem Text)
  shown_item sections section row = do s ← at sections section; at s.menu_items row

  -- sections[section].collapsed = !sections[section].collapsed
  unfoldable pub toggle_section :
      List (MenuTableSection Text) → ℕ → Option (List (MenuTableSection Text))
  toggle_section [] section = none
  toggle_section (s ∷ rest) zero = some (record s { collapsed = not s.collapsed } ∷ rest)
  toggle_section (s ∷ rest) (suc section) = do
    sections ← toggle_section rest section
    some (s ∷ sections)
