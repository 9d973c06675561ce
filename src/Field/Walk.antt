-- ===== src/Field/Walk.antt =====
-- The moves of pb_field_iter_next of pb_common.c through an array of descriptors.
use yum_quest.Base.{
  ℕ, zero, suc, ◌+◌, ◌<◌, ◌≡◌, ◌≢◌, refl, true, false, List, [], ◌∷◌, arith, length, All, ap, ltb,
  if◌then◌else◌,
}
use mathlib.Core.Path.{ap₂}
use native.Mathlib.Decide.{dec_lt}
use yum_quest.Field.{
  Field, current, pb_last_field, field_at, Iter, begin_iter, advance, pb_field_iter_next,
}

-- Every entry before PB_LAST_FIELD has a tag.
abbrev pub HasTags : List Field → Type 0
HasTags = All (λ f. f.tag ≢ 0)

pub tag-field_at :
    (fields : List Field) (i : ℕ) → HasTags fields → i < length fields → (field_at fields i).tag ≢ 0
tag-field_at [] i h lt = absurd (omega arith)
tag-field_at (f ∷ fields) zero h lt = h.0
tag-field_at (f ∷ fields) (suc i) h lt = tag-field_at fields i h.1 (omega arith)

field_at-length : (fields : List Field) → field_at fields (length fields) ≡ pb_last_field
field_at-length [] = refl
field_at-length (f ∷ fields) = field_at-length fields

-- The iterator after `k` moves from the first entry.
unfoldable pub walk : List Field → ℕ → ℕ → Iter
walk fields dest zero = begin_iter fields dest
walk fields dest (suc k) = advance (walk fields dest k)

module _ (fields : List Field) (dest : ℕ) where
  pub start-walk : (k : ℕ) → (walk fields dest k).start ≡ fields
  unfolding walk begin_iter advance
  start-walk zero = refl
  start-walk (suc k) = ground (arith, start-walk k)

  pub pos-walk : (k : ℕ) → (walk fields dest k).pos ≡ k
  unfolding walk begin_iter advance
  pos-walk zero = refl
  pos-walk (suc k) = ground (arith, pos-walk k)

  pub dest_struct-walk : (k : ℕ) → (walk fields dest k).dest_struct ≡ dest
  unfolding walk begin_iter advance
  dest_struct-walk zero = refl
  dest_struct-walk (suc k) = ground (arith, dest_struct-walk k)

  -- Inside the array pb_field_iter_next moves on by one entry and says so.
  pub next-walk :
      (k : ℕ)
      → HasTags fields
      → suc k < length fields
      → pb_field_iter_next (walk fields dest k) ≡ (walk fields dest (suc k), true)
  unfolding pb_field_iter_next walk
  next-walk k h lt = ground (
    arith,
    start-walk k,
    pos-walk k,
    tag-field_at fields k h (omega arith),
    tag-field_at fields (k + 1) h (omega arith),
  )

  -- At the last entry it goes back to the first one and says so.
  pub next-walk_last :
      (k : ℕ)
      → HasTags fields
      → suc k ≡ length fields
      → pb_field_iter_next (walk fields dest k) ≡ (walk fields dest 0, false)
  unfolding pb_field_iter_next walk
  next-walk_last k h e = ground (
    arith,
    start-walk k,
    pos-walk k,
    dest_struct-walk k,
    tag-field_at fields k h (omega arith),
    field_at-length fields,
    ap (λ i. field_at fields i) k_suc,
  )
    where
      k_suc : k + 1 ≡ length fields
      k_suc = omega arith

  pub current-walk : (k : ℕ) → current (walk fields dest k) ≡ field_at fields k
  current-walk k = ap₂ (λ fs i. field_at fs i) (start-walk k) (pos-walk k)

  -- The entry that the iterator is at after the one at `k`.
  abbrev pub next_pos : ℕ → ℕ
  next_pos k = if ltb (suc k) (length fields) then suc k else 0

  pub next-walk_pos :
      (k : ℕ)
      → HasTags fields
      → k < length fields
      → (pb_field_iter_next (walk fields dest k)).0 ≡ walk fields dest (next_pos k)
  next-walk_pos k h lt = elim (dec_lt (suc k) (length fields)) [
    | yes inner ↦ ground (arith, next-walk k h inner)
    | no last ↦ ground (arith, next-walk_last k h (omega arith))
  ]
