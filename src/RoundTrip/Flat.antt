-- ===== src/RoundTrip/Flat.antt =====
-- Message types of required and optional numbers, for pb_encode.c and pb_decode.c together: their
-- descriptors, the places of their fields in a struct, and what it is for a struct to be a copy.
pub mod Encode
pub mod Decode
pub mod Stage
pub mod Entry
pub mod Round
pub mod Trip
pub mod Defaults
pub mod Message
mod Tests
use yum_quest.Base.{
  ℕ, zero, suc, ◌+◌, ◌≤◌, ◌<◌, ◌^◌, ◌≡◌, ◌≢◌, refl, ap, ◌∙◌, Bool, true, false, not, ◌&&◌, ◌||◌,
  ◌⊎◌, inl, inr, List, [], ◌∷◌, length, All, arith, ◌==◌, if◌then◌else◌, Bool-cases,
}
use mathlib.Core.Path.{ap₂}
use yum_quest.Pb.{u64}
use yum_quest.Memory.{Mem, load}
use yum_quest.Memory.Laws.{inside}
use yum_quest.Field.{
  Field, Iter, field_at, current, begin_iter, advance, same_union, atype, htype, atype_static,
  htype_required, htype_optional,
}
use yum_quest.Field.Walk.{HasTags, walk, start-walk, pos-walk, current-walk}
use yum_quest.Decoder.Decodable.{required_before, IsChecked, field_at-All}
use yum_quest.RoundTrip.Scalars.{IsNumber}

abbrev pub is_optional : Field → Bool
is_optional f = htype f.type == htype_optional

-- A number in the struct itself that is required, or optional with a flag of its own.
pub record IsFlat (f : Field) : Type 0 where
  pub static : atype f.type ≡ atype_static
  pub once : (htype f.type ≡ htype_required) ⊎ (htype f.type ≡ htype_optional)
  pub number : IsNumber f
  pub tag_pos : 0 < f.tag
  pub tag_limit : f.tag < 2 ^ 29
  pub flagged : htype f.type ≡ htype_optional → f.size_offset ≢ 0

-- A message type of such fields, with different tags and a number of required fields that pb_decode.c
-- can check.
pub record IsFlatMessage (fields : List Field) : Type 0 where
  pub some_field : 1 ≤ length fields
  pub flat : All IsFlat fields
  pub distinct :
      (j k : ℕ)
      → j < length fields
      → k < length fields
      → (field_at fields j).tag ≡ (field_at fields k).tag
      → j ≡ k
  pub checked : IsChecked (required_before fields (length fields))

pub HasTags-flat : (fields : List Field) → All IsFlat fields → HasTags fields
HasTags-flat [] h = tt
HasTags-flat (f ∷ fields) h = (λ e. ground (arith, h.0.tag_pos), HasTags-flat fields h.1)

no_union : (f prev next : Field) → IsFlat f → prev ≡ f → same_union prev next ≡ false
unfolding same_union
no_union f prev next h e = rw e (elim h.once [ inl r ↦ rw r refl | inr o ↦ rw o refl ])

p_size-advance :
    (iter : Iter)
    → same_union (current iter) (field_at iter.start (iter.pos + 1)) ≡ false
    → (advance iter).p_size
      ≡ u64 ((advance iter).p_data + (field_at iter.start (iter.pos + 1)).size_offset)
unfolding advance
p_size-advance iter apart = ground (arith, apart)

module _ (fields : List Field) (base : ℕ) where
  -- The addresses of entry `k` of the struct at `base` and of its flag.
  abbrev pub data_at : ℕ → ℕ
  data_at k = (walk fields base k).p_data

  abbrev pub flag_at : ℕ → ℕ
  flag_at k = (walk fields base k).p_size

  -- The bytes that belong to entry `k`.
  abbrev pub owns : ℕ → ℕ → Bool
  owns k a =
      inside (data_at k) (field_at fields k).data_size a
      || (is_optional (field_at fields k) && a == flag_at k)

  -- No byte of the struct belongs to two entries, or to a value and its flag.
  pub record IsApart : Type 0 where
    pub apart :
        (j k a : ℕ)
        → j < length fields
        → k < length fields
        → owns j a ≡ true
        → owns k a ≡ true
        → j ≡ k
    pub flag_outside :
        (k : ℕ)
        → k < length fields
        → is_optional (field_at fields k) ≡ true
        → inside (data_at k) (field_at fields k).data_size (flag_at k) ≡ false

  -- Entry `k` has a value.
  abbrev pub present : Mem → ℕ → Bool
  present mem k = not (is_optional (field_at fields k)) || not (load 1 (flag_at k) mem == 0)

  pub flag_at-walk :
      (k : ℕ)
      → All IsFlat fields
      → k < length fields
      → flag_at k ≡ u64 (data_at k + (field_at fields k).size_offset)
  unfolding walk begin_iter
  flag_at-walk zero h lt = refl
  flag_at-walk (suc k) h lt =
      let iter = walk fields base k in
      let next = field_at iter.start (iter.pos + 1) in
      let apart : same_union (current iter) next ≡ false =
        no_union (field_at fields k) (current iter) next
          (field_at-All IsFlat fields k h (omega arith)) (current-walk fields base k) in
      let at_next : next ≡ field_at fields (suc k) =
        ap₂ (λ fs i. field_at fs i) (start-walk fields base k)
          (omega (arith, pos-walk fields base k)) in
      p_size-advance iter apart ∙ ap (λ f. u64 (data_at (suc k) + f.size_offset)) at_next

-- No required field of the struct is at address 0.
abbrev pub HasAddresses : List Field → ℕ → Type 0
HasAddresses fields src =
    (j : ℕ) → j < length fields → is_optional (field_at fields j) ≡ false → data_at fields src j ≢ 0

-- The struct at `dest` has the value that the one at `src` has for entry `k`, and a flag that says so;
-- and if that has none, a flag that says so.
pub record IsCopied (fields : List Field) (src : ℕ) (from : Mem) (dest : ℕ) (to : Mem) (k : ℕ)
    : Type 0 where
  pub value :
      present fields src from k ≡ true
      → load (field_at fields k).data_size (data_at fields dest k) to
        ≡ load (field_at fields k).data_size (data_at fields src k) from
  pub flag :
      is_optional (field_at fields k) ≡ true
      → (load 1 (flag_at fields dest k) to == 0) ≡ not (present fields src from k)
