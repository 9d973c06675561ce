-- ===== src/Decoder/Runs/Search.antt =====
-- The searches of pb_decode_noinit of pb_decode.c for a field: what they find, where no field of the
-- message type is an extension field.
use yum_quest.Base.{
  ℕ, zero, suc, ◌+◌, ◌<◌, ◌≤◌, ◌≡◌, ◌≢◌, ◌⊎◌, refl, ap, Bool, true, false, Option, none, some, List,
  arith, length, ◌==◌, if◌then◌else◌, Bool-cases, inl, inr,
}
use yum_quest.Field.{Field, field_at, Iter, ltype, ltype_extension, pb_field_iter_find}
use yum_quest.Field.Walk.{
  HasTags, walk, start-walk, pos-walk, current-walk, next_pos, next-walk_pos,
}
use yum_quest.Field.Find.{Finds, to_go, pb_field_iter_find-Finds}
use yum_quest.Decoder.Message.{extension_loop, find_extension_field}

module _ (fields : List Field) (dest : ℕ) (h : HasTags fields) where
  -- The search ends with `false`, at some entry of the array.
  abbrev Misses : Option (Iter × Bool) → Type 0
  Misses o = (j : ℕ) × (j < length fields) × (o ≡ some (walk fields dest j, false))

  extension_loop-walk :
      (fuel s k : ℕ)
      → k < length fields
      → extension_loop (suc fuel) s (walk fields dest k) ≡ (
          if ltype (field_at fields k).type == ltype_extension
          then some (walk fields dest k, true)
          else if next_pos fields dest k == s
          then some (walk fields dest (next_pos fields dest k), false)
          else extension_loop fuel s (walk fields dest (next_pos fields dest k)))
  unfolding extension_loop
  extension_loop-walk fuel s k hk = rw (
    current-walk fields dest k,
    next-walk_pos fields dest k h hk,
    pos-walk fields dest (next_pos fields dest k),
  )

  module _
      (none_extends : (k : ℕ)
        → k < length fields
        → ltype (field_at fields k).type ≢ ltype_extension) where
    extension_loop-Misses :
        (fuel s k : ℕ)
        → s < length fields
        → k < length fields
        → to_go (length fields) s k ≤ fuel
        → Misses (extension_loop fuel s (walk fields dest k))
    extension_loop-Misses zero s k hs hk hf = absurd (ground arith)
    extension_loop-Misses (suc fuel) s k hs hk hf =
        let no : (ltype (field_at fields k).type == ltype_extension) ≡ false =
          ground (arith, none_extends k hk) in
        rw (extension_loop-walk fuel s k hk, no)
          (elim (Bool-cases (next_pos fields dest k == s)) [
            | inl around ↦ rw around (next_pos fields dest k, ground arith, refl)
            | inr on ↦ rw on (
                extension_loop-Misses fuel s (next_pos fields dest k) hs (ground arith)
                  (ground arith))
          ])

    pub find_extension_field-Misses :
        (k : ℕ) (iter : Iter)
        → k < length fields
        → iter ≡ walk fields dest k
        → Misses (find_extension_field iter)
    unfolding find_extension_field
    find_extension_field-Misses k iter hk e = rw e (
        extension_loop-Misses (length (walk fields dest k).start + 1) (walk fields dest k).pos k
          (rw (pos-walk fields dest k) hk) hk (enough k hk))
      where
        enough :
            (k : ℕ)
            → k < length fields
            → to_go (length fields) (walk fields dest k).pos k
              ≤ length (walk fields dest k).start + 1
        enough k hk = rw (pos-walk fields dest k, start-walk fields dest k) (ground arith)

  -- pb_field_iter_find answers with an entry of the array, or where it began.
  pub pb_field_iter_find-cases :
      (k tag : ℕ) (iter : Iter)
      → k < length fields
      → iter ≡ walk fields dest k
      → ((i : ℕ) × (i < length fields)
          × (pb_field_iter_find iter tag ≡ some (walk fields dest i, true)))
        ⊎ (pb_field_iter_find iter tag ≡ some (walk fields dest k, false))
  pb_field_iter_find-cases k tag iter hk e = rw e (
      go (pb_field_iter_find (walk fields dest k) tag)
        (pb_field_iter_find-Finds fields dest tag h k hk))
    where
      go :
          (o : Option (Iter × Bool))
          → Finds fields dest k tag o
          → ((i : ℕ) × (i < length fields) × (o ≡ some (walk fields dest i, true)))
            ⊎ (o ≡ some (walk fields dest k, false))
      go none f = absurd f
      go (some (iter, true)) (i, lt, same, hit) = inl (i, lt, ap (λ it. some (it, true)) same)
      go (some (iter, false)) f = inr (ap (λ it. some (it, false)) f.0)
