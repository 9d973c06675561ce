-- ===== src/Field/Find.antt =====
-- The answers of pb_field_iter_find of pb_common.c.
use yum_quest.Base.{
  ℕ, zero, suc, ◌+◌, ◌-◌, ◌<◌, ◌≤◌, ◌≡◌, refl, Bool, true, false, ◌&&◌, ◌||◌, Option, none, some,
  List, [], ◌∷◌, All, arith, length, ltb, leb, ◌==◌, if◌then◌else◌, Bool-cases, inl, inr, ap,
}
use native.Mathlib.Decide.{ℕ_discrete}
use yum_quest.Field.{Field, field_at, Iter, is_wanted, find_loop, pb_field_iter_find}
use yum_quest.Field.Walk.{
  HasTags, walk, start-walk, pos-walk, current-walk, next_pos, next-walk_pos,
}

-- What a search from entry `k` of the array may answer: it never runs out of rounds; a hit is at an
-- entry that is wanted; a miss leaves the iterator as it was, and no entry is wanted.
abbrev pub Finds : List Field → ℕ → ℕ → ℕ → Option (Iter × Bool) → Type 0
Finds fields dest k tag none = ⊥
Finds fields dest k tag (some (iter, true)) =
    (i : ℕ) × (i < length fields)
    × (iter ≡ walk fields dest i)
    × (is_wanted tag (field_at fields i) ≡ true)
Finds fields dest k tag (some (iter, false)) =
    (iter ≡ walk fields dest k) × All (λ f. is_wanted tag f ≡ false) fields

field_at-All :
    (P : Field → Type 0) (fields : List Field)
    → ((i : ℕ) → i < length fields → P (field_at fields i))
    → All P fields
field_at-All P [] h = tt
field_at-All P (f ∷ fields) h =
    (h 0 (omega arith), field_at-All P fields (λ i lt. h (suc i) (omega arith)))

-- The entries that a search from `s` has seen when it comes to `k`, and the number that it has not.
abbrev seen : ℕ → ℕ → ℕ → Bool
seen s k i = if leb s k then leb s i && ltb i k else leb s i || ltb i k

abbrev pub to_go : ℕ → ℕ → ℕ → ℕ
to_go n s k = if leb s k then n - (k - s) else s - k

module _ (fields : List Field) (dest tag : ℕ) (h : HasTags fields) where
  find_loop-walk :
      (fuel s k : ℕ)
      → k < length fields
      → find_loop (suc fuel) s tag (walk fields dest k) ≡ (
          if is_wanted tag (field_at fields k)
          then some (walk fields dest k, true)
          else if next_pos fields dest k == s
          then some (walk fields dest (next_pos fields dest k), false)
          else find_loop fuel s tag (walk fields dest (next_pos fields dest k)))
  unfolding find_loop
  find_loop-walk fuel s k hk = rw (
    current-walk fields dest k,
    next-walk_pos fields dest k h hk,
    pos-walk fields dest (next_pos fields dest k),
  )

  find_loop-Finds :
      (fuel s k : ℕ)
      → s < length fields
      → k < length fields
      → to_go (length fields) s k ≤ fuel
      → ((i : ℕ)
          → i < length fields
          → seen s k i ≡ true
          → is_wanted tag (field_at fields i) ≡ false)
      → Finds fields dest s tag (find_loop fuel s tag (walk fields dest k))
  find_loop-Finds zero s k hs hk hf old = absurd (ground arith)
  find_loop-Finds (suc fuel) s k hs hk hf old =
      rw (find_loop-walk fuel s k hk) (elim (Bool-cases (is_wanted tag (field_at fields k))) [
        | inl hit ↦ rw hit (k, hk, refl, hit)
        | inr miss ↦ rw miss (elim (Bool-cases (next_pos fields dest k == s)) [
          | inl around ↦ rw around (
            ap (λ i. walk fields dest i) (ground arith),
            field_at-All (λ f. is_wanted tag f ≡ false) fields (all_seen k old miss around),
          )
          | inr on ↦ rw on (
              find_loop-Finds fuel s (next_pos fields dest k) hs (ground arith) (ground arith)
                (one_more k hk old miss))
        ])
      ])
    where
      one_more :
          (k : ℕ)
          → k < length fields
          → ((i : ℕ)
              → i < length fields
              → seen s k i ≡ true
              → is_wanted tag (field_at fields i) ≡ false)
          → is_wanted tag (field_at fields k) ≡ false
          → (i : ℕ) → i < length fields
          → seen s (next_pos fields dest k) i ≡ true
          → is_wanted tag (field_at fields i) ≡ false
      one_more k hk old miss i lt sn = elim (ℕ_discrete i k) [
        | yes e ↦ rw e miss
        | no ne ↦ old i lt (ground arith)
      ]

      all_seen :
          (k : ℕ)
          → ((i : ℕ)
              → i < length fields
              → seen s k i ≡ true
              → is_wanted tag (field_at fields i) ≡ false)
          → is_wanted tag (field_at fields k) ≡ false
          → (next_pos fields dest k == s) ≡ true
          → (i : ℕ) → i < length fields
          → is_wanted tag (field_at fields i) ≡ false
      all_seen k old miss around i lt = elim (ℕ_discrete i k) [
        | yes e ↦ rw e miss
        | no ne ↦ old i lt (ground arith)
      ]

  -- At the start nothing has been seen.
  find_loop-Finds_start :
      (k : ℕ)
      → k < length fields
      → Finds fields dest k tag (find_loop (length fields + 1) k tag (walk fields dest k))
  find_loop-Finds_start k hk =
      find_loop-Finds (length fields + 1) k k hk hk (ground arith)
        (λ i lt sn. absurd (ground arith))

  -- From the entry at `k`, pb_field_iter_find ends; it finds an entry with the tag that is no
  -- extension field, if the array has one, and else it comes back to `k`.
  pub pb_field_iter_find-Finds :
      (k : ℕ)
      → k < length fields
      → Finds fields dest k tag (pb_field_iter_find (walk fields dest k) tag)
  unfolding pb_field_iter_find
  pb_field_iter_find-Finds k hk =
      simp (start-walk fields dest k, pos-walk fields dest k) (find_loop-Finds_start k hk)
