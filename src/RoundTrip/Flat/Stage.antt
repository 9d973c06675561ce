-- ===== src/RoundTrip/Flat/Stage.antt =====
-- A struct of numbers while pb_decode.c fills it: the entries that are done are copies, and the flags
-- of the others are clear.
use yum_quest.Base.{
  ℕ, suc, ◌+◌, ◌≤◌, ◌<◌, ◌≡◌, ◌≢◌, refl, ap, ◌∙◌, true, false, List, length, arith, ◌==◌,
  Bool-cases, inl, inr,
}
use native.Mathlib.Decide.{ℕ_discrete}
use yum_quest.Memory.{Mem, load, store}
use yum_quest.Memory.Laws.{inside, load-same, load-store, store-SameOutside, SameOutside}
use yum_quest.Field.{Field, field_at}
use yum_quest.RoundTrip.Scalars.{IsNumber}
use yum_quest.RoundTrip.Flat.{
  IsFlat, is_optional, data_at, flag_at, owns, IsApart, present, IsCopied,
}
use yum_quest.RoundTrip.Flat.Decode.{with_flag}

inside-add : (p n i : ℕ) → i < n → inside p n (p + i) ≡ true
inside-add p n i lt = ground arith

number-pos : (f : Field) → IsNumber f → 0 < f.data_size
number-pos f h = ground (arith, h.number, h.sized, h.four, h.eight)

flag_elsewhere : (p n q : ℕ) → inside p n q ≡ false → 0 < n → q ≢ p
flag_elsewhere p n q out some e = ground (arith, out, e)

pub record Stage (fields : List Field) (src : ℕ) (from : Mem) (dest : ℕ) (k : ℕ) (to : Mem)
    : Type 0 where
  pub copied : (j : ℕ) → j < length fields → j < k → IsCopied fields src from dest to j
  pub fresh :
      (j : ℕ)
      → j < length fields
      → k ≤ j
      → is_optional (field_at fields j) ≡ true
      → load 1 (flag_at fields dest j) to ≡ 0

module _ (fields : List Field) (dest : ℕ) where
  -- Only bytes of entry `k` change.
  abbrev pub OnlyIn : ℕ → Mem → Mem → Type 0
  OnlyIn k to to' = (a : ℕ) → owns fields dest k a ≡ false → to' a ≡ to a

  module _ (layout : IsApart fields dest) where
    pub flag-ne-data :
        (k : ℕ)
        → k < length fields
        → IsFlat (field_at fields k)
        → is_optional (field_at fields k) ≡ true
        → flag_at fields dest k ≢ data_at fields dest k
    flag-ne-data k lt h optional =
        flag_elsewhere (data_at fields dest k) (field_at fields k).data_size (flag_at fields dest k)
          (layout.flag_outside k lt optional) (number-pos (field_at fields k) h.number)

    not_owned :
        (j k a : ℕ)
        → j < length fields
        → k < length fields
        → j ≢ k
        → owns fields dest j a ≡ true
        → owns fields dest k a ≡ false
    not_owned j k a hj hk ne owned = elim (Bool-cases (owns fields dest k a)) [
      | inl both ↦ absurd (ne (layout.apart j k a hj hk owned both))
      | inr free ↦ free
    ]

    value_same :
        (j k : ℕ) (to to' : Mem)
        → j < length fields
        → k < length fields
        → j ≢ k
        → OnlyIn k to to'
        → load (field_at fields j).data_size (data_at fields dest j) to'
          ≡ load (field_at fields j).data_size (data_at fields dest j) to
    value_same j k to to' hj hk ne only =
        load-same (field_at fields j).data_size (data_at fields dest j) to to' λ i lt.
          only (data_at fields dest j + i) (
            not_owned j k (data_at fields dest j + i) hj hk ne
              (rw (inside-add (data_at fields dest j) (field_at fields j).data_size i lt) refl))

    pub flag_same :
        (j k : ℕ) (to to' : Mem)
        → j < length fields
        → k < length fields
        → j ≢ k
        → is_optional (field_at fields j) ≡ true
        → OnlyIn k to to'
        → load 1 (flag_at fields dest j) to' ≡ load 1 (flag_at fields dest j) to
    flag_same j k to to' hj hk ne optional only = load-same 1 (flag_at fields dest j) to to' λ i lt.
        only (flag_at fields dest j + i)
          (not_owned j k (flag_at fields dest j + i) hj hk ne (ground (arith, optional)))

    -- What the decoder of entry `k` does, with its flag set before: only the bytes of the entry change,
    -- and the flag stays set.
    pub OnlyIn-written :
        (k v : ℕ) (to to' : Mem)
        → SameOutside
            (data_at fields dest k)
            (field_at fields k).data_size
            (with_flag (field_at fields k) (flag_at fields dest k) v to)
            to'
        → OnlyIn k to to'
    OnlyIn-written k v to to' same a free = elim (Bool-cases (is_optional (field_at fields k))) [
      | inl optional ↦
          let outside : with_flag (field_at fields k) (flag_at fields dest k) v to a ≡ to a =
            rw optional
              (store-SameOutside (flag_at fields dest k) 1 v to a (ground (arith, free))) in
          same a (ground (arith, free)) ∙ outside
      | inr required ↦
          let untouched : with_flag (field_at fields k) (flag_at fields dest k) v to a ≡ to a =
            rw required refl in
          same a (ground (arith, free)) ∙ untouched
    ]

    pub flag-written :
        (k v : ℕ) (to to' : Mem)
        → v < 256
        → k < length fields
        → is_optional (field_at fields k) ≡ true
        → SameOutside
            (data_at fields dest k)
            (field_at fields k).data_size
            (with_flag (field_at fields k) (flag_at fields dest k) v to)
            to'
        → load 1 (flag_at fields dest k) to' ≡ v
    flag-written k v to to' byte lt optional same =
        load-same 1 (flag_at fields dest k) (store 1 (flag_at fields dest k) v to) to' kept
        ∙ load-store 1 (flag_at fields dest k) v to (omega arith)
      where
        kept :
            (i : ℕ)
            → i < 1
            → to' (flag_at fields dest k + i)
              ≡ store 1 (flag_at fields dest k) v to (flag_at fields dest k + i)
        kept i one =
            let here : flag_at fields dest k + i ≡ flag_at fields dest k = omega arith in
            let set : with_flag (field_at fields k) (flag_at fields dest k) v to
                ≡ store 1 (flag_at fields dest k) v to =
              rw optional refl in
            rw here (
              same (flag_at fields dest k) (layout.flag_outside k lt optional)
              ∙ ap (λ m. m (flag_at fields dest k)) set)

    module _ (src : ℕ) (from : Mem) where
      IsCopied-frame :
          (j k : ℕ) (to to' : Mem)
          → j < length fields
          → k < length fields
          → j ≢ k
          → OnlyIn k to to'
          → IsCopied fields src from dest to j
          → IsCopied fields src from dest to' j
      IsCopied-frame j k to to' hj hk ne only c = record {
        value = λ here. value_same j k to to' hj hk ne only ∙ c.value here;
        flag = λ optional.
            ap (λ v. v == 0) (flag_same j k to to' hj hk ne optional only) ∙ c.flag optional;
      }

      -- An entry with a value is written.
      pub Stage-written :
          (k : ℕ) (to to' : Mem)
          → k < length fields
          → present fields src from k ≡ true
          → OnlyIn k to to'
          → load (field_at fields k).data_size (data_at fields dest k) to'
            ≡ load (field_at fields k).data_size (data_at fields src k) from
          → (is_optional (field_at fields k) ≡ true → load 1 (flag_at fields dest k) to' ≡ 1)
          → Stage fields src from dest k to
          → Stage fields src from dest (suc k) to'
      Stage-written k to to' lt here only value flag s = record {
        copied = λ j hj below. elim (ℕ_discrete j k) [
          | yes e ↦
              rw e (record { value = λ _. value; flag = λ optional. rw (flag optional, here) refl })
          | no ne ↦ IsCopied-frame j k to to' hj lt ne only (s.copied j hj (omega arith))
        ];
        fresh = λ j hj above optional.
            flag_same j k to to' hj lt (λ e. omega arith) optional only
            ∙ s.fresh j hj (omega arith) optional;
      }

      -- An entry without a value is passed over.
      pub Stage-skipped :
          (k : ℕ) (to : Mem)
          → k < length fields
          → present fields src from k ≡ false
          → Stage fields src from dest k to
          → Stage fields src from dest (suc k) to
      Stage-skipped k to lt absent s = record {
        copied = λ j hj below. elim (ℕ_discrete j k) [
          | yes e ↦ rw e (record {
            value = λ here. absurd (cc (here, absent));
            flag = λ optional. rw (s.fresh k lt (omega arith) optional, absent) refl;
          })
          | no ne ↦ s.copied j hj (omega arith)
        ];
        fresh = λ j hj above optional. s.fresh j hj (omega arith) optional;
      }
