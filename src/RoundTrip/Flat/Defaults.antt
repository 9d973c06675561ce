-- ===== src/RoundTrip/Flat/Defaults.antt =====
-- pb_message_set_to_defaults of pb_decode.c on a message type of numbers: it clears every flag.
use yum_quest.Base.{
  ℕ, zero, suc, ◌+◌, ◌-◌, ◌≤◌, ◌<◌, ◌≡◌, ◌≢◌, refl, ◌∙◌, true, false, List, length, All, arith,
  ◌==◌, if◌then◌else◌, Bool-cases, inl, inr,
}
use native.Mathlib.Decide.{ℕ_discrete}
use yum_quest.Command.{ok}
use yum_quest.Memory.{Mem, load, load_bytes, store_bytes, clear}
use yum_quest.Memory.Laws.{
  SameOutside, store_bytes-SameOutside, clear-SameOutside, length-load_bytes,
}
use yum_quest.Field.{Field, Iter, field_at, current, pb_field_iter_begin}
use yum_quest.Field.Walk.{walk, current-walk, next-walk, next-walk_last, tag-field_at}
use yum_quest.Decoder.{Decoding, Surroundings, write}
use yum_quest.Decoder.Decodable.{field_at-All}
use yum_quest.Decoder.Defaults.{
  each_field, for_fields, default_data, default_static, pb_field_set_to_default,
  pb_message_set_to_defaults,
}
use yum_quest.RoundTrip.Flat.{IsFlat, HasTags-flat, is_optional, data_at, flag_at, IsApart}
use yum_quest.RoundTrip.Flat.Decode.{with_flag}
use yum_quest.RoundTrip.Flat.Stage.{Stage, OnlyIn-written, flag-written, flag_same, flag-ne-data}

-- The memory after a number gets its default value.
abbrev with_default : Field → ℕ → Mem → Mem
with_default f p mem =
    if f.ptr == 0
    then clear p f.data_size mem
    else store_bytes p (load_bytes f.data_size f.ptr mem) mem

with_default-SameOutside :
    (f : Field) (p : ℕ) (mem : Mem) → SameOutside p f.data_size mem (with_default f p mem)
with_default-SameOutside f p mem = elim (Bool-cases (f.ptr == 0)) [
  | inl e ↦ rw e (clear-SameOutside p f.data_size mem)
  | inr e ↦ rw e (
      store_bytes-SameOutside p f.data_size (load_bytes f.data_size f.ptr mem) mem
        (omega (arith, length-load_bytes f.data_size f.ptr mem)))
]

module _ {S : Type 0} (env : Surroundings S) (fuel : ℕ) where
  set_to_default-number :
      (iter : Iter) (f : Field) (d : Decoding S)
      → IsFlat f
      → current iter ≡ f
      → (is_optional f ≡ true → iter.p_size ≢ iter.p_data)
      → pb_field_set_to_default env (suc fuel) iter d
        ≡ ok tt (record d { mem = with_default f iter.p_data (with_flag f iter.p_size 0 d.mem) })
  unfolding pb_field_set_to_default default_static default_data write
  set_to_default-number iter f d h e apart = elim h.once [
    | inl required ↦ ground (arith, e, h.static, h.number.number)
    | inr optional ↦ ground (arith, e, h.static, h.number.number, apart (rw optional refl))
  ]

  module _ (fields : List Field) (dest : ℕ) (flat : All IsFlat fields)
      (layout : IsApart fields dest) where
    -- The flags of the entries below `k` are clear.
    abbrev Cleared : ℕ → Mem → Type 0
    Cleared k to =
        (j : ℕ)
        → j < length fields
        → j < k
        → is_optional (field_at fields j) ≡ true
        → load 1 (flag_at fields dest j) to ≡ 0

    -- One field, and the flags before it.
    one_default :
        (k : ℕ) (d : Decoding S)
        → k < length fields
        → Cleared k d.mem
        → (to : Mem) × (pb_field_set_to_default env (suc fuel) (walk fields dest k) d
            ≡ ok tt (record d { mem = to }))
          × Cleared (suc k) to
    one_default k d lt clear_below =
        let f = field_at fields k in
        let h = field_at-All IsFlat fields k flat lt in
        let p = data_at fields dest k in
        let to = with_default f p (with_flag f (flag_at fields dest k) 0 d.mem) in
        let same = with_default-SameOutside f p (with_flag f (flag_at fields dest k) 0 d.mem) in
        (
          to,
          set_to_default-number (walk fields dest k) f d h (current-walk fields dest k)
              (flag-ne-data fields dest layout k lt h),
          λ j hj below optional. elim (ℕ_discrete j k) [
            | yes e ↦
                let here : is_optional f ≡ true = rw e at optional in
                rw e (flag-written fields dest layout k 0 d.mem to (omega arith) lt here same)
            | no ne ↦
                flag_same fields dest layout j k d.mem to hj lt ne optional
                  (OnlyIn-written fields dest layout k 0 d.mem to same)
                ∙ clear_below j hj (omega arith) optional
          ],
        )

    each_default :
        (rounds m k : ℕ) (d : Decoding S)
        → k + suc m ≡ length fields
        → m < rounds
        → Cleared k d.mem
        → (to : Mem) × (each_field
              (pb_field_set_to_default env (suc fuel))
              rounds
              (walk fields dest k)
              d
            ≡ ok tt (record d { mem = to }))
          × Cleared (length fields) to
    unfolding each_field
    each_default zero m k d e lt clear_below = absurd (omega arith)
    each_default (suc rounds) zero k d e lt clear_below =
        let (to, run, clear_here) = one_default k d (omega arith) clear_below in
        let last : suc k ≡ length fields = omega arith in
        (
          to,
          rw (next-walk_last fields dest k (HasTags-flat fields flat) last) run,
          rw last at clear_here,
        )
    each_default (suc rounds) (suc m) k d e lt clear_below =
        let (to, run, clear_here) = one_default k d (omega arith) clear_below in
        let (to', rest, clear_all) =
          each_default rounds m (suc k) (record d { mem = to }) (omega arith) (omega arith)
            clear_here in
        (
          to',
          rw (next-walk fields dest k (HasTags-flat fields flat) (omega arith), run) rest,
          clear_all,
        )

    -- It always succeeds, leaves the stream alone, and clears every flag.
    pub set_to_defaults-Stage :
        (src : ℕ) (from : Mem) (d : Decoding S)
        → 1 ≤ length fields
        → (to : Mem) × (pb_message_set_to_defaults env (suc fuel) fields dest d
            ≡ ok tt (record d { mem = to }))
          × Stage fields src from dest 0 to
    unfolding pb_message_set_to_defaults for_fields pb_field_iter_begin walk
    set_to_defaults-Stage src from d some_field =
        let (to, run, clear_all) =
          each_default (length fields + 1) (length fields - 1) 0 d (omega arith) (omega arith)
            (λ j hj none_below. absurd (omega arith)) in
        (
          to,
          rw (tagged_first) run,
          record {
            copied = λ j hj none_below. absurd (omega arith);
            fresh = λ j hj above optional. clear_all j hj hj optional;
          },
        )
      where
        tagged_first : ((field_at fields 0).tag == 0) ≡ false
        tagged_first =
            ground
              (arith, tag-field_at fields 0 (HasTags-flat fields flat) (omega (arith, some_field)))
