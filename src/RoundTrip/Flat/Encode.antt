-- ===== src/RoundTrip/Flat/Encode.antt =====
-- What the loop of pb_encode in pb_encode.c does at each field of a message type of numbers.
use yum_quest.Base.{
  ℕ, zero, suc, ◌+◌, ◌<◌, ◌≡◌, ◌≢◌, refl, sym, ap, ◌∙◌, Bool, true, false, not, List, length, All,
  arith, ◌==◌, if◌then◌else◌, inl, inr,
}
use mathlib.Core.Path.{fun_ext}
use yum_quest.Command.{Outcome, ok, fail, fault, stuck, Cmd, pure, and_then, ◌>>◌}
use yum_quest.Pb.{u64}
use yum_quest.Output.{OStream}
use yum_quest.Memory.{load}
use yum_quest.Field.{Field, Iter, field_at, current, ltype, htype, htype_required, htype_optional}
use yum_quest.Field.Walk.{walk, current-walk, next-walk, next-walk_last}
use yum_quest.Decoder.Decodable.{field_at-All}
use yum_quest.Encoder.{Surroundings}
use yum_quest.Encoder.Fields.{
  encode_one, encode_present, encode_basic_field, encode_field, encode_entry, encode_loop,
}
use yum_quest.RoundTrip.Flat.{
  IsFlat, HasAddresses, HasTags-flat, is_optional, data_at, flag_at, present, flag_at-walk,
}

not-not : (b : Bool) → not (not b) ≡ b
not-not true = refl
not-not false = refl

and_then-pure : {S : Type 0} (o : Outcome S (Unit {0})) → and_then o (λ _. pure tt) ≡ o
and_then-pure (ok tt s) = refl
and_then-pure (fail s) = refl
and_then-pure fault = refl
and_then-pure stuck = refl

module _ {T : Type 0} (env : Surroundings T) (fuel : ℕ)
    (submessage : List Field → ℕ → Cmd (OStream T) (Unit {0})) where
  no_extension : (f : Field) → IsFlat f → (ltype f.type == 8) ≡ false
  no_extension f h = ground (arith, h.number.number)

  encode_entry-number :
      (iter : Iter) (f : Field)
      → IsFlat f
      → current iter ≡ f
      → encode_entry env fuel submessage iter ≡ encode_field env fuel submessage f iter.p_data
  unfolding encode_entry encode_field
  encode_entry-number iter f h e = ground (arith, e, no_extension f h)

  encode_field-required :
      (f : Field) (p : ℕ)
      → IsFlat f
      → htype f.type ≡ htype_required
      → p ≢ 0
      → encode_field env fuel submessage f p ≡ encode_one env fuel submessage f p
  unfolding encode_field encode_basic_field encode_present
  encode_field-required f p h required some_address = ground (arith, h.static)

  encode_field-optional :
      (f : Field) (p : ℕ) (has : Bool)
      → IsFlat f
      → htype f.type ≡ htype_optional
      → (load 1 (u64 (p + f.size_offset)) env.mem == 0) ≡ not has
      → encode_field env fuel submessage f p
        ≡ (if has then encode_one env fuel submessage f p else pure tt)
  unfolding encode_field encode_basic_field encode_present
  encode_field-optional f p has h optional flag = ground (arith, h.static, h.flagged optional)

  module _ (fields : List Field) (src : ℕ) (flat : All IsFlat fields) where
    -- The tag and the value of entry `k`, if it has one.
    abbrev pub encode_if_present : ℕ → Cmd (OStream T) (Unit {0})
    encode_if_present k =
        if present fields src env.mem k
        then encode_one env fuel submessage (field_at fields k) (data_at fields src k)
        else pure tt

    -- The same for the `m` entries from `k` on.
    abbrev pub encode_from : ℕ → ℕ → Cmd (OStream T) (Unit {0})
    encode_from zero k = pure tt
    encode_from (suc m) k = encode_if_present k >> encode_from m (suc k)

    read_flag :
        (k : ℕ)
        → k < length fields
        → (load 1 (u64 (data_at fields src k + (field_at fields k).size_offset)) env.mem == 0)
          ≡ not (not (load 1 (flag_at fields src k) env.mem == 0))
    read_flag k lt =
        ap (λ a. load 1 a env.mem == 0) (sym (flag_at-walk fields src k flat lt))
        ∙ sym (not-not (load 1 (flag_at fields src k) env.mem == 0))

    encode_entry-walk :
        (k : ℕ)
        → k < length fields
        → (is_optional (field_at fields k) ≡ false → data_at fields src k ≢ 0)
        → encode_entry env fuel submessage (walk fields src k) ≡ encode_if_present k
    encode_entry-walk k lt some_address =
        let f = field_at fields k in
        let h = field_at-All IsFlat fields k flat lt in
        encode_entry-number (walk fields src k) f h (current-walk fields src k) ∙ (elim h.once [
          | inl required ↦
              let no : is_optional f ≡ false = rw required refl in
              simp no (encode_field-required f (data_at fields src k) h required (some_address no))
          | inr optional ↦
              let yes_optional : is_optional f ≡ true = rw optional refl in
              simp yes_optional (
                encode_field-optional f (data_at fields src k)
                  (not (load 1 (flag_at fields src k) env.mem == 0)) h optional (read_flag k lt))
        ])

    pub encode_loop-walk :
        (rounds m k : ℕ) (s : OStream T)
        → HasAddresses fields src
        → k + suc m ≡ length fields
        → m < rounds
        → encode_loop env fuel submessage rounds (walk fields src k) s ≡ encode_from (suc m) k s
    unfolding encode_loop
    encode_loop-walk zero m k s some_address e lt = absurd (omega arith)
    encode_loop-walk (suc rounds) zero k s some_address e lt =
        rw
          (
            next-walk_last fields src k (HasTags-flat fields flat) (omega arith),
            encode_entry-walk k (omega arith) (some_address k (omega arith)),
          )
          (sym (and_then-pure (encode_if_present k s)))
    encode_loop-walk (suc rounds) (suc m) k s some_address e lt =
        rw
          (
            next-walk fields src k (HasTags-flat fields flat) (omega arith),
            encode_entry-walk k (omega arith) (some_address k (omega arith)),
          )
          (ap (and_then (encode_if_present k s)) (
            fun_ext λ _.
              fun_ext λ s'.
                encode_loop-walk rounds m (suc k) s' some_address (omega arith) (omega arith)))
