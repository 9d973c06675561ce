-- ===== src/RoundTrip/Flat/Round.antt =====
-- One round of the loop of pb_decode_noinit in pb_decode.c at the tag of a number that pb_encode.c wrote.
use yum_quest.Base.{
  ℕ, suc, ◌+◌, ◌<◌, ◌≡◌, refl, ap, ◌∙◌, true, false, Option, List, ◌++◌, length, length-append,
  arith, ◌==◌,
}
use mathlib.Core.List.{append_assoc}
use yum_quest.Command.{ok, Cmd, pure, and_then}
use yum_quest.Pb.{ErrMsg}
use yum_quest.Input.{IStream}
use yum_quest.Input.Buffer.{reading}
use yum_quest.Output.{OStream}
use yum_quest.Memory.{Mem}
use yum_quest.Memory.Laws.{SameOutside}
use yum_quest.Field.{Field, field_at}
use yum_quest.Field.Walk.{walk, current-walk}
use yum_quest.Encoder
use yum_quest.Encoder.{pb_encode_tag_for_field}
use yum_quest.Decoding.{TagRead, tagged, pb_decode_tag}
use yum_quest.Decoder
use yum_quest.Decoder.{Decoding, on_stream}
use yum_quest.Decoder.Decodable.{field_at-All}
use yum_quest.Decoder.Fields.{Messages}
use yum_quest.Decoder.Required.{Progress}
use yum_quest.Decoder.Message.{decode_tagged, message_loop}
use yum_quest.Decoder.Bounds.{IsBounded, IsScalar, decoder_for-Unchanged}
use yum_quest.RoundTrip.{Place}
use yum_quest.RoundTrip.Fields.{IsByteMemory}
use yum_quest.RoundTrip.Scalars.{IsNumber}
use yum_quest.RoundTrip.Tags.{number_wire_type}
use yum_quest.RoundTrip.Flat.{IsFlat, IsFlatMessage, data_at, flag_at, IsApart, present}
use yum_quest.RoundTrip.Flat.Entry.{Entry}
use yum_quest.RoundTrip.Flat.Decode.{with_flag, decode_field-number, progress, decode_tagged-number}
use yum_quest.RoundTrip.Flat.Stage.{
  Stage, Stage-written, OnlyIn-written, flag-written, flag-ne-data,
}

IsNumber-IsScalar : (f : Field) → IsNumber f → IsScalar f
IsNumber-IsScalar f h = record {
  no_submessage = λ e. omega (arith, h.number);
  four = h.four;
  eight = h.eight;
}

nonzero : (n : ℕ) → 0 < n → (n == 0) ≡ false
nonzero n h = ground arith

-- One round of the loop over the tags of a message.
message_loop-tagged :
    {S : Type 0} (env : Decoder.Surroundings S) (messages : Messages S) (fuel rounds : ℕ)
    (p p' : Progress) (s s' : IStream S) (to : Mem) (d' : Decoding S) (t : TagRead)
    → 0 < s.bytes_left
    → pb_decode_tag env.reader s ≡ ok (tagged t) s'
    → decode_tagged env messages fuel t p (record { stream = s'; mem = to }) ≡ ok p' d'
    → message_loop env messages fuel (suc rounds) p (record { stream = s; mem = to })
      ≡ message_loop env messages fuel rounds p' d'
unfolding message_loop on_stream
message_loop-tagged env messages fuel rounds p p' s s' to d' t some_byte tag_read done =
    rw (nonzero s.bytes_left some_byte, tag_read, done) refl

same_stream :
    {S : Type 0} (tb vb more rest : List ℕ) (err : Option ErrMsg)
    → reading {S = S} (((tb ++ vb) ++ more) ++ rest) (length ((tb ++ vb) ++ more)) err
      ≡ reading (tb ++ (vb ++ (more ++ rest))) (length tb + (length vb + length more)) err
same_stream tb vb more rest err = simp (append_assoc, length-append)

module _ {S T : Type 0} (denv : Decoder.Surroundings S) (messages : Messages S) (dfuel : ℕ)
    (env : Encoder.Surroundings T) (bytes_in : IsByteMemory env.mem) (fuel : ℕ)
    (submessage : List Field → ℕ → Cmd (OStream T) (Unit {0})) where
  module _ (bounded : IsBounded denv.reader) (fields : List Field) (src dest : ℕ)
      (message : IsFlatMessage fields) (layout : IsApart fields dest) where
    -- One round at the tag of entry `k`, which has a value.
    pub round_here :
        (k : ℕ) (p : Place)
        (e : Entry denv messages env bytes_in fuel submessage
          (field_at fields k)
          (data_at fields src k)
          (data_at fields dest k)
          p)
        (more rest : List ℕ) (err : Option ErrMsg) (to : Mem) (i start rounds : ℕ)
        → k < length fields
        → i < length fields
        → present fields src env.mem k ≡ true
        → Stage fields src env.mem dest k to
        → (to' : Mem) × (message_loop denv messages dfuel
              (suc rounds)
              (progress fields dest i k start)
              (record {
                stream =
                    reading
                      (((e.tag_bytes ++ e.value_bytes) ++ more) ++ rest)
                      (length ((e.tag_bytes ++ e.value_bytes) ++ more))
                      err;
                mem = to;
              })
            ≡ message_loop denv messages dfuel rounds
                (progress fields dest k (suc k) start)
                (record { stream = reading (more ++ rest) (length more) err; mem = to' }))
          × Stage fields src env.mem dest (suc k) to'
    round_here k p e more rest err to i start rounds lt hi here stage =
        let f = field_at fields k in
        let h = field_at-All IsFlat fields k message.flat lt in
        let flagged = with_flag f (flag_at fields dest k) 1 to in
        let left = length e.value_bytes + length more in
        let (to', dec, value) = e.value_read (more ++ rest) (length more) err flagged in
        let same : SameOutside (data_at fields dest k) f.data_size flagged to' = λ a out.
          rw dec at (
            decoder_for-Unchanged denv messages f (data_at fields dest k) a
              (record {
                stream = reading (e.value_bytes ++ (more ++ rest)) left err;
                mem = flagged;
              })
              bounded (IsNumber-IsScalar f h.number) out) in
        (
          to',
          rw (same_stream e.tag_bytes e.value_bytes more rest err) (
              message_loop-tagged denv messages dfuel rounds (progress fields dest i k start)
                (progress fields dest k (suc k) start) _ _ to _ _ (omega (arith, e.some_byte))
                (e.tag_read (e.value_bytes ++ (more ++ rest)) left err)
                (decode_tagged-number denv messages dfuel fields dest message (number_wire_type f) i
                    k start
                    (record {
                      stream = reading (e.value_bytes ++ (more ++ rest)) left err;
                      mem = to;
                    })
                    hi lt
                  ∙ ap (λ o. and_then o (λ _. pure (progress fields dest k (suc k) start)))
                      (decode_field-number denv messages dfuel (number_wire_type f)
                          (walk fields dest k) f
                          (record {
                            stream = reading (e.value_bytes ++ (more ++ rest)) left err;
                            mem = to;
                          })
                          h (current-walk fields dest k) (flag-ne-data fields dest layout k lt h)
                        ∙ dec))),
          Stage-written fields dest layout src env.mem k to to' lt here
              (OnlyIn-written fields dest layout k 1 to to' same) value
              (λ optional.
                flag-written fields dest layout k 1 to to' (omega arith) lt optional same)
              stage,
        )
