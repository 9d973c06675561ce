-- ===== src/Decoder/Runs/Fields.antt =====
-- decode_field of pb_decode.c always answers, where the message level does for submessages.
use yum_quest.Base.{
  ℕ, zero, suc, ◌+◌, ◌<◌, ◌&&◌, List, arith, ltb, leb, ◌==◌, if◌then◌else◌, Bool-cases, inl, inr,
}
use yum_quest.Command.{pure, ◌>>◌}
use yum_quest.Pb.{wt_string, array_overflow, invalid_field_type, no_malloc_support}
use yum_quest.Input.Runs.{
  Covers, SomeValue, Runs-weaken, Runs-bind, Runs-pure, Runs-if, Runs-either, Answers-then,
}
use yum_quest.Input.Runs.Read.{Delivers}
use yum_quest.Decoding.{pb_close_string_substream}
use yum_quest.Memory.{load, store, clear}
use yum_quest.Field.{
  Field, Iter, current, atype, htype, ltype, atype_static, atype_pointer, atype_callback,
  htype_required, htype_optional, htype_repeated, htype_oneof, ltype_submessage,
  ltype_last_packable,
}
use yum_quest.Decoder.{Decoding, Surroundings, on_stream, return_error as error, write, answer}
use yum_quest.Decoder.Decodable.{IsDecoded}
use yum_quest.Decoder.Fields.{
  Messages, decoder_for, item_at, count_item, packed_loop, decode_packed, decode_item,
  decode_static_field, decode_pointer_field, decode_field,
}
use yum_quest.Decoder.Runs.{Decodes, DecodedFrom, Decodes-error, Decodes-write, Decodes-then}
use yum_quest.Decoder.Runs.Substream.{Decodes-substream, close-Decodes, answer-Decodes}
use yum_quest.Decoder.Runs.Elements.{eq_of_==, Nested, decoder_for-Decodes}

module _ {S : Type 0} (env : Surroundings S) (messages : Messages S) (Sub : List Field → Type 0)
    (delivers : Delivers env.reader) (nested : Nested Sub messages) where
  count_item-Decodes : (iter : Iter) → Decodes {S = S} 0 (count_item env messages iter)
  unfolding count_item
  count_item-Decodes iter = Decodes-write _

  -- A round of the loop over a packed array reads a byte at least.
  packed_loop_at :
      (rounds c : ℕ) (iter : Iter) (d : Decoding S)
      → IsDecoded env Sub (current iter)
      → Covers c d.stream
      → d.stream.bytes_left < rounds
      → DecodedFrom c d.stream.bytes_left 0 (packed_loop env messages rounds iter d)
  unfolding packed_loop
  packed_loop_at zero c iter d h cov lt = absurd (omega arith)
  packed_loop_at (suc rounds) c iter d h cov lt =
      elim (Bool-cases
        (ltb 0 d.stream.bytes_left && ltb (load 4 iter.p_size d.mem) (current iter).array_size)) [
          | inl more ↦ rw more (
              Answers-then (λ (d : Decoding S). d.stream) SomeValue _ c d.stream.bytes_left 1 0 0
                ((decoder_for env messages (current iter) (item_at env messages iter d)
                    >> count_item env messages iter)
                  d)
                (omega arith)
                ((Runs-bind 1
                    (decoder_for-Decodes env messages Sub delivers nested (current iter)
                      (item_at env messages iter d) h)
                    (λ _ _. count_item-Decodes iter)).at
                  c d cov)
                (λ _ t cov' less _. packed_loop_at rounds c iter t h cov' (omega arith)))
          | inr end ↦ rw end (cov, omega arith, tt)
        ]

  decode_packed-Decodes :
      (iter : Iter) → IsDecoded env Sub (current iter) → Decodes 1 (decode_packed env messages iter)
  unfolding decode_packed
  decode_packed-Decodes iter h =
      Decodes-substream env.reader delivers
        (λ sub. packed_loop env messages (sub.bytes_left + 1) iter)
        (λ r.
          if r.1.bytes_left == 0
          then on_stream (pb_close_string_substream env.reader r.1) >> answer r.0
          else error array_overflow)
        (λ c sub mem cov.
          packed_loop_at (sub.bytes_left + 1) c iter (record { stream = sub; mem = mem }) h cov
            (omega arith))
        (λ c r d cov behind. elim (Bool-cases (r.1.bytes_left == 0)) [
          | inl e ↦ rw e (
              close-Decodes env.reader delivers (answer r.0) c r.1 d
                (answer-Decodes env.reader delivers r.0) cov behind)
          | inr e ↦ rw e ((Decodes-error 0 array_overflow).at c d cov)
        ])

  decode_item-Decodes :
      (iter : Iter) → IsDecoded env Sub (current iter) → Decodes 0 (decode_item env messages iter)
  unfolding decode_item
  decode_item-Decodes iter h = record {
    at = λ c d cov. elim (Bool-cases (leb (current iter).array_size (load 4 iter.p_size d.mem))) [
      | inl full ↦ rw full ((Decodes-error 0 array_overflow).at c d cov)
      | inr room ↦ rw room (
          (Decodes-then 0 (count_item-Decodes iter) (decoded_at (item_at env messages iter d))).at c
            d cov)
    ];
  }
    where
      decoded_at : (p : ℕ) → Decodes 0 (decoder_for env messages (current iter) p)
      decoded_at p =
          Runs-weaken 1 0 (omega arith) (λ _ t. t)
            (decoder_for-Decodes env messages Sub delivers nested (current iter) p h)

  -- What a member of a union is cleared to before it is decoded.
  fresh-Decodes :
      (iter : Iter)
      → IsDecoded env Sub (current iter)
      → Decodes 0 (
          if ltype (current iter).type == ltype_submessage
          then write (clear iter.p_data (current iter).data_size)
            >> messages.set_to_defaults (env.fields_at (current iter).ptr) iter.p_data
          else pure tt)
  fresh-Decodes iter h =
      Runs-if 0 (ltype (current iter).type == ltype_submessage)
        (λ e.
          Decodes-then 0 (Decodes-write _)
            (nested.set_to_defaults _ iter.p_data (h.submessage (eq_of_== _ ltype_submessage e))))
        (λ e. Runs-pure tt tt)

  decode_static_field-Decodes :
      (wire_type : ℕ) (iter : Iter)
      → IsDecoded env Sub (current iter)
      → Decodes 0 (decode_static_field env messages wire_type iter)
  unfolding decode_static_field
  decode_static_field-Decodes wire_type iter h =
      let func : Decodes 0 (decoder_for env messages (current iter) iter.p_data) =
        Runs-weaken 1 0 (omega arith) (λ _ t. t)
          (decoder_for-Decodes env messages Sub delivers nested (current iter) iter.p_data h) in
      let h_type = htype (current iter).type in
      Runs-either 0 (h_type == htype_required) func (
        Runs-either 0 (h_type == htype_optional) (Decodes-then 0 (has_written iter) func) (
          Runs-either 0 (h_type == htype_repeated)
            (Runs-either 0
              (wire_type == wt_string && leb (ltype (current iter).type) ltype_last_packable)
              (Runs-weaken 1 0 (omega arith) (λ _ t. t) (decode_packed-Decodes iter h))
              (decode_item-Decodes iter h))
            (Runs-either 0 (h_type == htype_oneof)
              (Decodes-then 0
                (Decodes-then 0 (Decodes-write (store 4 iter.p_size (current iter).tag))
                  (fresh-Decodes iter h))
                func)
              (Decodes-error 0 invalid_field_type))))
    where
      has_written :
          (iter : Iter)
          → Decodes {S = S} 0
              (if iter.p_size == iter.p_data then pure tt else write (store 1 iter.p_size 1))
      has_written iter =
          Runs-either 0 (iter.p_size == iter.p_data) (Runs-pure tt tt) (Decodes-write _)

  pub decode_field-Decodes :
      (fuel wire_type : ℕ) (iter : Iter)
      → IsDecoded env Sub (current iter)
      → Decodes 0 (decode_field env messages fuel wire_type iter)
  unfolding decode_field decode_pointer_field
  decode_field-Decodes fuel wire_type iter h =
      Runs-either 0 (atype (current iter).type == atype_static)
        (decode_static_field-Decodes wire_type iter h)
        (Runs-either 0 (atype (current iter).type == atype_pointer)
          (Decodes-error 0 no_malloc_support)
          (Runs-if 0 (atype (current iter).type == atype_callback)
            (λ e. absurd (h.no_callback (eq_of_== _ atype_callback e)))
            (λ e. Decodes-error 0 invalid_field_type)))
