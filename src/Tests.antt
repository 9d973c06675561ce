-- ===== src/Tests.antt =====
-- The theorems on YumQuest/Pods/nanopb at concrete inputs.
use yum_quest.Base.{
  ◌-◌, ◌^◌, ◌≡◌, ◌==◌, if◌then◌else◌, refl, none, ℕ, ◌++◌, List, [], ◌∷◌, arith, length,
}
use yum_quest.Samples.{no_reader, no_writer, place, name_field}
use yum_quest.Command.{ok, fail}
use yum_quest.Input.Buffer.{reading}
use yum_quest.Output.{OStream, pb_write}
use yum_quest.Memory.{Mem, load}
use yum_quest.Varint.{pb_decode_varint, pb_decode_varint32, pb_decode_svarint}
use yum_quest.Varint.Format.{varint_bytes}
use yum_quest.Encoding.{pb_encode_varint, pb_encode_svarint, pb_encode_tag}
use yum_quest.Encoding.Varint.{pb_encode_varint-groups}
use yum_quest.Decoding.{tagged, at_eof, pb_skip_field, pb_decode_tag}
use yum_quest.Pb.{wt_varint, set_error, end_of_stream}
use yum_quest.Decoding.Tag.{pb_decode_tag-end}
use yum_quest.Decoder.Required.{check_seen, missing}
use yum_quest.Decoder.Required.Words.{marked}
use yum_quest.Decoder.Required.Seen.{check_seen-marked, check_seen-marked_32}
use yum_quest.Encoder.{pb_enc_uvarint, pb_enc_fixed32, pb_enc_fixed64}
use yum_quest.Decoder.Values.{pb_dec_uvarint, pb_dec_fixed32, pb_dec_fixed64}
use yum_quest.RoundTrip.Skip.{skip_varint_round_trip}
use yum_quest.RoundTrip.{HasRoom, ReadsBack}
use yum_quest.RoundTrip.Numbers.{
  varint_round_trip, varint32_round_trip, svarint_round_trip, tag_round_trip,
}
use yum_quest.Field.{Field, pb_field_iter_find}
use yum_quest.Field.Walk.{walk}
use yum_quest.Field.Find.{Finds, pb_field_iter_find-Finds}
use yum_quest.Output.Buffer.{counting, writing}
use yum_quest.Encoder
use yum_quest.Encoder.Message.{pb_get_encoded_size, pb_encode, pb_encode_delimited}
use yum_quest.Encoder.Uniform.{Uniform-pure}
use yum_quest.Encoder.Uniform.Fields.{IsUniform}
use yum_quest.Encoder.Uniform.Message.{
  Fills, pb_encode-pb_get_encoded_size, pb_encode_delimited-pb_encode,
}
use yum_quest.Decoder.{Surroundings, Decoding}
use yum_quest.Decoder.Fields.{Messages, decoder_for}
use yum_quest.Decoder.Bounds.{IsBounded, IsScalar, Unchanged, decoder_for-Unchanged}

place-HasRoom : HasRoom place 10
place-HasRoom = record { in_array = omega arith; in_limit = omega arith; size_t = omega arith }

varint_round_trip_example :
    ReadsBack (pb_encode_varint no_writer 300) (pb_decode_varint no_reader) 300 place
varint_round_trip_example =
    varint_round_trip no_reader no_writer 300 place (omega arith) place-HasRoom

varint32_round_trip_example :
    ReadsBack (pb_encode_varint no_writer 300) (pb_decode_varint32 no_reader) 300 place
varint32_round_trip_example =
    varint32_round_trip no_reader no_writer 300 place (omega arith) place-HasRoom

-- The int64_t -2.
svarint_round_trip_example :
    ReadsBack
      (pb_encode_svarint no_writer (2 ^ 64 - 2))
      (pb_decode_svarint no_reader)
      (2 ^ 64 - 2)
      place
svarint_round_trip_example =
    svarint_round_trip no_reader no_writer (2 ^ 64 - 2) place (omega arith) place-HasRoom

tag_round_trip_example :
    ReadsBack
      (pb_encode_tag no_writer 2 17)
      (pb_decode_tag no_reader)
      (tagged (record { wire_type = 2; tag = 17 }))
      place
tag_round_trip_example =
    tag_round_trip no_reader no_writer 2 17 place (omega arith) (omega arith) (omega arith)
      place-HasRoom

pb_encode_varint-groups_example :
    pb_encode_varint no_writer 300
    ≡ pb_write no_writer (varint_bytes 300) (length (varint_bytes 300))
pb_encode_varint-groups_example = pb_encode_varint-groups no_writer 300 (omega arith)

-- A required int32.
abbrev number_field : Field
number_field = record {
  tag = 1;
  type = 0x00;
  data_offset = 0;
  size_offset = 0;
  data_size = 4;
  array_size = 0;
  ptr = 0;
}

abbrev two_fields : List Field
two_fields = number_field ∷ name_field ∷ []

pb_field_iter_find-Finds_example :
    Finds two_fields 1000 1 1 (pb_field_iter_find (walk two_fields 1000 1) 1)
pb_field_iter_find-Finds_example =
    pb_field_iter_find-Finds two_fields 1000 1 (λ e. ground arith, (λ e. ground arith, tt)) 1
      (omega arith)

abbrev surroundings : Surroundings (Unit {0})
surroundings = record {
  reader = no_reader;
  fields_at = λ p. [];
  extension_type_at = λ p. record { decode = none; arg = [] };
  callback_at = λ p f arg. ok tt;
}

abbrev no_messages : Messages (Unit {0})
no_messages = record {
  decode = λ fs p. fail;
  decode_noinit = λ fs p. fail;
  set_to_defaults = λ fs p. fail;
}

abbrev zeros : Mem
zeros a = 0

abbrev name_input : Decoding (Unit {0})
name_input = record { stream = reading (2 ∷ 104 ∷ 105 ∷ []) 3 none; mem = zeros }

no_reader-IsBounded : IsBounded no_reader
no_reader-IsBounded = record { at_most = λ u left count. omega arith }

name_field-IsScalar : IsScalar name_field
name_field-IsScalar = record {
  no_submessage = λ e. ground arith;
  four = λ e. ground arith;
  eight = λ e. ground arith;
}

decoder_for-Unchanged_example :
    Unchanged 1008 zeros (decoder_for surroundings no_messages name_field 1000 name_input)
decoder_for-Unchanged_example =
    decoder_for-Unchanged surroundings no_messages name_field 1000 1008 name_input
      no_reader-IsBounded name_field-IsScalar refl

-- A struct at address 1000 whose int32 is 300.
abbrev three_hundred : Mem
three_hundred a = if a == 1000 then 44 else if a == 1001 then 1 else 0

abbrev encoder : Encoder.Surroundings (Unit {0})
encoder = record {
  writer = no_writer;
  mem = three_hundred;
  fields_at = λ p. [];
  extension_type_at = λ p. record { encode = none; arg = [] };
  callback_at = λ p f arg. ok tt;
}

encoder-IsUniform : IsUniform encoder
encoder-IsUniform = record { callbacks = λ a f arg. Uniform-pure; handlers = λ a. tt }

encoder-size : pb_get_encoded_size encoder 2 (number_field ∷ []) 1000 ≡ ok 3 (counting 0 3 none)
unfolding pb_get_encoded_size yum_quest.Field.pb_field_iter_begin
    yum_quest.Encoder.Fields.encode_loop yum_quest.Field.pb_field_iter_next
    Encoder.pb_encode_tag_for_field pb_encode_tag pb_encode_varint pb_write Encoder.pb_enc_varint
    yum_quest.Decoder.Values.sign_extend yum_quest.Memory.load
encoder-size = refl

abbrev first_buffer : OStream (Unit {0})
first_buffer = writing (8 ∷ 172 ∷ 2 ∷ []) 5 8 3 none

encoder-run :
    pb_encode encoder 2 (number_field ∷ []) 1000 (writing [] 8 8 0 none) ≡ ok tt first_buffer
unfolding pb_encode yum_quest.Field.pb_field_iter_begin yum_quest.Encoder.Fields.encode_loop
    yum_quest.Field.pb_field_iter_next Encoder.pb_encode_tag_for_field pb_encode_tag
    pb_encode_varint pb_write Encoder.pb_enc_varint yum_quest.Decoder.Values.sign_extend
    yum_quest.Memory.load
encoder-run = refl

pb_encode-pb_get_encoded_size_example :
    (bytes : List ℕ) × (length bytes ≡ 3)
    × (first_buffer ≡ writing bytes 5 8 3 none)
    × Fills (pb_encode encoder 2 (number_field ∷ []) 1000) bytes (9 ∷ []) 5 10 1
pb_encode-pb_get_encoded_size_example =
    pb_encode-pb_get_encoded_size encoder 2 (number_field ∷ []) 1000 3 (counting 0 3 none)
      first_buffer [] (9 ∷ []) 8 8 0 5 10 1 encoder-IsUniform encoder-size encoder-run
      (record { in_memory = omega arith; in_limit = omega arith; size_t = omega arith })
      (record { in_memory = omega arith; in_limit = omega arith; size_t = omega arith })

pb_encode_delimited-pb_encode_example :
    (bytes : List ℕ) × (length bytes ≡ 3)
    × (first_buffer ≡ writing bytes 5 8 3 none)
    × Fills
        (pb_encode_delimited encoder 2 (number_field ∷ []) 1000)
        (varint_bytes 3 ++ bytes)
        (9 ∷ [])
        5
        10
        1
pb_encode_delimited-pb_encode_example =
    pb_encode_delimited-pb_encode encoder 2 (number_field ∷ []) 1000 3 (counting 0 3 none)
      first_buffer [] (9 ∷ []) 8 8 0 5 10 1 encoder-IsUniform encoder-size encoder-run
      (record { in_memory = omega arith; in_limit = omega arith; size_t = omega arith })
      (record { in_memory = omega arith; in_limit = omega arith; size_t = omega arith })

-- The first byte of a tag of two bytes, and no more.
pb_decode_tag-end_example :
    pb_decode_tag no_reader (reading (170 ∷ 7 ∷ []) 1 none)
    ≡ ok at_eof (reading (7 ∷ []) 0 (set_error none end_of_stream))
pb_decode_tag-end_example =
    pb_decode_tag-end no_reader (170 ∷ []) (7 ∷ []) none ((omega arith, omega arith), tt)
      (omega arith)

check_seen-marked_example : check_seen 3 (marked (2 ∷ 0 ∷ [])) ≡ missing
check_seen-marked_example =
    check_seen-marked 3 (2 ∷ 0 ∷ []) (omega arith) (λ e. ground arith)
      (omega arith, (omega arith, tt))

check_seen-marked_32_example : check_seen 32 (marked (5 ∷ [])) ≡ missing
check_seen-marked_32_example = check_seen-marked_32 (5 ∷ []) (omega arith, tt)

skip_varint_round_trip_example :
    ReadsBack (pb_encode_varint no_writer 300) (pb_skip_field no_reader wt_varint) tt place
skip_varint_round_trip_example =
    skip_varint_round_trip no_reader no_writer 300 place (omega arith) place-HasRoom
