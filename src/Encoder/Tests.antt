-- ===== src/Encoder/Tests.antt =====
-- The theorem on fields without a flag of YumQuest/Pods/nanopb/pb_encode.c at a concrete input.
use yum_quest.Base.{ℕ, ◌-◌, ◌^◌, ◌≡◌, refl, none, [], ◌∷◌, List, arith, ◌==◌, if◌then◌else◌}
use yum_quest.Samples.{no_writer, name_field}
use yum_quest.Command.{ok, Cmd}
use yum_quest.Memory.{Mem}
use yum_quest.Output.{OStream, pb_ostream_sizing}
use yum_quest.Field.{Field, begin_iter, advance, struct_size, same_union}
use yum_quest.Field.Walk.{walk}
use yum_quest.Encoder
use yum_quest.Encoder.Fields.{encode_basic_field}
use yum_quest.Encoder.Implicit.{encode_basic_field-implicit}

-- An array of at most two uint32_t behind its count.
abbrev array_field : Field
array_field = record name_field {
  tag = 1;
  type = 0x21;
  data_offset = 4;
  size_offset = 2 ^ 64 - 4;
  data_size = 4;
  array_size = 2;
}

-- A submessage of 12 bytes without a flag, whose message type has the array.
abbrev message_field : Field
message_field = record name_field { tag = 3; type = 0x17; data_size = 12; ptr = 1 }

-- The submessage at address 1000: the array has the two numbers 0 and 5.
abbrev zero_and_five : Mem
zero_and_five a = if a == 1000 then 2 else if a == 1008 then 5 else 0

abbrev encoder : Encoder.Surroundings (Unit {0})
encoder = record {
  writer = no_writer;
  mem = zero_and_five;
  fields_at = λ p. array_field ∷ [];
  extension_type_at = λ p. record { encode = none; arg = [] };
  callback_at = λ p f arg. ok tt;
}

abbrev no_messages : List Field → ℕ → Cmd (OStream (Unit {0})) (Unit {0})
no_messages fields p = ok tt

-- The array is not written.
encode_basic_field-implicit_example :
    encode_basic_field encoder 2 no_messages message_field 1000 (pb_ostream_sizing {T = Unit {0}})
    ≡ ok tt pb_ostream_sizing
unfolding yum_quest.Memory.load walk begin_iter advance struct_size same_union
encode_basic_field-implicit_example =
    encode_basic_field-implicit encoder 0 no_messages message_field 1000 pb_ostream_sizing refl refl
      refl refl (omega arith) (λ e. omega (arith, e)) ((refl, omega arith, omega arith), tt)
