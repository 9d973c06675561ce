-- ===== src/RoundTrip/Flat/Tests.antt =====
-- The theorem on messages of numbers of YumQuest/Pods/nanopb at concrete inputs.
use yum_quest.Base.{
  ℕ, zero, suc, ◌+◌, ◌-◌, ◌^◌, ◌<◌, ◌≡◌, refl, none, true, false, [], ◌∷◌, arith, All, inl, inr,
  if◌then◌else◌, ◌==◌, length, List, ◌++◌,
}
use yum_quest.Samples.{no_reader, no_writer}
use yum_quest.Command.{ok}
use yum_quest.Memory.{Mem}
use yum_quest.Input.Buffer.{reading}
use yum_quest.Field.{Field, field_at, begin_iter, advance}
use yum_quest.Field.Walk.{walk}
use yum_quest.Encoder
use yum_quest.Encoder.Message.{pb_encode}
use yum_quest.Decoder
use yum_quest.Decoder.Bounds.{IsBounded}
use yum_quest.Decoder.Message.{pb_decode, pb_decode_delimited}
use yum_quest.Varint.Format.{varint_bytes}
use yum_quest.RoundTrip.{Place}
use yum_quest.RoundTrip.Carries.{Writes}
use yum_quest.RoundTrip.Flat.{
  IsFlat, IsFlatMessage, IsApart, IsCopied, HasAddresses, is_optional, owns, data_at, flag_at,
}
use yum_quest.Memory.Laws.{inside}
use yum_quest.RoundTrip.Flat.Decode.{below}
use yum_quest.RoundTrip.Flat.Message.{message_round_trip, delimited_round_trip}

-- A required uint32_t at offset 0, and an optional fixed32 at offset 8 with its flag at offset 4.
abbrev count_field : Field
count_field = record {
  tag = 1;
  type = 0x01;
  data_offset = 0;
  size_offset = 0;
  data_size = 4;
  array_size = 0;
  ptr = 0;
}

abbrev limit_field : Field
limit_field = record {
  tag = 2;
  type = 0x13;
  data_offset = 4;
  size_offset = 2 ^ 64 - 4;
  data_size = 4;
  array_size = 0;
  ptr = 0;
}

abbrev fields : List Field
fields = count_field ∷ limit_field ∷ []

-- The struct at address 2000: 300, and 7 with its flag.
abbrev struct_mem : Mem
struct_mem a =
    if a == 2000
    then 44
    else if a == 2001
    then 1
    else if a == 2004
    then 1
    else if a == 2008
    then 7
    else 0

abbrev encoder : Encoder.Surroundings (Unit {0})
encoder = record {
  writer = no_writer;
  mem = struct_mem;
  fields_at = λ p. [];
  extension_type_at = λ p. record { encode = none; arg = [] };
  callback_at = λ p f arg. ok tt;
}

abbrev decoder : Decoder.Surroundings (Unit {0})
decoder = record {
  reader = no_reader;
  fields_at = λ p. [];
  extension_type_at = λ p. record { decode = none; arg = [] };
  callback_at = λ p f arg. ok tt;
}

abbrev buffer_place : Place
buffer_place = record {
  out = [];
  room = 40;
  max_size = 40;
  written = 0;
  out_err = none;
  rest = 9 ∷ [];
  left = 0;
  in_err = none;
}

-- What is left of the memory of the struct before.
abbrev junk : Mem
junk a = 255

no_reader-IsBounded : IsBounded no_reader
no_reader-IsBounded = record { at_most = λ u left count. omega arith }

struct_mem-bytes : (a : ℕ) → struct_mem a < 256
struct_mem-bytes a = ground arith

count-IsFlat : IsFlat count_field
count-IsFlat = record {
  static = refl;
  once = inl refl;
  number = record {
    number = omega arith;
    sized = λ _. refl;
    four = λ e. absurd (omega arith);
    eight = λ e. absurd (omega arith);
  };
  tag_pos = omega arith;
  tag_limit = omega arith;
  flagged = λ e. absurd (omega arith);
}

limit-IsFlat : IsFlat limit_field
limit-IsFlat = record {
  static = refl;
  once = inr refl;
  number = record {
    number = omega arith;
    sized = λ h. absurd (omega arith);
    four = λ _. refl;
    eight = λ e. absurd (omega arith);
  };
  tag_pos = omega arith;
  tag_limit = omega arith;
  flagged = λ e. λ z. omega arith;
}

fields-IsFlatMessage : IsFlatMessage fields
fields-IsFlatMessage = record {
  some_field = omega arith;
  flat = (count-IsFlat, (limit-IsFlat, tt));
  distinct = different;
  checked = record { below = omega arith; no_full_word = λ e. absurd (omega arith) };
}
  where
    different :
        (j k : ℕ) → j < 2 → k < 2 → (field_at fields j).tag ≡ (field_at fields k).tag → j ≡ k
    different zero zero hj hk e = refl
    different zero (suc zero) hj hk e = absurd (omega arith)
    different (suc zero) zero hj hk e = absurd (omega arith)
    different (suc zero) (suc zero) hj hk e = refl
    different (suc (suc j)) k hj hk e = absurd (omega arith)
    different zero (suc (suc k)) hj hk e = absurd (omega arith)
    different (suc zero) (suc (suc k)) hj hk e = absurd (omega arith)

fields-IsApart : IsApart fields 1000
unfolding walk begin_iter advance
fields-IsApart = record { apart = one_owner; flag_outside = outside }
  where
    one_owner :
        (j k a : ℕ)
        → j < 2
        → k < 2
        → owns fields 1000 j a ≡ true
        → owns fields 1000 k a ≡ true
        → j ≡ k
    one_owner zero zero a hj hk e e' = refl
    one_owner zero (suc zero) a hj hk e e' = absurd (ground arith)
    one_owner (suc zero) zero a hj hk e e' = absurd (ground arith)
    one_owner (suc zero) (suc zero) a hj hk e e' = refl
    one_owner (suc (suc j)) k a hj hk e e' = absurd (omega arith)
    one_owner zero (suc (suc k)) a hj hk e e' = absurd (omega arith)
    one_owner (suc zero) (suc (suc k)) a hj hk e e' = absurd (omega arith)

    outside :
        (k : ℕ)
        → k < 2
        → is_optional (field_at fields k) ≡ true
        → inside (data_at fields 1000 k) (field_at fields k).data_size (flag_at fields 1000 k)
          ≡ false
    outside zero hk e = absurd (ground arith)
    outside (suc zero) hk e = refl
    outside (suc (suc k)) hk e = absurd (omega arith)

fields-HasAddresses : HasAddresses fields 2000
unfolding walk begin_iter advance
fields-HasAddresses zero lt required e = omega arith
fields-HasAddresses (suc zero) lt required e = absurd (ground arith)
fields-HasAddresses (suc (suc j)) lt required e = absurd (omega arith)

message_round_trip_example :
    (bytes : List ℕ) × Writes (pb_encode encoder 2 fields 2000) buffer_place bytes
    × (to' : Mem) × (pb_decode decoder 3 fields 1000
          (record { stream = reading (bytes ++ 9 ∷ []) (length bytes) none; mem = junk })
        ≡ ok tt (record { stream = reading (9 ∷ []) 0 none; mem = to' }))
    × All (IsCopied fields 2000 struct_mem 1000 to') (below 2)
message_round_trip_example =
    message_round_trip decoder encoder fields 2000 1000 1 2 buffer_place junk struct_mem-bytes
      no_reader-IsBounded fields-IsFlatMessage fields-IsApart fields-HasAddresses
      (record { in_array = omega arith; in_limit = omega arith; size_t = omega arith })

-- One byte more may be read behind the message.
abbrev delimited_place : Place
delimited_place = record buffer_place { left = 1 }

delimited_round_trip_example :
    (bytes : List ℕ) × Writes (pb_encode encoder 2 fields 2000) delimited_place bytes
    × (to' : Mem) × (pb_decode_delimited decoder 3 fields 1000 (record {
      stream =
          reading
            (varint_bytes (length bytes) ++ (bytes ++ 9 ∷ []))
            (length (varint_bytes (length bytes)) + (length bytes + 1))
            none;
      mem = junk;
    })
        ≡ ok tt (record { stream = reading (9 ∷ []) 1 none; mem = to' }))
    × All (IsCopied fields 2000 struct_mem 1000 to') (below 2)
delimited_round_trip_example =
    delimited_round_trip decoder encoder fields 2000 1000 1 2 delimited_place junk struct_mem-bytes
      no_reader-IsBounded fields-IsFlatMessage fields-IsApart fields-HasAddresses
      (record { in_array = omega arith; in_limit = omega arith; size_t = omega arith })
      (omega arith)
