-- ===== src/Decoder/Tests.antt =====
-- The theorems on the message level of YumQuest/Pods/nanopb/pb_decode.c at a concrete message: a number
-- and a submessage with a number, both required.
use yum_quest.Base.{
  ℕ, zero, suc, ◌<◌, ◌≡◌, refl, ap, true, none, some, List, [], ◌∷◌, length, replicate, arith,
}
use yum_quest.Command.{ok}
use yum_quest.Input.{Reader}
use yum_quest.Input.Buffer.{reading}
use yum_quest.Input.Runs.{AreBytes}
use yum_quest.Input.Runs.Read.{Delivers}
use yum_quest.Field.{Field}
use yum_quest.Field.Walk.{walk}
use yum_quest.Decoder.{Surroundings, Decoding}
use yum_quest.Decoder.Decodable.{IsDecoded, IsChecked, Decodable}
use yum_quest.Decoder.Required.{req_field_count}
use yum_quest.Decoder.Required.Count.{req_field_count-walk}
use yum_quest.Decoder.Message.{pb_decode}
use yum_quest.Decoder.Runs.{DecodedFrom}
use yum_quest.Decoder.Runs.Total.{pb_decode-DecodedFrom}

-- A callback whose stream is zeros.
abbrev zero_reader : Reader (Unit {0})
zero_reader =
    λ u left count. record { done = true; bytes = replicate count 0; state = u; bytes_left = left }

length_zeros : (n : ℕ) → length {A = ℕ} (replicate n 0) ≡ n
length_zeros zero = refl
length_zeros (suc n) = ap suc (length_zeros n)

zeros-AreBytes : (n : ℕ) → AreBytes (replicate n 0)
zeros-AreBytes zero = tt
zeros-AreBytes (suc n) = (omega arith, zeros-AreBytes n)

zero_reader-Delivers : Delivers zero_reader
zero_reader-Delivers = record {
  stored = λ u left count done. (length_zeros count, zeros-AreBytes count, refl);
  no_more = λ u left count. omega arith;
}

abbrev number : Field
number = record {
  tag = 1;
  type = 0x01;
  data_offset = 0;
  size_offset = 0;
  data_size = 4;
  array_size = 0;
  ptr = 0;
}

abbrev nested_number : Field
nested_number = record {
  tag = 2;
  type = 0x07;
  data_offset = 0;
  size_offset = 0;
  data_size = 4;
  array_size = 0;
  ptr = 500;
}

abbrev outer : List Field
outer = number ∷ nested_number ∷ []

abbrev surroundings : Surroundings (Unit {0})
surroundings = record {
  reader = zero_reader;
  fields_at = λ p. number ∷ [];
  extension_type_at = λ p. record { decode = none; arg = [] };
  callback_at = λ p f arg. ok tt;
}

number-IsDecoded : (Sub : List Field → Type 0) → IsDecoded surroundings Sub number
number-IsDecoded Sub = record {
  known = omega arith;
  no_extension = λ e. ground (arith, e);
  no_callback = λ e. ground (arith, e);
  submessage = λ e. absurd (ground (arith, e));
}

one-IsChecked : (n : ℕ) → 0 < n → n < 32 → IsChecked n
one-IsChecked n pos lt = record { below = omega arith; no_full_word = λ e. omega arith }

inner-Decodable : Decodable surroundings 1 (number ∷ [])
inner-Decodable = (
  ((λ e. ground arith), tt),
  omega arith,
  (number-IsDecoded (Decodable surroundings 0), tt),
  one-IsChecked 1 (omega arith) (omega arith),
)

outer-Decodable : Decodable surroundings 2 outer
outer-Decodable = (
  ((λ e. ground arith), ((λ e. ground arith), tt)),
  omega arith,
  (
    number-IsDecoded (Decodable surroundings 1),
    (
      record {
        known = omega arith;
        no_extension = λ e. ground (arith, e);
        no_callback = λ e. ground (arith, e);
        submessage = λ e. inner-Decodable;
      },
      tt,
    ),
  ),
  one-IsChecked 2 (omega arith) (omega arith),
)

abbrev input : Decoding (Unit {0})
input = record { stream = reading (8 ∷ 150 ∷ 1 ∷ 18 ∷ 2 ∷ 8 ∷ 5 ∷ []) 7 none; mem = λ a. 0 }

input-AreBytes : AreBytes (8 ∷ 150 ∷ 1 ∷ 18 ∷ 2 ∷ 8 ∷ 5 ∷ [])
input-AreBytes = (
  omega arith,
  (omega arith, (omega arith, (omega arith, (omega arith, (omega arith, (omega arith, tt)))))),
)

pb_decode-DecodedFrom_example : DecodedFrom 0 7 0 (pb_decode surroundings 2 outer 1000 input)
pb_decode-DecodedFrom_example =
    pb_decode-DecodedFrom surroundings zero_reader-Delivers 2 outer 1000 input outer-Decodable
      (omega arith, input-AreBytes)

req_field_count-walk_example : req_field_count (walk outer 1000 1) ≡ some 2
req_field_count-walk_example = req_field_count-walk outer 1000 outer-Decodable.0 1 (omega arith)
