-- ===== src/Decoder/Runs.antt =====
-- Runs of the decoder of pb_decode.c on the stream and the memory, and its decoders of one value, which
-- always answer.
pub mod Defaults
pub mod Substream
pub mod Search
pub mod Elements
pub mod Fields
pub mod Message
pub mod Total
use yum_quest.Base.{
  ℕ, suc, ◌+◌, ◌-◌, ◌%◌, ◌^◌, ◌≤◌, ◌<◌, ◌≡◌, refl, Bool, true, false, List, [], ◌∷◌, length, arith,
  ◌||◌, ltb, ◌==◌, if◌then◌else◌,
}
use yum_quest.Command.{Outcome, ok, fail, fault, stuck, Cmd, and_then, pure, ◌>>=◌, ◌>>◌}
use yum_quest.Pb.{
  ErrMsg, u32, pb_size_max, invalid_data_size, integer_too_large, bytes_overflow, size_too_large,
  string_overflow, no_malloc_support, incorrect_fixed_length,
}
use yum_quest.Input.{IStream, Reader, pb_read}
use yum_quest.Input.Runs.{
  Provides, Covers, Answers, Runs, SomeValue, Runs-weaken, Runs-bind, Runs-bind_last, Runs-pure,
  Runs-either, Runs-fail, Answers-then, Answers-weaken,
}
use yum_quest.Input.Runs.Read.{Delivers, Reads, pb_read-Reads}
use yum_quest.Varint.Runs.{
  pb_decode_varint32-Reads, pb_decode_varint-Reads, pb_decode_svarint-Reads,
}
use yum_quest.Decoding.{pb_make_string_substream}
use yum_quest.Decoding.Runs.{
  AnswersSubstream, pb_make_string_substream-Answers, pb_decode_fixed32-Reads,
  pb_decode_fixed64-Reads,
}
use yum_quest.Memory.{Mem, store, store_bytes, clear}
use yum_quest.Field.{Field, atype, atype_pointer}
use yum_quest.Decoder.{Decoding, after, on_stream, return_error as error, write, in_substream}
use yum_quest.Decoder.Values.{
  bytes_alloc_size, store_signed, pb_dec_varint, pb_dec_uvarint, pb_dec_svarint, pb_dec_fixed32,
  pb_dec_fixed64, read_to, pb_dec_bytes, read_terminated, pb_dec_string, pb_dec_fixed_length_bytes,
}

-- A command of the decoder that answers, and has read `k` bytes of its stream where it answers `true`.
abbrev pub Decodes : {S A : Type 0} → ℕ → Cmd (Decoding S) A → Type 0
Decodes {S} k m = Runs (λ (d : Decoding S). d.stream) k SomeValue m

-- Its outcome on a stream with `left` bytes left.
abbrev pub DecodedFrom : {S A : Type 0} → ℕ → ℕ → ℕ → Outcome (Decoding S) A → Type 0
DecodedFrom {S} c left k o = Answers (λ (d : Decoding S). d.stream) c left k SomeValue o

module _ {S A : Type 0} where
  pub Answers-after :
      (R : A → Type 0) (c left k : ℕ) (mem : Mem) (o : Outcome (IStream S) A)
      → Answers (λ (s : IStream S). s) c left k R o
      → Answers (λ (d : Decoding S). d.stream) c left k R (after mem o)
  Answers-after R c left k mem (ok a s) h = h
  Answers-after R c left k mem (fail s) h = h
  Answers-after R c left k mem fault h = h
  Answers-after R c left k mem stuck h = h

  pub Runs-on_stream :
      {R : A → Type 0} {m : Cmd (IStream S) A} (k : ℕ)
      → Reads k R m
      → Runs (λ (d : Decoding S). d.stream) k R (on_stream m)
  unfolding on_stream
  Runs-on_stream {R} {m} k h = record {
    at =
        λ c d cov. Answers-after R c d.stream.bytes_left k d.mem (m d.stream) (h.at c d.stream cov);
  }

  pub Decodes-error : (k : ℕ) (msg : ErrMsg) → Decodes {S = S} {A = A} k (error msg)
  unfolding error
  Decodes-error k msg = Runs-fail k (λ d. (_, refl, refl, refl))

module _ {S : Type 0} where
  pub Decodes-write : (f : Mem → Mem) → Decodes {S = S} 0 (write f)
  unfolding write
  Decodes-write f = record { at = λ c d cov. (cov, omega arith, tt) }

  pub Decodes-then :
      {m n : Cmd (Decoding S) (Unit {0})} (k : ℕ) → Decodes 0 m → Decodes k n → Decodes k (m >> n)
  Decodes-then k h g = Runs-bind_last k h (λ _ _. g)

module _ {S : Type 0} (cb : Reader S) (delivers : Delivers cb) where
  -- A read of one byte at least, and then what the value leads to.
  decoded :
      {A : Type 0} {R : A → Type 0} {m : Cmd (IStream S) A} {f : A → Cmd (Decoding S) (Unit {0})}
      (k : ℕ)
      → 1 ≤ k
      → Reads k R m
      → ((a : A) → Decodes 0 (f a))
      → Decodes 1 (on_stream m >>= f)
  decoded k le h g = Runs-bind 1 (Runs-on_stream 1 (Runs-weaken k 1 le (λ a r. r) h)) (λ a r. g a)

  store_signed-Decodes : (f : Field) (p v : ℕ) → Decodes 0 (store_signed cb f p v)
  unfolding store_signed
  store_signed-Decodes f p v =
      Runs-either 0 _
        (Decodes-then 0 (Decodes-write _)
          (Runs-either 0 _ (Runs-pure tt tt) (Decodes-error 0 integer_too_large)))
        (Decodes-error 0 invalid_data_size)

  pub pb_dec_varint-Decodes : (f : Field) (p : ℕ) → Decodes 1 (pb_dec_varint cb f p)
  unfolding pb_dec_varint
  pb_dec_varint-Decodes f p =
      decoded 1 (omega arith) (pb_decode_varint-Reads cb delivers) (λ v. store_signed-Decodes f p _)

  pub pb_dec_uvarint-Decodes : (f : Field) (p : ℕ) → Decodes 1 (pb_dec_uvarint cb f p)
  unfolding pb_dec_uvarint
  pb_dec_uvarint-Decodes f p = decoded 1 (omega arith) (pb_decode_varint-Reads cb delivers) (λ v.
      Runs-either 0 _
        (Decodes-then 0 (Decodes-write _)
          (Runs-either 0 _ (Runs-pure tt tt) (Decodes-error 0 integer_too_large)))
        (Decodes-error 0 invalid_data_size))

  pub pb_dec_svarint-Decodes : (f : Field) (p : ℕ) → Decodes 1 (pb_dec_svarint cb f p)
  unfolding pb_dec_svarint
  pb_dec_svarint-Decodes f p =
      decoded 1 (omega arith) (pb_decode_svarint-Reads cb delivers)
        (λ v. store_signed-Decodes f p v)

  pub pb_dec_fixed32-Decodes : (f : Field) (p : ℕ) → Decodes 1 (pb_dec_fixed32 cb f p)
  unfolding pb_dec_fixed32
  pb_dec_fixed32-Decodes f p =
      decoded 4 (omega arith) (pb_decode_fixed32-Reads cb delivers) (λ v. Decodes-write _)

  pub pb_dec_fixed64-Decodes : (f : Field) (p : ℕ) → Decodes 1 (pb_dec_fixed64 cb f p)
  unfolding pb_dec_fixed64
  pb_dec_fixed64-Decodes f p =
      decoded 8 (omega arith) (pb_decode_fixed64-Reads cb delivers) (λ v. Decodes-write _)

  read_to-Decodes : (p size : ℕ) → Decodes 0 (read_to cb p size)
  unfolding read_to
  read_to-Decodes p size =
      Runs-bind 0
        (Runs-on_stream 0
          (Runs-weaken size 0 (omega arith) (λ a r. r) (pb_read-Reads cb delivers size)))
        (λ bytes r. Decodes-write _)

  pub pb_dec_bytes-Decodes : (f : Field) (p : ℕ) → Decodes 1 (pb_dec_bytes cb f p)
  unfolding pb_dec_bytes
  pb_dec_bytes-Decodes f p = decoded 1 (omega arith) (pb_decode_varint32-Reads cb delivers) λ size.
      Runs-either 0 _ (Decodes-error 0 bytes_overflow) (
        Runs-either 0 _ (Decodes-error 0 size_too_large) (
          Runs-either 0 _ (Decodes-error 0 no_malloc_support) (
            Runs-either 0 _ (Decodes-error 0 bytes_overflow)
              (Decodes-then 0 (Decodes-write _) (read_to-Decodes (p + 4) size)))))

  read_terminated-Decodes : (p size : ℕ) → Decodes 0 (read_terminated cb p size)
  unfolding read_terminated write
  read_terminated-Decodes p size = record {
    at = λ c d cov. go c d (read_to cb p size d) ((read_to-Decodes p size).at c d cov);
  }
    where
      go :
          (c : ℕ) (d : Decoding S) (o : Outcome (Decoding S) (Unit {0}))
          → DecodedFrom c d.stream.bytes_left 0 o
          → DecodedFrom c d.stream.bytes_left 0 (elim o [
            | ok _ d' ↦ write (store 1 (p + size) 0) d'
            | fail d' ↦ fail (record d' { mem = store 1 (p + size) 0 d'.mem })
            | fault ↦ fault
            | stuck ↦ stuck
          ])
      go c d (ok _ d') h = h
      go c d (fail d') h = h
      go c d fault h = h
      go c d stuck h = h

  pub pb_dec_string-Decodes : (f : Field) (p : ℕ) → Decodes 1 (pb_dec_string cb f p)
  unfolding pb_dec_string
  pb_dec_string-Decodes f p = decoded 1 (omega arith) (pb_decode_varint32-Reads cb delivers) λ size.
      Runs-either 0 _ (Decodes-error 0 size_too_large) (
        Runs-either 0 _ (Decodes-error 0 no_malloc_support)
          (Runs-either 0 _ (Decodes-error 0 string_overflow) (read_terminated-Decodes p size)))

  pub pb_dec_fixed_length_bytes-Decodes :
      (f : Field) (p : ℕ) → Decodes 1 (pb_dec_fixed_length_bytes cb f p)
  unfolding pb_dec_fixed_length_bytes
  pb_dec_fixed_length_bytes-Decodes f p =
      decoded 1 (omega arith) (pb_decode_varint32-Reads cb delivers) λ size.
        Runs-either 0 _ (Decodes-error 0 bytes_overflow) (
          Runs-either 0 _ (Decodes-write _) (
            Runs-either 0 _ (read_to-Decodes p f.data_size)
              (Decodes-error 0 incorrect_fixed_length)))
