-- ===== src/RoundTrip/StringFields.antt =====
-- The encoders and decoders of strings and bytes in pb_encode.c and pb_decode.c together, on one
-- descriptor.
use yum_quest.Base.{
  ℕ, suc, ◌+◌, ◌-◌, ◌^◌, ◌<◌, ◌≡◌, ◌≢◌, refl, sym, ap, ◌∙◌, List, [], ◌∷◌, ◌++◌, arith, length,
  get_or, true, false, ltb, ◌==◌,
}
use mathlib.Core.Path.{ap₂}
use yum_quest.Command.{ok, Cmd}
use yum_quest.Pb.{u32, pb_size_max}
use yum_quest.Input.{Reader}
use yum_quest.Input.Buffer.{reading}
use yum_quest.Output.{OStream}
use yum_quest.Output.Buffer.{writing}
use yum_quest.Memory.{Mem, load, load_bytes, store, store_bytes}
use yum_quest.Memory.Laws.{length-load_bytes, store-SameOutside, load-store}
use yum_quest.Field.{Field, atype, atype_static, atype_pointer}
use yum_quest.Encoding.{pb_encode_string}
use yum_quest.Encoder
use yum_quest.Encoder.{string_length, pb_enc_string, pb_enc_fixed_length_bytes}
use yum_quest.Decoder.{Decoding, on_stream, write}
use yum_quest.Decoder.Values.{read_to, read_terminated, pb_dec_string, pb_dec_fixed_length_bytes}
use yum_quest.RoundTrip.{Place, HasRoom}
use yum_quest.RoundTrip.Strings.{
  with_length, pb_encode_string-writing, pb_decode_varint32-with_length, pb_read-string,
}

module _ {S T : Type 0} where
  -- The encoder succeeds and appends some bytes. On these bytes, whatever follows them, the decoder
  -- succeeds and stops where they end; the memory that it leaves has the property `P`.
  abbrev pub Copies :
      Cmd (OStream T) (Unit {0})
      → Cmd (Decoding S) (Unit {0})
      → (Mem → Type 0)
      → Place
      → Mem
      → Type 0
  Copies enc dec P p mem =
      (bytes : List ℕ) × (enc (writing p.out p.room p.max_size p.written p.out_err)
        ≡ ok tt (
            writing (p.out ++ bytes) (p.room - length bytes) p.max_size (p.written + length bytes)
              p.out_err))
      × (mem' : Mem) × (dec (record {
        stream = reading (bytes ++ p.rest) (length bytes + p.left) p.in_err;
        mem = mem;
      })
          ≡ ok tt (record { stream = reading p.rest p.left p.in_err; mem = mem' }))
      × P mem'

-- What is read where bytes were stored.
load_bytes_of :
    (bs : List ℕ) (p : ℕ) (mem : Mem)
    → ((i : ℕ) → i < length bs → mem (p + i) ≡ get_or bs i 0)
    → load_bytes (length bs) p mem ≡ bs
unfolding load_bytes
load_bytes_of [] p mem h = refl
load_bytes_of (b ∷ bs) p mem h =
    ap₂ (λ x xs. x ∷ xs) (ap mem (omega arith) ∙ h 0 (omega arith))
      (load_bytes_of bs (p + 1) mem (λ i lt. ap mem (omega arith) ∙ h (suc i) (omega arith)))

stored_at :
    (bs : List ℕ) (p i : ℕ) (mem : Mem)
    → i < length bs
    → store_bytes p bs mem (p + i) ≡ get_or bs i 0
unfolding store_bytes
stored_at bs p i mem lt = ground (arith, ap (λ k. get_or bs k 0) (back p i))
  where
    back : (p i : ℕ) → p + i - p ≡ i
    back p i = omega arith

-- The memory has the string at `dest`.
pub load_bytes-store_bytes :
    (str : List ℕ) (dest : ℕ) (mem : Mem)
    → load_bytes (length str) dest (store_bytes dest str mem) ≡ str
load_bytes-store_bytes str dest mem =
    load_bytes_of str dest (store_bytes dest str mem) (λ i lt. stored_at str dest i mem lt)

-- The same with a terminator behind it.
load_bytes-terminated :
    (str : List ℕ) (dest : ℕ) (mem : Mem)
    → load_bytes (length str) dest (store 1 (dest + length str) 0 (store_bytes dest str mem)) ≡ str
load_bytes-terminated str dest mem =
    load_bytes_of str dest (store 1 (dest + length str) 0 (store_bytes dest str mem)) (λ i lt.
      store-SameOutside (dest + length str) 1 0 (store_bytes dest str mem) (dest + i) (ground arith)
      ∙ stored_at str dest i mem lt)

module _ {S T : Type 0} (rd : Reader S) (env : Encoder.Surroundings T) where
  pub read_to-string :
      (str : List ℕ) (dest : ℕ) (p : Place) (mem : Mem)
      → read_to rd dest
          (length str)
          (record { stream = reading (str ++ p.rest) (length str + p.left) p.in_err; mem = mem })
        ≡ ok tt (record { stream = reading p.rest p.left p.in_err; mem = store_bytes dest str mem })
  unfolding read_to on_stream write
  read_to-string str dest p mem = rw (pb_read-string rd env.writer str p) refl

  read_terminated-string :
      (f : Field) (str : List ℕ) (dest : ℕ) (p : Place) (mem : Mem)
      → read_terminated rd dest
          (length str)
          (record { stream = reading (str ++ p.rest) (length str + p.left) p.in_err; mem = mem })
        ≡ ok tt (record {
          stream = reading p.rest p.left p.in_err;
          mem = store 1 (dest + length str) 0 (store_bytes dest str mem);
        })
  unfolding read_terminated write
  read_terminated-string f str dest p mem = rw (read_terminated, read_to-string str dest p mem) refl

  pb_dec_string-with_length :
      (f : Field) (str : List ℕ) (dest : ℕ) (p : Place) (mem : Mem)
      → atype f.type ≡ atype_static
      → length str < f.data_size
      → f.data_size < 2 ^ 32
      → pb_dec_string rd f dest (record {
        stream =
            reading
              (with_length rd env.writer str ++ p.rest)
              (length (with_length rd env.writer str) + p.left)
              p.in_err;
        mem = mem;
      })
        ≡ ok tt (record {
          stream = reading p.rest p.left p.in_err;
          mem = store 1 (dest + length str) 0 (store_bytes dest str mem);
        })
  unfolding pb_dec_string on_stream
  pb_dec_string-with_length f str dest p mem static room size_t =
      let no_wrap : ltb (u32 (length str + 1)) (length str) ≡ false = ground arith in
      let inline : (atype f.type == atype_pointer) ≡ false = ground (arith, static) in
      let fits : ltb f.data_size (u32 (length str + 1)) ≡ false = ground arith in
      rw (pb_decode_varint32-with_length rd env.writer str p (omega arith), no_wrap, inline, fits)
        (read_terminated-string f str dest p mem)

  -- For a static string field, with the string and its terminator inside the field, a field of less than
  -- 2^32 bytes, and a place with room for ten bytes more than the string has: what pb_enc_string reads at
  -- `src`, pb_dec_string stores at `dest`, with a terminator behind it.
  pub string_field_round_trip :
      (longest : ℕ) (f : Field) (src dest : ℕ) (p : Place) (mem : Mem)
      → src ≢ 0
      → atype f.type ≡ atype_static
      → string_length f.data_size src env.mem < f.data_size
      → f.data_size < 2 ^ 32
      → HasRoom p (10 + string_length f.data_size src env.mem)
      → Copies
          (pb_enc_string env longest f src)
          (pb_dec_string rd f dest)
          (λ mem'.
            (load_bytes (string_length f.data_size src env.mem) dest mem'
              ≡ load_bytes (string_length f.data_size src env.mem) src env.mem)
            × (load 1 (dest + string_length f.data_size src env.mem) mem' ≡ 0))
          p
          mem
  unfolding pb_enc_string
  string_field_round_trip longest f src dest p mem not_null static room size_t fits =
      let n = string_length f.data_size src env.mem in
      let str = load_bytes n src env.mem in
      let e : length str ≡ n = length-load_bytes n src env.mem in
      let inline : (atype f.type == atype_pointer) ≡ false = ground (arith, static) in
      let real : (src == 0) ≡ false = ground (arith, not_null) in
      (
        with_length rd env.writer str,
        rw (inline, real)
            (ap
                (λ k.
                  pb_encode_string env.writer str k
                    (writing p.out p.room p.max_size p.written p.out_err))
                (sym e)
              ∙ pb_encode_string-writing rd env.writer str p (omega arith) (rw e fits)),
        store 1 (dest + length str) 0 (store_bytes dest str mem),
        pb_dec_string-with_length f str dest p mem static (omega arith) size_t,
        (
          ap (λ k. load_bytes k dest (store 1 (dest + length str) 0 (store_bytes dest str mem)))
                (sym e)
              ∙ load_bytes-terminated str dest mem,
          ap (λ k. load 1 (dest + k) (store 1 (dest + length str) 0 (store_bytes dest str mem)))
                (sym e)
              ∙ load-store 1 (dest + length str) 0 (store_bytes dest str mem) (omega arith),
        ),
      )

  -- For a field of less than 2^32 bytes and at least one, and a place with room for ten bytes more: what
  -- pb_enc_fixed_length_bytes reads at `src`, pb_dec_fixed_length_bytes stores at `dest`.
  pub fixed_length_field_round_trip :
      (f : Field) (src dest : ℕ) (p : Place) (mem : Mem)
      → 0 < f.data_size
      → f.data_size < 2 ^ 32
      → HasRoom p (10 + f.data_size)
      → Copies
          (pb_enc_fixed_length_bytes env f src)
          (pb_dec_fixed_length_bytes rd f dest)
          (λ mem'. load_bytes f.data_size dest mem' ≡ load_bytes f.data_size src env.mem)
          p
          mem
  unfolding pb_enc_fixed_length_bytes pb_dec_fixed_length_bytes on_stream
  fixed_length_field_round_trip f src dest p mem some_byte size_t fits =
      let str = load_bytes f.data_size src env.mem in
      let e : length str ≡ f.data_size = length-load_bytes f.data_size src env.mem in
      let short : ltb pb_size_max (length str) ≡ false = ground arith in
      let some : (length str == 0) ≡ false = ground arith in
      let same : (length str == f.data_size) ≡ true = ground arith in
      (
        with_length rd env.writer str,
        ap
              (λ k.
                pb_encode_string env.writer str k
                  (writing p.out p.room p.max_size p.written p.out_err))
              (sym e)
            ∙ pb_encode_string-writing rd env.writer str p (omega arith) (rw e fits),
        store_bytes dest str mem,
        rw (pb_decode_varint32-with_length rd env.writer str p (omega arith), short, some, same)
            (ap
                (λ k. read_to rd dest k (record {
                  stream = reading (str ++ p.rest) (length str + p.left) p.in_err;
                  mem = mem;
                }))
                (sym e)
              ∙ read_to-string str dest p mem),
        ap (λ k. load_bytes k dest (store_bytes dest str mem)) (sym e)
            ∙ load_bytes-store_bytes str dest mem,
      )
