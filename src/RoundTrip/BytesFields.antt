-- ===== src/RoundTrip/BytesFields.antt =====
-- pb_enc_bytes of pb_encode.c and pb_dec_bytes of pb_decode.c together, on one descriptor: a
-- pb_bytes_array_t is its size in four bytes, and then its bytes.
use yum_quest.Base.{
  ℕ, ◌+◌, ◌≤◌, ◌^◌, ◌<◌, ◌≡◌, ◌≢◌, sym, ap, ◌∙◌, List, ◌++◌, arith, length, true, false, ltb, ◌==◌,
}
use yum_quest.Command.{ok}
use yum_quest.Pb.{pb_size_max}
use yum_quest.Input.{Reader}
use yum_quest.Input.Buffer.{reading}
use yum_quest.Output.Buffer.{writing}
use yum_quest.Memory.{Mem, load, load_bytes, store, store_bytes}
use yum_quest.Memory.Laws.{length-load_bytes, store_bytes-SameOutside, load-store, load-same}
use yum_quest.Field.{Field, atype, atype_static, atype_pointer}
use yum_quest.Encoding.{pb_encode_string}
use yum_quest.Encoder
use yum_quest.Encoder.{pb_enc_bytes}
use yum_quest.Decoder.{on_stream, write}
use yum_quest.Decoder.Values.{pb_dec_bytes}
use yum_quest.RoundTrip.{Place, HasRoom}
use yum_quest.RoundTrip.Strings.{
  with_length, pb_encode_string-writing, pb_decode_varint32-with_length,
}
use yum_quest.RoundTrip.StringFields.{Copies, load_bytes-store_bytes, read_to-string}

-- The bytes behind a size leave it as it is.
load-behind :
    (dest n : ℕ) (bytes : List ℕ) (mem : Mem)
    → n < 2 ^ 32
    → load 4 dest (store_bytes (dest + 4) bytes (store 4 dest n mem)) ≡ n
load-behind dest n bytes mem lt =
    load-same 4 dest (store 4 dest n mem) (store_bytes (dest + 4) bytes (store 4 dest n mem))
      (λ i below.
        store_bytes-SameOutside (dest + 4) (length bytes) bytes (store 4 dest n mem) (omega arith)
          (dest + i) (ground arith))
    ∙ load-store 4 dest n mem (omega arith)

module _ {S T : Type 0} (rd : Reader S) (env : Encoder.Surroundings T) where
  pb_dec_bytes-with_length :
      (f : Field) (bytes : List ℕ) (dest : ℕ) (p : Place) (mem : Mem)
      → atype f.type ≡ atype_static
      → length bytes + 4 ≤ f.data_size
      → f.data_size < 2 ^ 32
      → pb_dec_bytes rd f dest (record {
        stream =
            reading
              (with_length rd env.writer bytes ++ p.rest)
              (length (with_length rd env.writer bytes) + p.left)
              p.in_err;
        mem = mem;
      })
        ≡ ok tt (record {
          stream = reading p.rest p.left p.in_err;
          mem = store_bytes (dest + 4) bytes (store 4 dest (length bytes) mem);
        })
  unfolding pb_dec_bytes on_stream write
  pb_dec_bytes-with_length f bytes dest p mem static room size_t =
      let short : ltb pb_size_max (length bytes) ≡ false = ground arith in
      let no_wrap : ltb (length bytes + 4) (length bytes) ≡ false = ground arith in
      let inline : (atype f.type == atype_pointer) ≡ false = ground (arith, static) in
      let fits : ltb f.data_size (length bytes + 4) ≡ false = ground arith in
      rw
        (
          pb_decode_varint32-with_length rd env.writer bytes p (omega arith),
          short,
          no_wrap,
          inline,
          fits,
        )
        (read_to-string rd env bytes (dest + 4) p (store 4 dest (length bytes) mem))

  -- For a static field of bytes of less than 2^32 bytes, in which the bytes at `src` fit behind their
  -- size, and a place with room for ten bytes more than they are: what pb_enc_bytes reads at `src`,
  -- pb_dec_bytes stores at `dest`, the size included.
  pub bytes_field_round_trip :
      (f : Field) (src dest : ℕ) (p : Place) (mem : Mem)
      → src ≢ 0
      → atype f.type ≡ atype_static
      → load 4 src env.mem + 4 ≤ f.data_size
      → f.data_size < 2 ^ 32
      → HasRoom p (10 + load 4 src env.mem)
      → Copies
          (pb_enc_bytes env f src)
          (pb_dec_bytes rd f dest)
          (λ mem'.
            (load 4 dest mem' ≡ load 4 src env.mem)
            × (load_bytes (load 4 src env.mem) (dest + 4) mem'
                ≡ load_bytes (load 4 src env.mem) (src + 4) env.mem))
          p
          mem
  unfolding pb_enc_bytes
  bytes_field_round_trip f src dest p mem not_null static room size_t fits =
      let n = load 4 src env.mem in
      let bytes = load_bytes n (src + 4) env.mem in
      let e : length bytes ≡ n = length-load_bytes n (src + 4) env.mem in
      let inline : (atype f.type == atype_static) ≡ true = ground (arith, static) in
      let real : (src == 0) ≡ false = ground (arith, not_null) in
      let inside : ltb f.data_size (n + 4) ≡ false = ground arith in
      let mem' = store_bytes (dest + 4) bytes (store 4 dest (length bytes) mem) in
      (
        with_length rd env.writer bytes,
        rw (inline, real, inside)
            (ap
                (λ k.
                  pb_encode_string env.writer bytes k
                    (writing p.out p.room p.max_size p.written p.out_err))
                (sym e)
              ∙ pb_encode_string-writing rd env.writer bytes p (omega arith) (rw e fits)),
        mem',
        pb_dec_bytes-with_length f bytes dest p mem static (omega arith) size_t,
        (
          load-behind dest (length bytes) bytes mem (omega arith) ∙ e,
          ap (λ k. load_bytes k (dest + 4) mem') (sym e)
              ∙ load_bytes-store_bytes bytes (dest + 4) (store 4 dest (length bytes) mem),
        ),
      )
