-- ===== src/RoundTrip/Strings.antt =====
-- Strings and bytes with their length in front: what pb_encode_string of pb_encode.c writes, read back by
-- pb_decode.c.
use yum_quest.Base.{
  ℕ, ◌+◌, ◌-◌, ◌^◌, ◌<◌, ◌≤◌, ◌≡◌, Option, ap, ◌∙◌, List, [], ◌++◌, arith, length, length-append,
  take, take-length-append, drop-length-append,
}
use mathlib.Core.List.{append_assoc, append-nil}
use mathlib.Core.Path.{ap₂}
use yum_quest.Command.{ok}
use yum_quest.Pb.{ErrMsg, wt_string}
use yum_quest.Input.{Reader, pb_read}
use yum_quest.Input.Buffer.{reading, pb_read-reading, pb_read_null-reading}
use yum_quest.Output.{Writer, pb_write}
use yum_quest.Output.Buffer.{writing, pb_write-writing}
use yum_quest.Varint.{pb_decode_varint32}
use yum_quest.Varint.Format.{varint_bytes, length-groups}
use yum_quest.Varint.Decode.{pb_decode_varint32-groups}
use yum_quest.Encoding.{pb_encode_string}
use yum_quest.Encoding.Varint.{pb_encode_varint-groups}
use yum_quest.Decoding.{pb_skip_string, pb_skip_field}
use yum_quest.RoundTrip.{Place, HasRoom, ReadsBack}

take_whole : (xs : List ℕ) → take (length xs) xs ≡ xs
take_whole xs = rw (append-nil) at (take-length-append xs [])

length-varint_bytes : (n : ℕ) → n < 2 ^ 64 → length (varint_bytes n) ≤ 10
length-varint_bytes n h = omega (arith, length-groups 9 n)

module _ {S T : Type 0} (rd : Reader S) (wr : Writer T) where
  -- The length and the string.
  abbrev pub with_length : List ℕ → List ℕ
  with_length str = varint_bytes (length str) ++ str

  write_bytes :
      (bytes out : List ℕ) (room m w : ℕ) (err : Option ErrMsg)
      → length bytes ≤ room
      → w + length bytes ≤ m
      → m < 2 ^ 64
      → pb_write wr bytes (length bytes) (writing out room m w err)
        ≡ ok tt (writing (out ++ bytes) (room - length bytes) m (w + length bytes) err)
  write_bytes bytes out room m w err h g k =
      pb_write-writing wr bytes (length bytes) out room m w err (omega arith) h g k
      ∙ ap (λ t. ok tt (writing (out ++ t) (room - length bytes) m (w + length bytes) err))
          (take_whole bytes)

  -- Two writes one after the other.
  written :
      (xs ys : List ℕ) (p : Place)
      → ok tt (
          writing {T = T}
            ((p.out ++ xs) ++ ys)
            (p.room - length xs - length ys)
            p.max_size
            (p.written + length xs + length ys)
            p.out_err)
        ≡ ok tt (
            writing
              (p.out ++ (xs ++ ys))
              (p.room - length (xs ++ ys))
              p.max_size
              (p.written + length (xs ++ ys))
              p.out_err)
  written xs ys p = rw (append_assoc p.out xs ys) (
      ap₂ (λ r w. ok tt (writing (p.out ++ (xs ++ ys)) r p.max_size w p.out_err))
        (omega (arith, length-append xs ys)) (omega (arith, length-append xs ys)))

  pub pb_encode_string-writing :
      (str : List ℕ) (p : Place)
      → length str < 2 ^ 32
      → HasRoom p (10 + length str)
      → pb_encode_string wr str (length str) (writing p.out p.room p.max_size p.written p.out_err)
        ≡ ok tt (
            writing
              (p.out ++ with_length str)
              (p.room - length (with_length str))
              p.max_size
              (p.written + length (with_length str))
              p.out_err)
  unfolding pb_encode_string
  pb_encode_string-writing str p lt fits =
      let vb = varint_bytes (length str) in
      let small : length vb ≤ 10 = length-varint_bytes (length str) (omega arith) in
      rw
        (
          pb_encode_varint-groups wr (length str) (omega arith),
          write_bytes vb p.out p.room p.max_size p.written p.out_err (omega (arith, fits.in_array))
              (omega (arith, fits.in_limit)) fits.size_t,
        )
        (write_bytes str (p.out ++ vb) (p.room - length vb) p.max_size (p.written + length vb)
            p.out_err (omega (arith, fits.in_array)) (omega (arith, fits.in_limit)) fits.size_t
          ∙ written vb str p)

  pub pb_decode_varint32-with_length :
      (str : List ℕ) (p : Place)
      → length str < 2 ^ 32
      → pb_decode_varint32 rd
          (reading (with_length str ++ p.rest) (length (with_length str) + p.left) p.in_err)
        ≡ ok (length str) (reading (str ++ p.rest) (length str + p.left) p.in_err)
  pb_decode_varint32-with_length str p lt =
      ap₂ (λ bs l. pb_decode_varint32 rd (reading bs l p.in_err))
        (append_assoc (varint_bytes (length str)) str p.rest)
        (omega (arith, length-append (varint_bytes (length str)) str))
      ∙ pb_decode_varint32-groups rd (length str) (str ++ p.rest) (length str + p.left) p.in_err lt

  pub pb_read-string :
      (str : List ℕ) (p : Place)
      → pb_read rd (length str) (reading (str ++ p.rest) (length str + p.left) p.in_err)
        ≡ ok str (reading p.rest p.left p.in_err)
  pb_read-string str p =
      pb_read-reading rd (length str) (str ++ p.rest) (length str + p.left) p.in_err (omega arith)
        (omega (arith, length-append str p.rest))
      ∙ rw (take-length-append str p.rest, drop-length-append str p.rest)
          (ap (λ l. ok str (reading p.rest l p.in_err)) (omega arith))

  -- For a string of less than 2^32 bytes, and a place with room for ten bytes more than it has,
  -- pb_skip_field with the wire type of a string moves past exactly what pb_encode_string writes.
  pub skip_string_round_trip :
      (str : List ℕ) (p : Place)
      → length str < 2 ^ 32
      → HasRoom p (10 + length str)
      → ReadsBack (pb_encode_string wr str (length str)) (pb_skip_field rd wt_string) tt p
  unfolding pb_skip_field pb_skip_string
  skip_string_round_trip str p lt fits = (
    with_length str,
    pb_encode_string-writing str p lt fits,
    rw (pb_decode_varint32-with_length str p lt) (
        pb_read_null-reading rd (length str) (str ++ p.rest) (length str + p.left) p.in_err
          (omega arith) (omega (arith, length-append str p.rest))
        ∙ rw (drop-length-append str p.rest)
            (ap (λ l. ok tt (reading p.rest l p.in_err)) (omega arith))),
  )
