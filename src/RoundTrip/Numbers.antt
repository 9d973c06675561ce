-- ===== src/RoundTrip/Numbers.antt =====
-- Round trips of the number functions of pb_encode.c and pb_decode.c through a buffer.
use yum_quest.Base.{
  ℕ, ◌+◌, ◌-◌, ◌*◌, ◌/◌, ◌%◌, ◌^◌, ◌≤◌, ◌<◌, ◌≡◌, refl, sym, ap, ◌∙◌, Option, List, [], ◌∷◌, ◌++◌,
  arith, length, take, take-length-append, bit_and, bit_or,
}
use mathlib.Core.List.{append-nil}
use native.Mathlib.Nat.{mod-lt, one-le-pow}
use yum_quest.Base.Bits.{mask_one, mask_seven, mask_255, bit_or_shifted, bit_or_low_three}
use yum_quest.Command.{ok, Cmd}
use yum_quest.Pb.{ErrMsg, u64}
use yum_quest.Input.{IStream, Reader}
use yum_quest.Input.Buffer.{reading, pb_read-reading}
use yum_quest.Output.{OStream, Writer, pb_write}
use yum_quest.Output.Buffer.{writing, pb_write-writing}
use yum_quest.Varint.{pb_decode_varint, pb_decode_varint32, pb_decode_svarint, unzigzag}
use yum_quest.Varint.Format.{varint_bytes, length-groups}
use yum_quest.Varint.Decode.{pb_decode_varint-groups, pb_decode_varint32-groups}
use yum_quest.Encoding.{
  pb_encode_varint, pb_encode_svarint, zigzag, pb_encode_fixed32, pb_encode_fixed64, pb_encode_tag,
}
use yum_quest.Encoding.Varint.{pb_encode_varint-groups}
use yum_quest.Decoding.{
  tagged, join_four, join_eight, pb_decode_fixed32, pb_decode_fixed64, pb_decode_tag,
}
use yum_quest.RoundTrip.{Place, HasRoom, ReadsBack}

pub take_all : (xs : List ℕ) → take (length xs) xs ≡ xs
take_all xs = rw (append-nil) at (take-length-append xs [])

pub zigzag-lt : (v : ℕ) → v < 2 ^ 64 → zigzag v < 2 ^ 64
unfolding zigzag
zigzag-lt v h = ground arith

unzigzag-zigzag : (v : ℕ) → v < 2 ^ 64 → unzigzag (zigzag v) ≡ v
unfolding zigzag unzigzag
unzigzag-zigzag v h = ground (arith, mask_one (2 ^ 64 - 1 - u64 (v * 2)), mask_one (u64 (v * 2)))

-- The next byte of a number joins the bits below it.
join_byte :
    (k v m : ℕ)
    → m ≡ v % 2 ^ k + v / 2 ^ k % 256 * 2 ^ k
    → bit_or (v % 2 ^ k) (bit_and (v / 2 ^ k) 0xFF * 2 ^ k) ≡ m
join_byte k v m e = rw mask_255 (
    bit_or_shifted k (v % 2 ^ k) (v / 2 ^ k % 256) (mod-lt v (one-le-pow k 2 (omega arith)))
    ∙ sym e)

join_four_lem :
    (v : ℕ)
    → join_four
        (bit_and v 0xFF)
        (bit_and (v / 2 ^ 8) 0xFF)
        (bit_and (v / 2 ^ 16) 0xFF)
        (bit_and (v / 2 ^ 24) 0xFF)
      ≡ v % 2 ^ 32
unfolding join_four
join_four_lem v = rw (
  mask_255 v,
  join_byte 8 v (v % 2 ^ 16) (omega arith),
  join_byte 16 v (v % 2 ^ 24) (omega arith),
  join_byte 24 v (v % 2 ^ 32) (omega arith),
)

join_eight_lem :
    (v : ℕ)
    → v < 2 ^ 64
    → join_eight
        (bit_and v 0xFF)
        (bit_and (v / 2 ^ 8) 0xFF)
        (bit_and (v / 2 ^ 16) 0xFF)
        (bit_and (v / 2 ^ 24) 0xFF)
        (bit_and (v / 2 ^ 32) 0xFF)
        (bit_and (v / 2 ^ 40) 0xFF)
        (bit_and (v / 2 ^ 48) 0xFF)
        (bit_and (v / 2 ^ 56) 0xFF)
      ≡ v
unfolding join_eight
join_eight_lem v h = rw (
  join_four_lem v,
  join_byte 32 v (v % 2 ^ 40) (omega arith),
  join_byte 40 v (v % 2 ^ 48) (omega arith),
  join_byte 48 v (v % 2 ^ 56) (omega arith),
  join_byte 56 v v (omega arith),
)

pub tag_value : (wt n : ℕ) → wt < 8 → n < 2 ^ 29 → bit_or (u64 (n * 2 ^ 3)) wt ≡ n * 8 + wt
tag_value wt n h g = ap (λ (t : ℕ). bit_or t wt) (no_wrap n g) ∙ bit_or_low_three n wt h
  where
    no_wrap : (n : ℕ) → n < 2 ^ 29 → u64 (n * 2 ^ 3) ≡ n * 2 ^ 3
    no_wrap n g = omega arith

module _ {S T : Type 0} (rd : Reader S) (wr : Writer T) where
  -- One pb_write of some bytes, which the reader takes for the value.
  pub one_write :
      {A : Type 0} {enc : Cmd (OStream T) (Unit {0})} (dec : Cmd (IStream S) A) {a : A}
      (bytes : List ℕ) (p : Place)
      → enc ≡ pb_write wr bytes (length bytes)
      → HasRoom p (length bytes)
      → dec (reading (bytes ++ p.rest) (length bytes + p.left) p.in_err)
        ≡ ok a (reading p.rest p.left p.in_err)
      → ReadsBack enc dec a p
  one_write dec bytes p e fits read = (
    bytes,
    rw e (
        pb_write-writing wr bytes (length bytes) p.out p.room p.max_size p.written p.out_err
          (omega arith) fits.in_array fits.in_limit fits.size_t
        ∙ ap
            (λ t. ok tt (
              writing (p.out ++ t) (p.room - length bytes) p.max_size (p.written + length bytes)
                p.out_err))
            (take_all bytes)),
    read,
  )

  pub varint_room :
      (v n : ℕ) (p : Place) → 10 ≤ n → HasRoom p n → HasRoom p (length (varint_bytes v))
  varint_room v n p h fits = omega (arith, length-groups 9 v)

  -- Every 64-bit number that pb_encode_varint writes is read back by pb_decode_varint.
  pub varint_round_trip :
      (v : ℕ) (p : Place)
      → v < 2 ^ 64
      → HasRoom p 10
      → ReadsBack (pb_encode_varint wr v) (pb_decode_varint rd) v p
  varint_round_trip v p h fits =
      one_write (pb_decode_varint rd) (varint_bytes v) p (pb_encode_varint-groups wr v h)
        (varint_room v 10 p (omega arith) fits)
        (pb_decode_varint-groups rd v p.rest p.left p.in_err h)

  -- Every 32-bit number that pb_encode_varint writes is read back by pb_decode_varint32.
  pub varint32_round_trip :
      (v : ℕ) (p : Place)
      → v < 2 ^ 32
      → HasRoom p 10
      → ReadsBack (pb_encode_varint wr v) (pb_decode_varint32 rd) v p
  varint32_round_trip v p h fits =
      one_write (pb_decode_varint32 rd) (varint_bytes v) p
        (pb_encode_varint-groups wr v (omega arith)) (varint_room v 10 p (omega arith) fits)
        (pb_decode_varint32-groups rd v p.rest p.left p.in_err h)

  -- Every int64_t, as its 64-bit pattern, that pb_encode_svarint writes is read back by
  -- pb_decode_svarint.
  pub svarint_round_trip :
      (v : ℕ) (p : Place)
      → v < 2 ^ 64
      → HasRoom p 10
      → ReadsBack (pb_encode_svarint wr v) (pb_decode_svarint rd) v p
  unfolding pb_encode_svarint pb_decode_svarint pb_encode_varint zigzag
  svarint_round_trip v p h fits =
      let z = zigzag v in
      one_write (pb_decode_svarint rd) (varint_bytes z) p
        (pb_encode_varint-groups wr z (zigzag-lt v h)) (varint_room z 10 p (omega arith) fits)
        (rw (pb_decode_varint-groups rd z p.rest p.left p.in_err (zigzag-lt v h))
          (ap (λ t. ok t (reading p.rest p.left p.in_err)) (unzigzag-zigzag v h)))

  -- Every uint32_t that pb_encode_fixed32 writes is read back by pb_decode_fixed32.
  pub fixed32_round_trip :
      (v : ℕ) (p : Place)
      → v < 2 ^ 32
      → HasRoom p 4
      → ReadsBack (pb_encode_fixed32 wr v) (pb_decode_fixed32 rd) v p
  unfolding pb_encode_fixed32 pb_decode_fixed32
  fixed32_round_trip v p h fits =
      let bytes : List ℕ =
        bit_and v 0xFF
        ∷ bit_and (v / 2 ^ 8) 0xFF
        ∷ bit_and (v / 2 ^ 16) 0xFF
        ∷ bit_and (v / 2 ^ 24) 0xFF
        ∷ [] in
      one_write (pb_decode_fixed32 rd) bytes p refl fits (
        rw
          (pb_read-reading rd 4 (bytes ++ p.rest) (4 + p.left) p.in_err (omega arith) (omega arith))
          (ground (arith, join_four_lem v)))

  -- Every uint64_t that pb_encode_fixed64 writes is read back by pb_decode_fixed64.
  pub fixed64_round_trip :
      (v : ℕ) (p : Place)
      → v < 2 ^ 64
      → HasRoom p 8
      → ReadsBack (pb_encode_fixed64 wr v) (pb_decode_fixed64 rd) v p
  unfolding pb_encode_fixed64 pb_decode_fixed64
  fixed64_round_trip v p h fits =
      let bytes : List ℕ =
        bit_and v 0xFF
        ∷ bit_and (v / 2 ^ 8) 0xFF
        ∷ bit_and (v / 2 ^ 16) 0xFF
        ∷ bit_and (v / 2 ^ 24) 0xFF
        ∷ bit_and (v / 2 ^ 32) 0xFF
        ∷ bit_and (v / 2 ^ 40) 0xFF
        ∷ bit_and (v / 2 ^ 48) 0xFF
        ∷ bit_and (v / 2 ^ 56) 0xFF
        ∷ [] in
      one_write (pb_decode_fixed64 rd) bytes p refl fits (
        rw
          (pb_read-reading rd 8 (bytes ++ p.rest) (8 + p.left) p.in_err (omega arith) (omega arith))
          (ground (arith, join_eight_lem v)))

  -- A tag with a field number from 1 to 2^29 - 1 and any wire type, that pb_encode_tag writes, is
  -- read back by pb_decode_tag.
  pub tag_round_trip :
      (wt n : ℕ) (p : Place)
      → wt < 8
      → 0 < n
      → n < 2 ^ 29
      → HasRoom p 10
      → ReadsBack
          (pb_encode_tag wr wt n)
          (pb_decode_tag rd)
          (tagged (record { wire_type = wt; tag = n }))
          p
  unfolding pb_encode_tag pb_encode_varint pb_decode_tag
  tag_round_trip wt n p hw hn hb fits =
      let t = bit_or (u64 (n * 2 ^ 3)) wt in
      one_write (pb_decode_tag rd) (varint_bytes t) p
        (pb_encode_varint-groups wr t (omega (arith, tag_value wt n hw hb)))
        (varint_room t 10 p (omega arith) fits) (read_tag p.rest p.left p.in_err)
    where
      read_tag :
          (rest : List ℕ) (left : ℕ) (err : Option ErrMsg)
          → pb_decode_tag rd (
              reading
                (varint_bytes (bit_or (u64 (n * 2 ^ 3)) wt) ++ rest)
                (length (varint_bytes (bit_or (u64 (n * 2 ^ 3)) wt)) + left)
                err)
            ≡ ok (tagged (record { wire_type = wt; tag = n })) (reading rest left err)
      read_tag rest left err = rw (tag_value wt n hw hb) (
          rw (pb_decode_varint32-groups rd (n * 8 + wt) rest left err (omega arith), pb_decode_tag)
            (ground (arith, mask_seven (n * 8 + wt))))
