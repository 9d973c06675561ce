-- ===== src/RoundTrip/Skip.antt =====
-- pb_skip_field of pb_decode.c on what the helpers of pb_encode.c write.
use yum_quest.Base.{
  ℕ, zero, suc, ◌+◌, ◌/◌, ◌%◌, ◌^◌, ◌≤◌, ◌<◌, ◌≡◌, refl, ap, ◌∙◌, Option, List, [], ◌∷◌, ◌++◌,
  arith, length,
}
use native.Mathlib.Decide.{dec_lt}
use yum_quest.Command.{ok}
use yum_quest.Pb.{ErrMsg, wt_varint}
use yum_quest.Input.{Reader, pb_read, first_byte}
use yum_quest.Input.Buffer.{reading, pb_read-reading}
use yum_quest.Output.{Writer}
use yum_quest.Varint.{skip_varint_loop, pb_skip_varint}
use yum_quest.Varint.Format.{groups, varint_bytes, has_more-true, has_more-false}
use yum_quest.Encoding.{pb_encode_varint}
use yum_quest.Encoding.Varint.{pb_encode_varint-groups}
use yum_quest.Decoding.{pb_skip_field}
use yum_quest.RoundTrip.{Place, HasRoom, ReadsBack}
use yum_quest.RoundTrip.Numbers.{one_write, varint_room}

module _ {S T : Type 0} (rd : Reader S) (wr : Writer T) where
  read_one :
      (b : ℕ) (bs : List ℕ) (left : ℕ) (err : Option ErrMsg)
      → pb_read rd 1 (reading (b ∷ bs) (suc left) err) ≡ ok (b ∷ []) (reading bs left err)
  read_one b bs left err =
      pb_read-reading rd 1 (b ∷ bs) (suc left) err (omega arith) (omega arith)
      ∙ ap (λ n. ok (b ∷ []) (reading bs n err)) (omega arith)

  skip_last :
      (f b : ℕ) (bs : List ℕ) (left : ℕ) (err : Option ErrMsg)
      → b < 128
      → skip_varint_loop rd (suc f) (reading (b ∷ bs) (suc left) err) ≡ ok tt (reading bs left err)
  unfolding skip_varint_loop first_byte
  skip_last f b bs left err h = rw (read_one b bs left err) (ground (arith, has_more-false b h))

  skip_more :
      (f b : ℕ) (bs : List ℕ) (left : ℕ) (err : Option ErrMsg)
      → 128 ≤ b
      → b < 256
      → skip_varint_loop rd (suc f) (reading (b ∷ bs) (suc left) err)
        ≡ skip_varint_loop rd f (reading bs left err)
  unfolding skip_varint_loop first_byte
  skip_more f b bs left err h g = rw (read_one b bs left err, has_more-true b h g) refl

  skip_varint_loop-groups :
      (k f v : ℕ) (rest : List ℕ) (left : ℕ) (err : Option ErrMsg)
      → length (groups k v) ≤ f
      → v < 128 ^ suc k
      → skip_varint_loop rd f (reading (groups k v ++ rest) (length (groups k v) + left) err)
        ≡ ok tt (reading rest left err)
  unfolding groups
  skip_varint_loop-groups zero zero v rest left err le lt = absurd (omega arith)
  skip_varint_loop-groups zero (suc f) v rest left err le lt =
      ground (arith, skip_last f v rest left err)
  skip_varint_loop-groups (suc k) zero v rest left err le lt = absurd (ground arith)
  skip_varint_loop-groups (suc k) (suc f) v rest left err le lt = elim (dec_lt v 128) [
    | yes small ↦ ground (arith, skip_last f v rest left err)
    | no large ↦ ground (
      arith,
      skip_more f (v % 128 + 128) (groups k (v / 128) ++ rest) (length (groups k (v / 128)) + left)
          err,
      skip_varint_loop-groups k f (v / 128) rest left err,
    )
  ]

  -- Where pb_encode_varint writes a 64-bit number, pb_skip_field with the wire type of a varint moves
  -- past it and stops where it ends.
  pub skip_varint_round_trip :
      (v : ℕ) (p : Place)
      → v < 2 ^ 64
      → HasRoom p 10
      → ReadsBack (pb_encode_varint wr v) (pb_skip_field rd wt_varint) tt p
  unfolding pb_encode_varint pb_skip_field pb_skip_varint
  skip_varint_round_trip v p h fits =
      one_write rd wr (pb_skip_field rd wt_varint) (varint_bytes v) p
        (pb_encode_varint-groups wr v h) (varint_room rd wr v 10 p (omega arith) fits)
        (skip_varint_loop-groups 9 _ v p.rest p.left p.in_err (omega arith) (omega arith))
