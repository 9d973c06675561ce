-- ===== src/Varint/Decode.antt =====
-- pb_decode_varint and pb_decode_varint32 of pb_decode.c on canonical varints.
use yum_quest.Base.{
  ℕ, zero, suc, ◌+◌, ◌*◌, ◌/◌, ◌%◌, ◌^◌, ◌≤◌, ◌<◌, ◌≡◌, Option, List, ◌∷◌, ◌++◌, arith, length,
  Bool-cases, inl, inr, true, ltb,
}
use yum_quest.Base.Bits.{mask_7f, mask_80}
use yum_quest.Command.{ok}
use yum_quest.Pb.{ErrMsg}
use yum_quest.Input.{Reader}
use yum_quest.Input.Buffer.{reading, pb_readbyte-cons}
use yum_quest.Varint.{varint_loop, pb_decode_varint, varint32_loop, pb_decode_varint32}
use yum_quest.Varint.Format.{
  groups, varint_bytes, has_more-true, has_more-false, add_group64_lem, add_group32_lem,
  split_group, group_bound, varint_bytes-u32,
}

module _ {S : Type 0} (cb : Reader S) where
  -- One round on a byte that is there.
  varint_loop_last :
      (f p r b : ℕ) (bs : List ℕ) (left : ℕ) (err : Option ErrMsg)
      → p < 64
      → b < 128
      → r < 2 ^ p
      → b * 2 ^ p < 2 ^ 64
      → varint_loop cb (suc f) p r (reading (b ∷ bs) (suc left) err)
        ≡ ok (r + b * 2 ^ p) (reading bs left err)
  unfolding varint_loop
  varint_loop_last f p r b bs left err hp hb hr fits = ground (
    arith,
    pb_readbyte-cons cb b bs left err,
    has_more-false b hb,
    add_group64_lem r b p (omega arith) hr,
  )

  varint_loop_more :
      (f p r g : ℕ) (bs : List ℕ) (left : ℕ) (err : Option ErrMsg)
      → p < 64
      → g < 128
      → r < 2 ^ p
      → g * 2 ^ p < 2 ^ 64
      → varint_loop cb (suc f) p r (reading ((g + 128) ∷ bs) (suc left) err)
        ≡ varint_loop cb f (p + 7) (r + g * 2 ^ p) (reading bs left err)
  unfolding varint_loop
  varint_loop_more f p r g bs left err hp hg hr fits = ground (
    arith,
    pb_readbyte-cons cb (g + 128) bs left err,
    has_more-true (g + 128) (omega arith) (omega arith),
    add_group64_lem r (g + 128) p (omega arith) hr,
  )

  varint_loop-groups :
      (k f p r v : ℕ) (rest : List ℕ) (left : ℕ) (err : Option ErrMsg)
      → k < f
      → p + 7 * k ≤ 63
      → r < 2 ^ p
      → v < 128 ^ suc k
      → v * 2 ^ p < 2 ^ 64
      → varint_loop cb f p r (reading (groups k v ++ rest) (length (groups k v) + left) err)
        ≡ ok (r + v * 2 ^ p) (reading rest left err)
  unfolding groups
  varint_loop-groups k zero p r v rest left err hf hp hr hv fits = absurd (omega arith)
  varint_loop-groups zero (suc f) p r v rest left err hf hp hr hv fits =
      ground (arith, varint_loop_last f p r v rest left err)
  varint_loop-groups (suc k) (suc f) p r v rest left err hf hp hr hv fits = ground (
    arith,
    varint_loop_last f p r v rest left err,
    varint_loop_more f p r (v % 128) (groups k (v / 128) ++ rest)
        (length (groups k (v / 128)) + left) err,
    split_group v p,
    group_bound r (v % 128) p hr,
    varint_loop-groups k f (p + 7) (r + v % 128 * 2 ^ p) (v / 128) rest left err (omega arith)
        (omega arith),
  )

  -- pb_decode_varint reads the canonical varint of a 64-bit number and leaves what follows it.
  pub pb_decode_varint-groups :
      (v : ℕ) (rest : List ℕ) (left : ℕ) (err : Option ErrMsg)
      → v < 2 ^ 64
      → pb_decode_varint cb (reading (varint_bytes v ++ rest) (length (varint_bytes v) + left) err)
        ≡ ok v (reading rest left err)
  unfolding pb_decode_varint
  pb_decode_varint-groups v rest left err h =
      ground (arith, varint_loop-groups 9 11 0 0 v rest left err)

  varint32_loop_last :
      (f p r b : ℕ) (bs : List ℕ) (left : ℕ) (err : Option ErrMsg)
      → p < 32
      → b < 128
      → r < 2 ^ p
      → b * 2 ^ p < 2 ^ 32
      → varint32_loop cb (suc f) p r (reading (b ∷ bs) (suc left) err)
        ≡ ok (r + b * 2 ^ p) (reading bs left err)
  unfolding varint32_loop
  varint32_loop_last f p r b bs left err hp hb hr fits = ground (
    arith,
    pb_readbyte-cons cb b bs left err,
    has_more-false b hb,
    add_group32_lem r b p (omega arith) hr,
  )

  varint32_loop_more :
      (f p r g : ℕ) (bs : List ℕ) (left : ℕ) (err : Option ErrMsg)
      → p < 32
      → g < 128
      → r < 2 ^ p
      → g * 2 ^ p < 2 ^ 32
      → varint32_loop cb (suc f) p r (reading ((g + 128) ∷ bs) (suc left) err)
        ≡ varint32_loop cb f (p + 7) (r + g * 2 ^ p) (reading bs left err)
  unfolding varint32_loop
  varint32_loop_more f p r g bs left err hp hg hr fits = ground (
    arith,
    pb_readbyte-cons cb (g + 128) bs left err,
    has_more-true (g + 128) (omega arith) (omega arith),
    add_group32_lem r (g + 128) p (omega arith) hr,
  )

  varint32_loop-groups :
      (k f p r v : ℕ) (rest : List ℕ) (left : ℕ) (err : Option ErrMsg)
      → k < f
      → p + 7 * k ≤ 31
      → r < 2 ^ p
      → v < 128 ^ suc k
      → v * 2 ^ p < 2 ^ 32
      → varint32_loop cb f p r (reading (groups k v ++ rest) (length (groups k v) + left) err)
        ≡ ok (r + v * 2 ^ p) (reading rest left err)
  unfolding groups
  varint32_loop-groups k zero p r v rest left err hf hp hr hv fits = absurd (omega arith)
  varint32_loop-groups zero (suc f) p r v rest left err hf hp hr hv fits =
      ground (arith, varint32_loop_last f p r v rest left err)
  varint32_loop-groups (suc k) (suc f) p r v rest left err hf hp hr hv fits = ground (
    arith,
    varint32_loop_last f p r v rest left err,
    varint32_loop_more f p r (v % 128) (groups k (v / 128) ++ rest)
        (length (groups k (v / 128)) + left) err,
    split_group v p,
    group_bound r (v % 128) p hr,
    varint32_loop-groups k f (p + 7) (r + v % 128 * 2 ^ p) (v / 128) rest left err (omega arith)
        (omega arith),
  )

  pub pb_decode_varint32-groups4 :
      (v : ℕ) (rest : List ℕ) (left : ℕ) (err : Option ErrMsg)
      → v < 2 ^ 32
      → pb_decode_varint32 cb (reading (groups 4 v ++ rest) (length (groups 4 v) + left) err)
        ≡ ok v (reading rest left err)
  unfolding pb_decode_varint32
  pb_decode_varint32-groups4 v rest left err h = elim (Bool-cases (ltb v 128)) [
    | inl small ↦
        unfold groups in
        ground
          (arith, pb_readbyte-cons cb v rest left err, mask_80 v (omega (arith, small_lt small)))
    | inr large ↦
        unfold groups in
        ground (
          arith,
          pb_readbyte-cons cb (v % 128 + 128) (groups 3 (v / 128) ++ rest)
              (length (groups 3 (v / 128)) + left) err,
          mask_80 (v % 128 + 128) (omega arith),
          mask_7f (v % 128 + 128) (omega arith),
          varint32_loop-groups 3 5 7 (v % 128) (v / 128) rest left err,
        )
  ]
    where
      small_lt : ltb v 128 ≡ true → v < 128
      small_lt e = ground arith

module _ {S : Type 0} (cb : Reader S) where
  -- pb_decode_varint32 reads the canonical varint of a 32-bit number and leaves what follows it.
  pub pb_decode_varint32-groups :
      (v : ℕ) (rest : List ℕ) (left : ℕ) (err : Option ErrMsg)
      → v < 2 ^ 32
      → pb_decode_varint32 cb
          (reading (varint_bytes v ++ rest) (length (varint_bytes v) + left) err)
        ≡ ok v (reading rest left err)
  pb_decode_varint32-groups v rest left err h =
      rw (varint_bytes-u32 v h) (pb_decode_varint32-groups4 cb v rest left err h)
