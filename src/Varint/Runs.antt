-- ===== src/Varint/Runs.antt =====
-- The varint decoders of pb_decode.c always answer.
use yum_quest.Base.{
  ℕ, zero, suc, ◌+◌, ◌*◌, ◌^◌, ◌≤◌, ◌<◌, bit_and, leb, Bool-cases, inl, inr, ◌==◌, arith,
}
use yum_quest.Base.Bits.{bit_or_below, mask_127}
use yum_quest.Pb.{varint_overflow, u8}
use yum_quest.Input.{IStream, Reader, pb_read, first_byte}
use yum_quest.Input.Runs.{
  Covers, Answers, SomeValue, Runs-weaken, Runs-bind, Runs-pure, Runs-if, Runs-test, Answers-then,
}
use yum_quest.Input.Runs.Read.{
  Delivers, byte_of, Reads, Reads-error, pb_read-Reads, pb_readbyte-Reads,
}
use yum_quest.Varint.{
  has_more, add_group32, add_group64, varint32_loop, pb_decode_varint32, varint_loop,
  pb_decode_varint, skip_varint_loop, pb_skip_varint, unzigzag, pb_decode_svarint,
}

add_group32_below : (r b p : ℕ) → r < 2 ^ 32 → add_group32 r b p < 2 ^ 32
add_group32_below r b p h = bit_or_below 32 r _ h (omega arith)

low_byte : (b : ℕ) → bit_and b 0x7F < 2 ^ 32
low_byte b = omega (arith, mask_127 b)

module _ {S : Type 0} (cb : Reader S) (delivers : Delivers cb) where
  -- The rounds are enough for the bits that are left.
  varint32_loop-Reads :
      (fuel p r : ℕ)
      → 39 ≤ p + 7 * fuel
      → p < 39
      → r < 2 ^ 32
      → Reads 0 (λ v. v < 2 ^ 32) (varint32_loop cb fuel p r)
  unfolding varint32_loop
  varint32_loop-Reads zero p r enough low h = absurd (omega arith)
  varint32_loop-Reads (suc fuel) p r enough low h =
      Runs-test 0 (leb 32 p) (λ big. Reads-error 0 varint_overflow)
        (λ small.
          Runs-bind 0 (Runs-weaken 1 0 (omega arith) (λ b lt. lt) (pb_readbyte-Reads cb delivers))
            (λ b lt.
              Runs-if 0 (has_more b)
                (λ m.
                  varint32_loop-Reads fuel (u8 (p + 7)) (add_group32 r b p) (ground arith)
                    (ground arith) (add_group32_below r b p h))
                (λ m. Runs-pure _ (add_group32_below r b p h))))

  pub pb_decode_varint32-Reads : Reads 1 (λ v. v < 2 ^ 32) (pb_decode_varint32 cb)
  unfolding pb_decode_varint32
  pb_decode_varint32-Reads = Runs-bind 1 (pb_readbyte-Reads cb delivers) (λ b lt.
      Runs-if 0 (bit_and b 0x80 == 0) (λ e. Runs-pure b (omega arith))
        (λ e. varint32_loop-Reads 5 7 (bit_and b 0x7F) (omega arith) (omega arith) (low_byte b)))

  varint_loop-Reads :
      (fuel p r k : ℕ)
      → 71 ≤ p + 7 * fuel
      → p < 71
      → k ≤ 1
      → Reads k SomeValue (varint_loop cb fuel p r)
  unfolding varint_loop
  varint_loop-Reads zero p r k enough low le = absurd (omega arith)
  varint_loop-Reads (suc fuel) p r k enough low le =
      Runs-test k (leb 64 p) (λ big. Reads-error k varint_overflow)
        (λ small.
          Runs-bind k (Runs-weaken 1 k le (λ b lt. lt) (pb_readbyte-Reads cb delivers)) (λ b lt.
            Runs-if 0 (has_more b)
              (λ m.
                varint_loop-Reads fuel (u8 (p + 7)) (add_group64 r b p) 0 (ground arith)
                  (ground arith) (omega arith))
              (λ m. Runs-pure _ tt)))

  pub pb_decode_varint-Reads : Reads 1 SomeValue (pb_decode_varint cb)
  unfolding pb_decode_varint
  pb_decode_varint-Reads = varint_loop-Reads 11 0 0 1 (omega arith) (omega arith) (omega arith)

  pub pb_decode_svarint-Reads : Reads 1 SomeValue (pb_decode_svarint cb)
  unfolding pb_decode_svarint
  pb_decode_svarint-Reads = Runs-bind 1 pb_decode_varint-Reads (λ v t. Runs-pure (unzigzag v) tt)

  -- A round for each byte left.
  skip_varint_loop_at :
      (fuel c : ℕ) (s : IStream S)
      → Covers c s
      → s.bytes_left < fuel
      → Answers (λ (s : IStream S). s) c s.bytes_left 0 SomeValue (skip_varint_loop cb fuel s)
  unfolding skip_varint_loop
  skip_varint_loop_at zero c s cov lt = absurd (omega arith)
  skip_varint_loop_at (suc fuel) c s cov lt =
      Answers-then (λ (s : IStream S). s) SomeValue _ c s.bytes_left 1 0 0 (pb_read cb 1 s)
        (omega arith) ((pb_read-Reads cb delivers 1).at c s cov)
        (λ bytes t cov' less r.
          Answers-then (λ (s : IStream S). s) SomeValue _ c t.bytes_left 0 0 0 (first_byte bytes t)
            (omega arith) ((byte_of cb delivers bytes r).at c t cov')
            (λ b u cov'' less' r'. elim (Bool-cases (has_more b)) [
              | inl m ↦ rw m (skip_varint_loop_at fuel c u cov'' (omega arith))
              | inr m ↦ rw m (cov'', omega arith, tt)
            ]))

  pub pb_skip_varint-Reads : Reads 0 SomeValue (pb_skip_varint cb)
  unfolding pb_skip_varint
  pb_skip_varint-Reads = record {
    at = λ c s cov. skip_varint_loop_at (s.bytes_left + 1) c s cov (omega arith);
  }
