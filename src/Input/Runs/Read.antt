-- ===== src/Input/Runs/Read.antt =====
-- pb_read and pb_readbyte of pb_decode.c always answer, and how much they read.
use yum_quest.Base.{
  ℕ, zero, suc, ◌+◌, ◌-◌, ◌≤◌, ◌<◌, ◌≡◌, refl, true, false, Option, List, [], ◌∷◌, length, take,
  drop, length-take, length-drop, ltb, ◌==◌, arith, Bool-cases, inl, inr,
}
use yum_quest.Command.{Cmd, and_then, ◌>>=◌, ◌>>◌, pure}
use yum_quest.Pb.{ErrMsg}
use yum_quest.Input.{
  IStream, Source, buffer, user, Reader, return_error, first_byte, consume, pb_read, pb_readbyte,
  skip_chunks, pb_read_null, is_buffer,
}
use yum_quest.Input.Buffer.{pb_read-reading, pb_readbyte-cons}
use yum_quest.Input.Runs.{
  AreBytes, Provides, Answers, Runs, SomeValue, Runs-weaken, Runs-bind, Runs-pure, Runs-fail,
  Runs-test, Runs-case,
}

-- What pb_decode.h asks of a callback: where it answers `true` it has stored as many bytes as it was
-- asked for and left bytes_left alone; where it answers `false` it may have set bytes_left to less.
pub record Delivers {S : Type 0} (cb : Reader S) : Type 0 where
  pub stored :
      (u : S) (left count : ℕ)
      → (cb u left count).done ≡ true
      → (length (cb u left count).bytes ≡ count)
        × AreBytes (cb u left count).bytes
        × ((cb u left count).bytes_left ≡ left)
  pub no_more : (u : S) (left count : ℕ) → (cb u left count).bytes_left ≤ left

AreBytes-take : (n : ℕ) (bs : List ℕ) → AreBytes bs → AreBytes (take n bs)
AreBytes-take zero bs h = tt
AreBytes-take (suc n) [] h = tt
AreBytes-take (suc n) (b ∷ bs) h = (h.0, AreBytes-take n bs h.1)

AreBytes-drop : (n : ℕ) (bs : List ℕ) → AreBytes bs → AreBytes (drop n bs)
AreBytes-drop zero bs h = h
AreBytes-drop (suc n) [] h = tt
AreBytes-drop (suc n) (b ∷ bs) h = AreBytes-drop n bs h.1

-- A command on the stream alone that answers, has read `k` bytes, and gives a value with `R`.
abbrev pub Reads : {S A : Type 0} → ℕ → (A → Type 0) → Cmd (IStream S) A → Type 0
Reads {S} k R m = Runs (λ (s : IStream S). s) k R m

abbrev pub BytesRead : ℕ → List ℕ → Type 0
BytesRead count bytes = (length bytes ≡ count) × AreBytes bytes

positive : (n : ℕ) → (suc n == 0) ≡ false
positive n = ground arith

module _ {S : Type 0} where
  pub Reads-error :
      {A : Type 0} {R : A → Type 0} (k : ℕ) (msg : ErrMsg) → Reads {S = S} k R (return_error msg)
  unfolding return_error
  Reads-error k msg = Runs-fail k (λ s. (_, refl, refl, refl))

module _ {S : Type 0} (cb : Reader S) (delivers : Delivers cb) where
  pb_read_at :
      (count c : ℕ) (src : Source S) (left : ℕ) (err : Option ErrMsg)
      → Provides (left + c) src
      → Answers
          (λ (s : IStream S). s)
          c
          left
          count
          (BytesRead count)
          (pb_read cb count (record { source = src; bytes_left = left; errmsg = err }))
  unfolding pb_read return_error
  pb_read_at count c (buffer bs) left err h = elim (Bool-cases (ltb left count)) [
    | inl short ↦ rw short (h, omega arith)
    | inr fits ↦ rw (pb_read-reading cb count bs left err (ground arith) (ground (arith, h.0))) (
      (ground (arith, length-drop count bs, h.0), AreBytes-drop count bs h.1),
      ground arith,
      (length-take count bs (ground (arith, h.0)), AreBytes-take count bs h.1),
    )
  ]
  pb_read_at count c (user u) left err h = elim (Bool-cases (ltb left count)) [
    | inl short ↦ rw short (tt, omega arith)
    | inr fits ↦ rw fits (elim (Bool-cases (cb u left count).done) [
      | inl done ↦
          let (n, bytes, same) = delivers.stored u left count done in
          rw done (tt, ground (arith, same), (n, bytes))
      | inr failed ↦ rw failed (tt, delivers.no_more u left count)
    ])
  ]

  pub pb_read-Reads : (count : ℕ) → Reads count (BytesRead count) (pb_read cb count)
  pb_read-Reads count = record {
    at = λ c s cov. pb_read_at count c s.source s.bytes_left s.errmsg cov;
  }

  pub byte_of :
      (bytes : List ℕ) → BytesRead 1 bytes → Reads 0 (λ b. b < 256) (first_byte {S = S} bytes)
  unfolding first_byte
  byte_of [] h = absurd (omega (arith, h.0))
  byte_of (b ∷ bytes) h = record { at = λ c s cov. (cov, omega arith, h.1.0) }

  -- The byte that a one-byte read takes, as pb_skip_varint and read_raw_value do.
  pub read_one-Reads : Reads 1 (λ b. b < 256) (pb_read cb 1 >>= (λ bytes. first_byte bytes))
  read_one-Reads = Runs-bind 1 (pb_read-Reads 1) byte_of

  one_byte :
      (c : ℕ) (u : S) (left : ℕ) (err : Option ErrMsg) (bytes : List ℕ)
      → BytesRead 1 bytes
      → 1 ≤ left
      → Answers
          (λ (s : IStream S). s)
          c
          left
          1
          (λ b. b < 256)
          (and_then
            (first_byte bytes (record { source = user u; bytes_left = left; errmsg = err }))
            (λ b. consume 1 >> pure b))
  unfolding first_byte consume
  one_byte c u left err [] h le = absurd (omega (arith, h.0))
  one_byte c u left err (b ∷ bytes) h le = (tt, ground arith, h.1.0)

  pb_readbyte_at :
      (c : ℕ) (src : Source S) (left : ℕ) (err : Option ErrMsg)
      → Provides (left + c) src
      → Answers
          (λ (s : IStream S). s)
          c
          left
          1
          (λ b. b < 256)
          (pb_readbyte cb (record { source = src; bytes_left = left; errmsg = err }))
  unfolding pb_readbyte return_error
  pb_readbyte_at c src zero err h = (h, omega arith)
  pb_readbyte_at c (buffer []) (suc left) err h = absurd (omega (arith, h.0))
  pb_readbyte_at c (buffer (b ∷ bs)) (suc left) err h =
      rw (pb_readbyte-cons cb b bs left err) ((omega (arith, h.0), h.1.1), omega arith, h.1.0)
  pb_readbyte_at c (user u) (suc left) err h = elim (Bool-cases (cb u (suc left) 1).done) [
    | inl done ↦
        let (n, bytes, same) = delivers.stored u (suc left) 1 done in
        rw (positive left, done, same)
          (one_byte c (cb u (suc left) 1).state (suc left) err (cb u (suc left) 1).bytes (n, bytes)
            (omega arith))
    | inr failed ↦ rw (positive left, failed) (tt, delivers.no_more u (suc left) 1)
  ]

  pub pb_readbyte-Reads : Reads 1 (λ b. b < 256) (pb_readbyte cb)
  pb_readbyte-Reads = record { at = λ c s cov. pb_readbyte_at c s.source s.bytes_left s.errmsg cov }

  -- Whatever the number of bytes.
  read_all-Reads : (count : ℕ) → Reads 0 SomeValue (pb_read cb count >> pure tt)
  read_all-Reads count =
      Runs-bind 0 (Runs-weaken count 0 (omega arith) (λ b r. r) (pb_read-Reads count))
        (λ b r. Runs-pure tt tt)

  skip_chunks-Reads :
      (fuel count : ℕ) → count < fuel → Reads 0 SomeValue (skip_chunks cb fuel count)
  unfolding skip_chunks
  skip_chunks-Reads zero count lt = absurd (omega arith)
  skip_chunks-Reads (suc fuel) count lt =
      Runs-test 0 (ltb 16 count)
        (λ big.
          Runs-bind 0 (Runs-weaken 16 0 (omega arith) (λ b r. r) (pb_read-Reads 16))
            (λ b r. skip_chunks-Reads fuel (count - 16) (ground arith)))
        (λ small. read_all-Reads count)

  pub pb_read_null-Reads : (count : ℕ) → Reads 0 SomeValue (pb_read_null cb count)
  unfolding pb_read_null
  pb_read_null-Reads count =
      Runs-case 0 (λ s. is_buffer s.source) (read_all-Reads count)
        (skip_chunks-Reads (count + 1) count (omega arith))
