-- ===== src/Input/Buffer.antt =====
-- pb_read and pb_readbyte of pb_decode.c on a stream over a buffer.
use yum_quest.Base.{ℕ, suc, ◌-◌, ◌≤◌, ◌<◌, ◌≡◌, refl, Option, List, ◌∷◌, arith, length, take, drop}
use yum_quest.Command.{ok, fail}
use yum_quest.Pb.{ErrMsg, end_of_stream, set_error}
use yum_quest.Input.{IStream, buffer, Reader, pb_read, pb_read_null, pb_readbyte}

-- A stream over the bytes `bs` of which `left` may be read.
abbrev pub reading : {S : Type 0} → List ℕ → ℕ → Option ErrMsg → IStream S
reading bs left err = record { source = buffer bs; bytes_left = left; errmsg = err }

module _ {S : Type 0} (cb : Reader S) where
  pub pb_read-reading :
      (count : ℕ) (bs : List ℕ) (left : ℕ) (err : Option ErrMsg)
      → count ≤ left
      → count ≤ length bs
      → pb_read cb count (reading bs left err)
        ≡ ok (take count bs) (reading (drop count bs) (left - count) err)
  unfolding pb_read
  pb_read-reading count bs left err h g = ground arith

  pub pb_read-short :
      (count : ℕ) (bs : List ℕ) (left : ℕ) (err : Option ErrMsg)
      → left < count
      → pb_read cb count (reading bs left err)
        ≡ fail (reading bs left (set_error err end_of_stream))
  unfolding pb_read
  pb_read-short count bs left err h = ground arith

  pub pb_read_null-reading :
      (count : ℕ) (bs : List ℕ) (left : ℕ) (err : Option ErrMsg)
      → count ≤ left
      → count ≤ length bs
      → pb_read_null cb count (reading bs left err)
        ≡ ok tt (reading (drop count bs) (left - count) err)
  unfolding pb_read_null
  pb_read_null-reading count bs left err h g = ground (arith, pb_read-reading count bs left err h g)

  pub pb_read_null-short :
      (count : ℕ) (bs : List ℕ) (left : ℕ) (err : Option ErrMsg)
      → left < count
      → pb_read_null cb count (reading bs left err)
        ≡ fail (reading bs left (set_error err end_of_stream))
  unfolding pb_read_null
  pb_read_null-short count bs left err h = ground (arith, pb_read-short count bs left err h)

  pub pb_readbyte-cons :
      (b : ℕ) (bs : List ℕ) (left : ℕ) (err : Option ErrMsg)
      → pb_readbyte cb (reading (b ∷ bs) (suc left) err) ≡ ok b (reading bs left err)
  unfolding pb_readbyte
  pb_readbyte-cons b bs left err = ground arith

  pub pb_readbyte-zero :
      (bs : List ℕ) (err : Option ErrMsg)
      → pb_readbyte cb (reading bs 0 err) ≡ fail (reading bs 0 (set_error err end_of_stream))
  unfolding pb_readbyte
  pb_readbyte-zero bs err = refl
