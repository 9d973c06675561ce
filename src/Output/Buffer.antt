-- ===== src/Output/Buffer.antt =====
-- pb_write of pb_encode.c on a stream over a buffer and on the sizing stream.
use yum_quest.Base.{ℕ, ◌+◌, ◌-◌, ◌≤◌, ◌<◌, ◌^◌, ◌≡◌, Option, List, ◌++◌, arith, length, take}
use yum_quest.Command.{ok, fail}
use yum_quest.Pb.{ErrMsg, stream_full, set_error}
use yum_quest.Output.{OStream, sizing, buffer, Writer, pb_write}

-- A stream that has put `out` in its array, with `room` bytes of the array behind it.
abbrev pub writing : {T : Type 0} → List ℕ → ℕ → ℕ → ℕ → Option ErrMsg → OStream T
writing out room max_size bytes_written err = record {
  sink = buffer out room;
  max_size = max_size;
  bytes_written = bytes_written;
  errmsg = err;
}

abbrev pub counting : {T : Type 0} → ℕ → ℕ → Option ErrMsg → OStream T
counting max_size bytes_written err = record {
  sink = sizing;
  max_size = max_size;
  bytes_written = bytes_written;
  errmsg = err;
}

module _ {T : Type 0} (cb : Writer T) where
  pub pb_write-writing :
      (bytes : List ℕ) (count : ℕ) (out : List ℕ) (room m w : ℕ) (err : Option ErrMsg)
      → count ≤ length bytes
      → count ≤ room
      → w + count ≤ m
      → m < 2 ^ 64
      → pb_write cb bytes count (writing out room m w err)
        ≡ ok tt (writing (out ++ take count bytes) (room - count) m (w + count) err)
  unfolding pb_write
  pb_write-writing bytes count out room m w err h g k l = ground arith

  pub pb_write-full :
      (bytes : List ℕ) (count : ℕ) (out : List ℕ) (room m w : ℕ) (err : Option ErrMsg)
      → m < w + count
      → w + count < 2 ^ 64
      → pb_write cb bytes count (writing out room m w err)
        ≡ fail (writing out room m w (set_error err stream_full))
  unfolding pb_write
  pb_write-full bytes count out room m w err h g = ground arith

  pub pb_write-counting :
      (bytes : List ℕ) (count : ℕ) (m w : ℕ) (err : Option ErrMsg)
      → w + count < 2 ^ 64
      → pb_write cb bytes count (counting m w err) ≡ ok tt (counting m (w + count) err)
  unfolding pb_write
  pb_write-counting bytes count m w err h = ground arith
