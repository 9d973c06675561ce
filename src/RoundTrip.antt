-- ===== src/RoundTrip.antt =====
-- The helper functions of YumQuest/Pods/nanopb/pb_encode.c and pb_decode.c together: a place to write
-- at and to read at, and what it is for a value to be read back.
pub mod Numbers
pub mod Fields
pub mod Skip
pub mod Signed
pub mod Strings
pub mod StringFields
pub mod BytesFields
pub mod Carries
pub mod Scalars
pub mod Tags
pub mod Flat
mod Tests
use yum_quest.Base.{ℕ, ◌+◌, ◌-◌, ◌≤◌, ◌<◌, ◌^◌, ◌≡◌, Option, List, ◌++◌, length}
use yum_quest.Command.{ok, Cmd}
use yum_quest.Pb.{ErrMsg}
use yum_quest.Input.{IStream}
use yum_quest.Input.Buffer.{reading}
use yum_quest.Output.{OStream}
use yum_quest.Output.Buffer.{writing}

-- A place to write at: a buffer with `out` already in it, and a place to read at: what follows the
-- value, and the bytes that may be read of it.
pub record Place : Type 0 where
  pub out : List ℕ
  pub room : ℕ
  pub max_size : ℕ
  pub written : ℕ
  pub out_err : Option ErrMsg
  pub rest : List ℕ
  pub left : ℕ
  pub in_err : Option ErrMsg

module _ {S T A : Type 0} where
  -- The writer succeeds, appends some bytes and counts them; the reader succeeds on these bytes,
  -- whatever follows them, with the value, and stops where they end.
  abbrev pub ReadsBack : Cmd (OStream T) (Unit {0}) → Cmd (IStream S) A → A → Place → Type 0
  ReadsBack enc dec a p =
      (bytes : List ℕ) × (enc (writing p.out p.room p.max_size p.written p.out_err)
        ≡ ok tt (
            writing (p.out ++ bytes) (p.room - length bytes) p.max_size (p.written + length bytes)
              p.out_err))
      × (dec (reading (bytes ++ p.rest) (length bytes + p.left) p.in_err)
          ≡ ok a (reading p.rest p.left p.in_err))

-- The place has room for `n` bytes more: in the array, and below the limit of the stream.
pub record HasRoom (p : Place) (n : ℕ) : Type 0 where
  pub in_array : n ≤ p.room
  pub in_limit : p.written + n ≤ p.max_size
  pub size_t : p.max_size < 2 ^ 64
