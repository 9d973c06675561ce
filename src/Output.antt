-- ===== src/Output.antt =====
-- YumQuest/Pods/nanopb/pb_encode.c, the `pb_ostream_t` implementation: buf_write,
-- pb_ostream_from_buffer and pb_write, over a buffer, over a callback of the user, or over nothing
-- (the stream PB_OSTREAM_SIZING of pb_encode.h, which only counts).
pub mod Buffer
use yum_quest.Base.{
  ℕ, ◌+◌, ◌-◌, Bool, true, false, Option, none, List, [], ◌++◌, ltb, leb, ◌&&◌, if◌then◌else◌,
  length, take,
}
use yum_quest.Command.{ok, fail, fault, Cmd}
use yum_quest.Pb.{ErrMsg, stream_full, io_error, set_error, u64}

-- What `callback` and `state` of a stream stand for: NULL; `buf_write` with the bytes written so
-- far and the room behind the pointer in its array; or a function of the user and its state.
pub data Sink (T : Type 0) : Type 0 where
  sizing : Sink T
  buffer : List ℕ → ℕ → Sink T
  user : T → Sink T

pub record OStream (T : Type 0) : Type 0 where
  pub sink : Sink T
  pub max_size : ℕ
  pub bytes_written : ℕ
  pub errmsg : Option ErrMsg

-- The user's callback, on its state and the bytes: its answer and its new state.
abbrev pub Writer : Type 0 → Type 0
Writer T = T → List ℕ → Bool × T

abbrev pub is_sizing : {T : Type 0} → Sink T → Bool
is_sizing sizing = true
is_sizing (buffer _ _) = false
is_sizing (user _) = false

-- PB_RETURN_ERROR on an output stream.
unfoldable pub return_error : {T A : Type 0} → ErrMsg → Cmd (OStream T) A
return_error msg s = fail (record s { errmsg = set_error s.errmsg msg })

-- PB_OSTREAM_SIZING
abbrev pub pb_ostream_sizing : {T : Type 0} → OStream T
pb_ostream_sizing = record { sink = sizing; max_size = 0; bytes_written = 0; errmsg = none }

-- pb_ostream_from_buffer: `room` is the length of the array at `buf`.
abbrev pub pb_ostream_from_buffer : {T : Type 0} → ℕ → ℕ → OStream T
pb_ostream_from_buffer room bufsize = record {
  sink = buffer [] room;
  max_size = bufsize;
  bytes_written = 0;
  errmsg = none;
}

module _ {T : Type 0} (cb : Writer T) where
  -- stream->callback(stream, buf, count) where it is not NULL; `bytes` is the array at `buf`.
  unfoldable pub call_sink : List ℕ → ℕ → Sink T → Cmd (OStream T) (Unit {0})
  call_sink bytes count sizing s = fault
  call_sink bytes count (buffer out room) s =
      if leb count (length bytes) && leb count room
      then ok tt (record s { sink = buffer (out ++ take count bytes) (room - count) })
      else fault
  call_sink bytes count (user t) s =
      let (done, t') = cb t (take count bytes) in
      let s' = record s { sink = user t' } in
      if leb count (length bytes)
      then (if done then ok tt s' else fail (record s' { errmsg = set_error s'.errmsg io_error }))
      else fault

  unfoldable pub count_written : ℕ → Cmd (OStream T) (Unit {0})
  count_written count s = ok tt (record s { bytes_written = u64 (s.bytes_written + count) })

  unfoldable pub pb_write : List ℕ → ℕ → Cmd (OStream T) (Unit {0})
  unfolding call_sink count_written return_error
  pb_write bytes count s =
      if is_sizing s.sink
      then count_written count s
      else if ltb s.max_size (u64 (s.bytes_written + count))
      then return_error stream_full s
      else elim (call_sink bytes count s.sink s) [
        | ok _ s' ↦ count_written count s'
        | other ↦ other
      ]
