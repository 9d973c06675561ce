-- ===== src/Input.antt =====
-- YumQuest/Pods/nanopb/pb_decode.c, the `pb_istream_t` implementation: pb_read, pb_readbyte,
-- pb_istream_from_buffer, over a buffer or over a callback of the user.
pub mod Buffer
pub mod Runs
use yum_quest.Base.{
  ℕ, zero, suc, ◌+◌, ◌-◌, Bool, true, false, Option, none, List, [], ◌∷◌, ltb, leb, ◌==◌,
  if◌then◌else◌, length, take, drop,
}
use yum_quest.Command.{ok, fail, fault, stuck, Cmd, pure, ◌>>=◌, ◌>>◌}
use yum_quest.Pb.{ErrMsg, end_of_stream, io_error, set_error, sub_size}

-- What `callback` and `state` of a stream stand for: `buf_read` and the bytes from the pointer to
-- the end of its array, or a function of the user and its state.
pub data Source (S : Type 0) : Type 0 where
  buffer : List ℕ → Source S
  user : S → Source S

pub record IStream (S : Type 0) : Type 0 where
  pub source : Source S
  pub bytes_left : ℕ
  pub errmsg : Option ErrMsg

-- What a call of the user's callback did: its answer, the bytes it stored in the caller's array,
-- and the fields of the stream that it may write.
pub record Fetched (S : Type 0) : Type 0 where
  pub done : Bool
  pub bytes : List ℕ
  pub state : S
  pub bytes_left : ℕ

-- The user's callback, on its state, `bytes_left` and the number of bytes wanted.
abbrev pub Reader : Type 0 → Type 0
Reader S = S → ℕ → ℕ → Fetched S

abbrev pub is_buffer : {S : Type 0} → Source S → Bool
is_buffer (buffer _) = true
is_buffer (user _) = false

-- PB_RETURN_ERROR on an input stream.
unfoldable pub return_error : {S A : Type 0} → ErrMsg → Cmd (IStream S) A
return_error msg s = fail (record s { errmsg = set_error s.errmsg msg })

-- pb_istream_from_buffer: `bs` is the array at `buf`.
abbrev pub pb_istream_from_buffer : {S : Type 0} → List ℕ → ℕ → IStream S
pb_istream_from_buffer bs bufsize = record {
  source = buffer bs;
  bytes_left = bufsize;
  errmsg = none;
}

module _ {S : Type 0} where
  -- buf_read takes the bytes from the array whatever `bytes_left` says; past its end is undefined.
  unfoldable pub buf_read : List ℕ → ℕ → Cmd (IStream S) (List ℕ)
  buf_read bs count s =
      if leb count (length bs)
      then ok (take count bs) (record s { source = buffer (drop count bs) })
      else fault

  -- if (!stream->callback(stream, buf, count)) PB_RETURN_ERROR(stream, "io error")
  unfoldable pub fetched : Fetched S → Cmd (IStream S) (List ℕ)
  unfolding return_error
  fetched f s =
      let s' = record s { source = user f.state; bytes_left = f.bytes_left } in
      if f.done then ok f.bytes s' else return_error io_error s'

  unfoldable pub consume : ℕ → Cmd (IStream S) (Unit {0})
  consume count s = ok tt (record s { bytes_left = sub_size s.bytes_left count })

  -- Reading a byte of an array that the callback left empty would read an uninitialised one.
  unfoldable pub first_byte : List ℕ → Cmd (IStream S) ℕ
  first_byte [] s = fault
  first_byte (b ∷ _) s = ok b s

module _ {S : Type 0} (cb : Reader S) where
  unfoldable pub call_source : ℕ → Source S → Cmd (IStream S) (List ℕ)
  unfolding buf_read fetched
  call_source count (buffer bs) s = buf_read bs count s
  call_source count (user u) s = fetched (cb u s.bytes_left count) s

  unfoldable pub call : ℕ → Cmd (IStream S) (List ℕ)
  unfolding call_source
  call count s = call_source count s.source s

  -- pb_read into an array, lines 110 to 122.
  unfoldable pub pb_read : ℕ → Cmd (IStream S) (List ℕ)
  unfolding call consume return_error
  pb_read count s =
      if ltb s.bytes_left count
      then return_error end_of_stream s
      else (do bytes ← call count; consume count; pure bytes) s

  -- The chunks of 16 that pb_read reads and drops where `buf` is NULL and the source is a callback.
  unfoldable pub skip_chunks : ℕ → ℕ → Cmd (IStream S) (Unit {0})
  unfolding pb_read
  skip_chunks zero count s = stuck
  skip_chunks (suc fuel) count s =
      let more = (pb_read 16 >> skip_chunks fuel (count - 16)) s in
      if ltb 16 count then more else (pb_read count >> pure tt) s

  -- pb_read with `buf` NULL. Each chunk takes 16 bytes, so `count + 1` rounds are enough.
  unfoldable pub pb_read_null : ℕ → Cmd (IStream S) (Unit {0})
  unfolding skip_chunks
  pb_read_null count s =
      if is_buffer s.source then (pb_read count >> pure tt) s else skip_chunks (count + 1) count s

  unfoldable pub pb_readbyte : Cmd (IStream S) ℕ
  unfolding call first_byte consume return_error
  pb_readbyte s =
      if s.bytes_left == 0
      then return_error end_of_stream s
      else (do bytes ← call 1; b ← first_byte bytes; consume 1; pure b) s
