-- ===== src/Decoder.antt =====
-- The state and the surroundings of the decoder of YumQuest/Pods/nanopb/pb_decode.c: a stream and
-- the memory, the descriptor arrays, and the functions of the user that pb_decode.c calls.
pub mod Values
pub mod Defaults
pub mod Fields
pub mod Required
pub mod Message
pub mod Keeps
pub mod Bounds
pub mod Decodable
pub mod Runs
mod Tests
use yum_quest.Base.{ℕ, Bool, true, false, Option, List, if◌then◌else◌}
use yum_quest.Command.{Outcome, ok, fail, fault, stuck, Cmd}
use yum_quest.Pb.{ErrMsg, set_error}
use yum_quest.Input
use yum_quest.Input.{IStream, Reader}
use yum_quest.Memory.{Mem}
use yum_quest.Field.{Field}

pub record Decoding (S : Type 0) : Type 0 where
  pub stream : IStream S
  pub mem : Mem

-- A pb_extension_type_t: `decode` is the handler of the user, if there is one, on the address of
-- the extension, the tag and the wire type; `arg` is the descriptor array for the default handler.
pub record ExtensionType (S : Type 0) : Type 0 where
  pub decode : Option (ℕ → ℕ → ℕ → Cmd (Decoding S) (Unit {0}))
  pub arg : List Field

-- What the addresses in descriptors and structs stand for: the stream callback, the descriptor
-- arrays, the extension types, and the decode callbacks, on the field and the address of `arg`.
pub record Surroundings (S : Type 0) : Type 0 where
  pub reader : Reader S
  pub fields_at : ℕ → List Field
  pub extension_type_at : ℕ → ExtensionType S
  pub callback_at : ℕ → Field → ℕ → Cmd (Decoding S) (Unit {0})

module _ {S A : Type 0} where
  -- A command on the stream alone.
  abbrev pub after : Mem → Outcome (IStream S) A → Outcome (Decoding S) A
  after mem (ok a s) = ok a (record { stream = s; mem = mem })
  after mem (fail s) = fail (record { stream = s; mem = mem })
  after mem fault = fault
  after mem stuck = stuck

  unfoldable pub on_stream : Cmd (IStream S) A → Cmd (Decoding S) A
  on_stream m d = after d.mem (m d.stream)

  -- PB_RETURN_ERROR(stream, msg)
  unfoldable pub return_error : ErrMsg → Cmd (Decoding S) A
  return_error msg d =
      fail (record d { stream = record d.stream { errmsg = set_error d.stream.errmsg msg } })

module _ {S : Type 0} where
  -- A write to the memory.
  unfoldable pub write : (Mem → Mem) → Cmd (Decoding S) (Unit {0})
  write f d = ok tt (record d { mem = f d.mem })

  -- `status = body(&substream)`: the body works on the substream, and its answer is a value. The
  -- substream that it leaves is handed on; the stream stays as it is.
  unfoldable pub in_substream :
      IStream S → Cmd (Decoding S) (Unit {0}) → Cmd (Decoding S) (Bool × IStream S)
  in_substream sub body d = elim (body (record { stream = sub; mem = d.mem })) [
    | ok _ d' ↦ ok (true, d'.stream) (record { stream = d.stream; mem = d'.mem })
    | fail d' ↦ ok (false, d'.stream) (record { stream = d.stream; mem = d'.mem })
    | fault ↦ fault
    | stuck ↦ stuck
  ]

  -- return status
  unfoldable pub answer : Bool → Cmd (Decoding S) (Unit {0})
  answer true d = ok tt d
  answer false d = fail d
