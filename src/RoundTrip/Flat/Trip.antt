-- ===== src/RoundTrip/Flat/Trip.antt =====
-- The loops of pb_encode in pb_encode.c and of pb_decode_noinit in pb_decode.c together, on a message
-- type of numbers.
use yum_quest.Base.{
  ℕ, zero, suc, ◌+◌, ◌*◌, ◌≤◌, ◌<◌, ◌≡◌, refl, ap, ◌∙◌, true, false, Option, List, [], ◌++◌, length,
  length-append, arith, Bool-cases, inl, inr,
}
use yum_quest.Command.{ok, Cmd}
use yum_quest.Pb.{ErrMsg}
use yum_quest.Input.Buffer.{reading}
use yum_quest.Output.{OStream}
use yum_quest.Memory.{Mem}
use yum_quest.Field.{Field, field_at}
use yum_quest.Encoder
use yum_quest.Encoder.{pb_encode_tag_for_field}
use yum_quest.Encoder.Fields.{encode_one}
use yum_quest.Decoder
use yum_quest.Decoder.{Decoding, on_stream}
use yum_quest.Decoder.Decodable.{field_at-All, required_before}
use yum_quest.Decoder.Fields.{Messages}
use yum_quest.Decoder.Required.{Progress}
use yum_quest.Decoder.Message.{message_loop}
use yum_quest.Decoder.Bounds.{IsBounded}
use yum_quest.RoundTrip.{Place, HasRoom}
use yum_quest.RoundTrip.Fields.{IsByteMemory}
use yum_quest.RoundTrip.Carries.{
  Writes, Writes-then, Writes-nothing, moved, moved-HasRoom, less_room,
}
use yum_quest.RoundTrip.Flat.{IsFlat, IsFlatMessage, data_at, IsApart, present}
use yum_quest.RoundTrip.Flat.Entry.{Entry, field_bytes}
use yum_quest.RoundTrip.Flat.Round.{round_here}
use yum_quest.RoundTrip.Flat.Encode.{encode_from}
use yum_quest.RoundTrip.Flat.Decode.{progress}
use yum_quest.RoundTrip.Flat.Stage.{Stage, Stage-skipped}

message_loop-done :
    {S : Type 0} (env : Decoder.Surroundings S) (messages : Messages S) (fuel rounds : ℕ)
    (p : Progress) (rest : List ℕ) (err : Option ErrMsg) (to : Mem)
    → 0 < rounds
    → message_loop env messages fuel rounds p (record { stream = reading rest 0 err; mem = to })
      ≡ ok p (record { stream = reading rest 0 err; mem = to })
unfolding message_loop
message_loop-done env messages fuel zero p rest err to h = absurd (omega arith)
message_loop-done env messages fuel (suc rounds) p rest err to h = refl

required_skipped :
    (fields : List Field) (base k : ℕ) (mem : Mem)
    → present fields base mem k ≡ false
    → required_before fields (suc k) ≡ required_before fields k
required_skipped fields base k mem absent = ground (arith, absent)

module _ {S T : Type 0} (denv : Decoder.Surroundings S) (messages : Messages S) (dfuel : ℕ)
    (env : Encoder.Surroundings T) (bytes_in : IsByteMemory env.mem) (fuel : ℕ)
    (submessage : List Field → ℕ → Cmd (OStream T) (Unit {0})) where
  module _ (bounded : IsBounded denv.reader) (fields : List Field) (src dest : ℕ)
      (message : IsFlatMessage fields) (layout : IsApart fields dest) where
    -- From entry `k` on, the decoder reads these bytes and leaves a copy.
    abbrev pub Arrives : List ℕ → ℕ → List ℕ → Option ErrMsg → Mem → (i start rounds : ℕ) → Type 0
    Arrives bytes k rest err to i start rounds =
        (to' : Mem) × (i' : ℕ) × (i' < length fields)
        × (message_loop denv messages dfuel rounds (progress fields dest i k start)
              (record { stream = reading (bytes ++ rest) (length bytes) err; mem = to })
            ≡ ok (progress fields dest i' (length fields) start)
                (record { stream = reading rest 0 err; mem = to' }))
        × Stage fields src env.mem dest (length fields) to'

    -- What the encoder writes from entry `k` on, the decoder reads, at whatever entry its iterator is.
    pub record Trip (m k : ℕ) (p : Place) : Type 0 where
      pub bytes : List ℕ
      pub short : length bytes ≤ 20 * m
      pub written : Writes (encode_from env fuel submessage fields src message.flat m k) p bytes
      pub read :
          (rest : List ℕ) (err : Option ErrMsg) (to : Mem) (i start rounds : ℕ)
          → i < length fields
          → length bytes < rounds
          → Stage fields src env.mem dest k to
          → Arrives bytes k rest err to i start rounds

    read_here :
        (m k : ℕ) (p : Place)
        (e : Entry denv messages env bytes_in fuel submessage
          (field_at fields k)
          (data_at fields src k)
          (data_at fields dest k)
          p)
        (tail : Trip m (suc k) (moved p (e.tag_bytes ++ e.value_bytes))) (rest : List ℕ)
        (err : Option ErrMsg) (to : Mem) (i start rounds : ℕ)
        → k < length fields
        → i < length fields
        → present fields src env.mem k ≡ true
        → length ((e.tag_bytes ++ e.value_bytes) ++ tail.bytes) < rounds
        → Stage fields src env.mem dest k to
        → Arrives ((e.tag_bytes ++ e.value_bytes) ++ tail.bytes) k rest err to i start rounds
    read_here m k p e tail rest err to i start zero lt hi here enough stage = absurd (omega arith)
    read_here m k p e tail rest err to i start (suc rounds) lt hi here enough stage =
        let (to', round, stage') =
          round_here denv messages dfuel env bytes_in fuel submessage bounded fields src dest
            message layout k p e tail.bytes rest err to i start rounds lt hi here stage in
        let fewer : length tail.bytes < rounds = omega (
          arith,
          length-append (e.tag_bytes ++ e.value_bytes) tail.bytes,
          length-append e.tag_bytes e.value_bytes,
          e.some_byte,
        ) in
        let (to'', i', hi', run, done) = tail.read rest err to' k start rounds lt fewer stage' in
        (to'', i', hi', round ∙ run, done)

    Trip-here :
        (m k : ℕ) (p : Place)
        → k < length fields
        → present fields src env.mem k ≡ true
        → (e : Entry denv messages env bytes_in fuel submessage
            (field_at fields k)
            (data_at fields src k)
            (data_at fields dest k)
            p)
        → Trip m (suc k) (moved p (e.tag_bytes ++ e.value_bytes))
        → Trip (suc m) k p
    Trip-here m k p lt here e tail = record {
      bytes = (e.tag_bytes ++ e.value_bytes) ++ tail.bytes;
      short = omega (
        arith,
        length-append (e.tag_bytes ++ e.value_bytes) tail.bytes,
        length-append e.tag_bytes e.value_bytes,
        e.short,
        tail.short,
      );
      written = rw here (
          Writes-then (encode_one env fuel submessage (field_at fields k) (data_at fields src k))
            (encode_from env fuel submessage fields src message.flat m (suc k)) p
            (e.tag_bytes ++ e.value_bytes) tail.bytes e.written tail.written);
      read = λ rest err to i start rounds hi enough stage.
          read_here m k p e tail rest err to i start rounds lt hi here enough stage;
    }

    Trip-absent :
        (m k : ℕ) (p : Place)
        → k < length fields
        → present fields src env.mem k ≡ false
        → Trip m (suc k) p
        → Trip (suc m) k p
    Trip-absent m k p lt absent tail = record {
      bytes = tail.bytes;
      short = omega (arith, tail.short);
      written = rw absent tail.written;
      read = λ rest err to i start rounds hi enough stage.
          rw (required_skipped fields src k env.mem absent) at (
            tail.read rest err to i start rounds hi enough
              (Stage-skipped fields dest layout src env.mem k to lt absent stage));
    }

    pub trip : (m k : ℕ) (p : Place) → k + m ≡ length fields → HasRoom p (20 * m) → Trip m k p
    trip zero k p e fits = record {
      bytes = [];
      short = omega arith;
      written = Writes-nothing p;
      read = λ rest err to i start rounds hi enough stage.
          let done : k ≡ length fields = omega arith in
          (
            to,
            i,
            hi,
            message_loop-done denv messages dfuel rounds (progress fields dest i k start) rest err
                  to (omega arith)
                ∙ ap
                    (λ q.
                      ok (progress fields dest i q start)
                        (record { stream = reading rest 0 err; mem = to }))
                    done,
            rw done at stage,
          );
    }
    trip (suc m) k p e fits = elim (Bool-cases (present fields src env.mem k)) [
      | inl here ↦
          let first =
            field_bytes denv messages env bytes_in fuel submessage (field_at fields k)
              (data_at fields src k) (data_at fields dest k) p
              (field_at-All IsFlat fields k message.flat (omega arith))
              (less_room p 20 (20 * suc m) (omega arith) fits) in
          Trip-here m k p (omega arith) here first (
            trip m (suc k) (moved p (first.tag_bytes ++ first.value_bytes)) (omega arith) (
              moved-HasRoom p (first.tag_bytes ++ first.value_bytes) 20 (20 * m)
                (less_room p (20 + 20 * m) (20 * suc m) (omega arith) fits)
                (omega (arith, length-append first.tag_bytes first.value_bytes, first.short))))
      | inr absent ↦
          Trip-absent m k p (omega arith) absent
            (trip m (suc k) p (omega arith) (less_room p (20 * m) (20 * suc m) (omega arith) fits))
    ]
