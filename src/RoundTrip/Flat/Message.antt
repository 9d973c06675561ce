-- ===== src/RoundTrip/Flat/Message.antt =====
-- pb_encode of pb_encode.c and pb_decode of pb_decode.c together, on a message type of numbers.
use yum_quest.Base.{
  ℕ, zero, suc, ◌+◌, ◌-◌, ◌*◌, ◌^◌, ◌≤◌, ltb, ◌<◌, ◌≡◌, refl, ap, ◌∙◌, false, Option, List, ◌++◌,
  length, All, arith, ◌==◌,
}
use yum_quest.Command.{ok, Cmd, ◌>>◌}
use yum_quest.Pb.{ErrMsg}
use yum_quest.Output.{OStream}
use yum_quest.Input.{Reader}
use yum_quest.Input.Buffer.{reading}
use yum_quest.Memory.{Mem}
use yum_quest.Field.{Field, field_at, pb_field_iter_begin}
use yum_quest.Field.Walk.{walk, tag-field_at}
use yum_quest.Encoder
use yum_quest.Encoder.Message.{encode_sized, pb_encode}
use yum_quest.Decoder
use yum_quest.Decoder.{Decoding, on_stream, in_substream, answer}
use yum_quest.Decoding.{pb_make_string_substream, pb_close_string_substream}
use yum_quest.Varint.Format.{varint_bytes}
use yum_quest.Varint.Decode.{pb_decode_varint32-groups}
use yum_quest.Decoder.Decodable.{required_before}
use yum_quest.Decoder.Bounds.{IsBounded}
use yum_quest.Decoder.Defaults.{pb_message_set_to_defaults}
use yum_quest.Decoder.Fields.{Messages}
use yum_quest.Decoder.Message.{message_loop, pb_decode_noinit, pb_decode, pb_decode_delimited}
use yum_quest.Decoder.Required.{check_required}
use yum_quest.Decoder.Required.Count.{req_field_count-walk}
use yum_quest.RoundTrip.{Place, HasRoom}
use yum_quest.RoundTrip.Fields.{IsByteMemory}
use yum_quest.RoundTrip.Carries.{before, Writes}
use yum_quest.RoundTrip.Flat.{IsFlatMessage, HasAddresses, HasTags-flat, IsApart, IsCopied}
use yum_quest.RoundTrip.Flat.Encode.{encode_from, encode_loop-walk}
use yum_quest.RoundTrip.Flat.Decode.{below, check_seen-below, progress}
use yum_quest.RoundTrip.Flat.Trip.{trip}
use yum_quest.RoundTrip.Flat.Defaults.{set_to_defaults-Stage}

-- What a submessage is encoded and decoded by, which a message type of numbers does not have.
abbrev encode_nested :
    {T : Type 0} → Encoder.Surroundings T → ℕ → List Field → ℕ → Cmd (OStream T) (Unit {0})
encode_nested env fuel fields src = encode_sized env (pb_encode env fuel fields src)

abbrev decode_nested : {S : Type 0} → Decoder.Surroundings S → ℕ → Messages S
decode_nested env fuel = record {
  decode = λ fs p. pb_message_set_to_defaults env fuel fs p >> pb_decode_noinit env fuel fs p;
  decode_noinit = pb_decode_noinit env fuel;
  set_to_defaults = pb_message_set_to_defaults env fuel;
}

All-below : {P : ℕ → Type 0} (n : ℕ) → ((k : ℕ) → k < n → P k) → All P (below n)
All-below zero h = tt
All-below (suc n) h = (h n (omega arith), All-below n (λ k lt. h k (omega arith)))

first_tag : (fields : List Field) → IsFlatMessage fields → ((field_at fields 0).tag == 0) ≡ false
first_tag fields message = ground (
  arith,
  tag-field_at fields 0 (HasTags-flat fields message.flat) (omega (arith, message.some_field)),
)

module _ (fields : List Field) (message : IsFlatMessage fields) where
  -- At the end of the loop all of the required fields have been seen.
  check_required-progress :
      {S : Type 0} (dest i start : ℕ) (d : Decoding S)
      → i < length fields
      → check_required (progress fields dest i (length fields) start) d ≡ ok tt d
  unfolding check_required
  check_required-progress dest i start d lt =
      rw
        (
          req_field_count-walk fields dest (HasTags-flat fields message.flat) i lt,
          check_seen-below (required_before fields (length fields)) message.checked,
          check_required,
        )
        refl

  -- On such a type pb_encode is its loop over all the fields.
  pb_encode-from :
      {T : Type 0} (env : Encoder.Surroundings T) (fuel src : ℕ) (p : Place) (bytes : List ℕ)
      → HasAddresses fields src
      → Writes
          (encode_from env fuel (encode_nested env fuel) fields src message.flat (length fields) 0)
          p
          bytes
      → Writes (pb_encode env (suc fuel) fields src) p bytes
  unfolding pb_encode pb_field_iter_begin walk
  pb_encode-from env fuel src p bytes some_address w =
      let e : suc (length fields - 1) ≡ length fields = omega (arith, message.some_field) in
      rw (first_tag fields message) (
        encode_loop-walk env fuel (encode_nested env fuel) fields src message.flat
          (length fields + 1) (length fields - 1) 0 (before p) some_address (omega arith)
          (omega arith)
        ∙ ap
            (λ n.
              encode_from env fuel (encode_nested env fuel) fields src message.flat n 0 (before p))
            e
        ∙ w)

  -- Once the defaults are set, pb_decode is its loop and the check of the required fields.
  pb_decode-loop :
      {S : Type 0} (denv : Decoder.Surroundings S) (fuel dest i : ℕ) (d d' : Decoding S) (to : Mem)
      → pb_message_set_to_defaults denv (suc fuel) fields dest d ≡ ok tt (record d { mem = to })
      → message_loop denv
          (decode_nested denv fuel)
          fuel
          (d.stream.bytes_left + 1)
          (progress fields dest 0 0 0)
          (record d { mem = to })
        ≡ ok (progress fields dest i (length fields) 0) d'
      → i < length fields
      → pb_decode denv (suc fuel) fields dest d ≡ ok tt d'
  unfolding pb_decode pb_decode_noinit walk
  pb_decode-loop denv fuel dest i d d' to defaults run lt =
      rw (defaults, run) (check_required-progress dest i 0 d' lt)

-- A struct of numbers there and back, with a bound on the number of bytes.
bounded_round_trip :
    {S T : Type 0} (denv : Decoder.Surroundings S) (env : Encoder.Surroundings T)
    (fields : List Field) (src dest fuel dfuel : ℕ) (p : Place) (to : Mem)
    → IsByteMemory env.mem
    → IsBounded denv.reader
    → IsFlatMessage fields
    → IsApart fields dest
    → HasAddresses fields src
    → HasRoom p (20 * length fields)
    → (bytes : List ℕ) × (length bytes ≤ 20 * length fields)
      × Writes (pb_encode env (suc fuel) fields src) p bytes
      × (to' : Mem) × (pb_decode denv
            (suc dfuel)
            fields
            dest
            (record { stream = reading (bytes ++ p.rest) (length bytes) p.in_err; mem = to })
          ≡ ok tt (record { stream = reading p.rest 0 p.in_err; mem = to' }))
      × All (IsCopied fields src env.mem dest to') (below (length fields))
bounded_round_trip {S} denv env fields src dest fuel dfuel p to bytes_in bounded message layout
      some_address fits =
    let t =
      trip denv (decode_nested denv dfuel) dfuel env bytes_in fuel (encode_nested env fuel) bounded
        fields src dest message layout (length fields) 0 p (omega arith) fits in
    let d : Decoding S = record {
      stream = reading (t.bytes ++ p.rest) (length t.bytes) p.in_err;
      mem = to;
    } in
    let (cleared, defaults, stage) =
      set_to_defaults-Stage denv dfuel fields dest message.flat layout src env.mem d
        message.some_field in
    let (to', i, lt, run, done) =
      t.read p.rest p.in_err cleared 0 0 (length t.bytes + 1) (omega (arith, message.some_field))
        (omega arith) stage in
    (
      t.bytes,
      t.short,
      pb_encode-from fields message env fuel src p t.bytes some_address t.written,
      to',
      pb_decode-loop fields message denv dfuel dest i d
          (record { stream = reading p.rest 0 p.in_err; mem = to' }) cleared defaults run lt,
      All-below (length fields) (λ k below_all. done.copied k below_all below_all),
    )

-- The memory holds bytes, a callback of the user's stream stores at most as many bytes as it is asked
-- for, the fields of a message type of numbers do not overlap in the struct at `dest`, no required one
-- is at address 0 in the struct at `src`, and the place has room for twenty bytes for each field. Then
-- pb_encode succeeds on the struct at `src`, and pb_decode succeeds on just these bytes, reads them
-- all, and leaves the struct at `dest` with the values of the fields that have one, and with the flags
-- that say which optional fields have one, whatever was in the memory before.
pub message_round_trip :
    {S T : Type 0} (denv : Decoder.Surroundings S) (env : Encoder.Surroundings T)
    (fields : List Field) (src dest fuel dfuel : ℕ) (p : Place) (to : Mem)
    → IsByteMemory env.mem
    → IsBounded denv.reader
    → IsFlatMessage fields
    → IsApart fields dest
    → HasAddresses fields src
    → HasRoom p (20 * length fields)
    → (bytes : List ℕ) × Writes (pb_encode env (suc fuel) fields src) p bytes
      × (to' : Mem) × (pb_decode denv
            (suc dfuel)
            fields
            dest
            (record { stream = reading (bytes ++ p.rest) (length bytes) p.in_err; mem = to })
          ≡ ok tt (record { stream = reading p.rest 0 p.in_err; mem = to' }))
      × All (IsCopied fields src env.mem dest to') (below (length fields))
message_round_trip denv env fields src dest fuel dfuel p to bytes_in bounded message layout
      some_address fits =
    let (bytes, short, written, to', read, copied) =
      bounded_round_trip denv env fields src dest fuel dfuel p to bytes_in bounded message layout
        some_address fits in
    (bytes, written, to', read, copied)

-- The substream has just the bytes, and the stream counts what is behind them.
pb_make_string_substream-cut :
    {S : Type 0} (rd : Reader S) (bytes rest : List ℕ) (left : ℕ) (err : Option ErrMsg)
    → length bytes < 2 ^ 32
    → pb_make_string_substream rd (
        reading
          (varint_bytes (length bytes) ++ (bytes ++ rest))
          (length (varint_bytes (length bytes)) + (length bytes + left))
          err)
      ≡ ok (reading (bytes ++ rest) (length bytes) err) (reading (bytes ++ rest) left err)
unfolding pb_make_string_substream
pb_make_string_substream-cut rd bytes rest left err small =
    let whole : ltb (length bytes + left) (length bytes) ≡ false = ground arith in
    rw
      (
        pb_decode_varint32-groups rd (length bytes) (bytes ++ rest) (length bytes + left) err small,
        whole,
      )
      (ap (λ n. ok (reading (bytes ++ rest) (length bytes) err) (reading (bytes ++ rest) n err))
        (omega arith))

-- Where pb_decode reads all of some bytes, pb_decode_delimited does with their number in front.
pb_decode_delimited-pb_decode :
    {S : Type 0} (denv : Decoder.Surroundings S) (fuel : ℕ) (fields : List Field) (dest : ℕ)
    (bytes rest : List ℕ) (left : ℕ) (err : Option ErrMsg) (to to' : Mem)
    → length bytes < 2 ^ 32
    → pb_decode denv fuel fields dest
        (record { stream = reading (bytes ++ rest) (length bytes) err; mem = to })
      ≡ ok tt (record { stream = reading rest 0 err; mem = to' })
    → pb_decode_delimited denv fuel fields dest (record {
      stream =
          reading
            (varint_bytes (length bytes) ++ (bytes ++ rest))
            (length (varint_bytes (length bytes)) + (length bytes + left))
            err;
      mem = to;
    })
      ≡ ok tt (record { stream = reading rest left err; mem = to' })
unfolding pb_decode_delimited on_stream in_substream pb_close_string_substream answer
pb_decode_delimited-pb_decode denv fuel fields dest bytes rest left err to to' small read =
    rw (pb_make_string_substream-cut denv.reader bytes rest left err small, in_substream, read) refl

-- The memory holds bytes, a callback of the user's stream stores at most as many bytes as it is asked
-- for, the fields of a message type of numbers do not overlap in the struct at `dest`, no required one
-- is at address 0 in the struct at `src`, the place has room for twenty bytes for each field, and these
-- are less than 2^32. Then pb_encode succeeds on the struct at `src`, and pb_decode_delimited succeeds
-- on its bytes with the varint of their number in front, whatever stands behind them and however many
-- bytes may be read there. It leaves the stream exactly behind these bytes, and the struct at `dest`
-- with the values of the fields that have one, and with the flags that say which optional fields have
-- one.
pub delimited_round_trip :
    {S T : Type 0} (denv : Decoder.Surroundings S) (env : Encoder.Surroundings T)
    (fields : List Field) (src dest fuel dfuel : ℕ) (p : Place) (to : Mem)
    → IsByteMemory env.mem
    → IsBounded denv.reader
    → IsFlatMessage fields
    → IsApart fields dest
    → HasAddresses fields src
    → HasRoom p (20 * length fields)
    → 20 * length fields < 2 ^ 32
    → (bytes : List ℕ) × Writes (pb_encode env (suc fuel) fields src) p bytes
      × (to' : Mem) × (pb_decode_delimited denv (suc dfuel) fields dest (record {
        stream =
            reading
              (varint_bytes (length bytes) ++ (bytes ++ p.rest))
              (length (varint_bytes (length bytes)) + (length bytes + p.left))
              p.in_err;
        mem = to;
      })
          ≡ ok tt (record { stream = reading p.rest p.left p.in_err; mem = to' }))
      × All (IsCopied fields src env.mem dest to') (below (length fields))
delimited_round_trip denv env fields src dest fuel dfuel p to bytes_in bounded message layout
      some_address fits few =
    let (bytes, short, written, to', read, copied) =
      bounded_round_trip denv env fields src dest fuel dfuel p to bytes_in bounded message layout
        some_address fits in
    (
      bytes,
      written,
      to',
      pb_decode_delimited-pb_decode denv (suc dfuel) fields dest bytes p.rest p.left p.in_err to to'
          (omega (arith, short)) read,
      copied,
    )
