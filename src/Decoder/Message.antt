-- ===== src/Decoder/Message.antt =====
-- Decoding of a message in YumQuest/Pods/nanopb/pb_decode.c: the extensions
-- (default_extension_decoder, decode_extension, find_extension_field), pb_decode_noinit, pb_decode
-- and pb_decode_delimited.
use yum_quest.Base.{
  ℕ, zero, suc, ◌+◌, ◌-◌, ◌^◌, Bool, true, false, not, ◌&&◌, Option, none, some, List, length, ltb,
  leb, ◌==◌, if◌then◌else◌,
}
use yum_quest.Command.{Outcome, ok, fail, fault, stuck, Cmd, pure, ◌>>=◌, ◌>>◌}
use yum_quest.Decoding.{
  TagRead, tagged, at_eof, bad, pb_decode_tag, pb_skip_field, pb_make_string_substream,
  pb_close_string_substream,
}
use yum_quest.Memory.{load, store}
use yum_quest.Field.{
  Field, Iter, current, field_at, begin_iter, pb_field_iter_next, pb_field_iter_find, htype, ltype,
  htype_required, ltype_extension,
}
use yum_quest.Decoder.{Decoding, Surroundings, on_stream, write, in_substream, answer}
use yum_quest.Decoder.Defaults.{iter_from_extension, pb_message_set_to_defaults}
use yum_quest.Decoder.Required.{Progress, mark_seen, no_fields_seen, check_required}
use yum_quest.Decoder.Fields.{Messages, decode_field}

-- The do-while loop of find_extension_field, which began at index `start`. `none` means that the
-- rounds did not suffice.
unfoldable pub extension_loop : ℕ → ℕ → Iter → Option (Iter × Bool)
extension_loop zero start iter = none
extension_loop (suc fuel) start iter =
    let next = (pb_field_iter_next iter).0 in
    let more = extension_loop fuel start next in
    if ltype (current iter).type == ltype_extension
    then some (iter, true)
    else if next.pos == start
    then some (next, false)
    else more

unfoldable pub find_extension_field : Iter → Option (Iter × Bool)
unfolding extension_loop
find_extension_field iter = extension_loop (length iter.start + 1) iter.pos iter

module _ {S : Type 0} (env : Surroundings S) (messages : Messages S) (fuel : ℕ) where
  unfoldable pub default_extension_decoder : ℕ → ℕ → ℕ → Cmd (Decoding S) (Unit {0})
  default_extension_decoder ext tag wire_type d =
      let arg = (env.extension_type_at (load 8 ext d.mem)).arg in
      let iter = iter_from_extension arg ext (load 8 (ext + 8) d.mem) in
      if (field_at arg 0).tag == tag
      then (write (store 1 (ext + 24) 1) >> decode_field env messages fuel wire_type iter) d
      else pure tt d

  unfoldable pub call_extension : ℕ → ℕ → ℕ → Cmd (Decoding S) (Unit {0})
  unfolding default_extension_decoder
  call_extension ext tag wire_type d = elim (env.extension_type_at (load 8 ext d.mem)).decode [
    | none ↦ default_extension_decoder ext tag wire_type d
    | some handler ↦ handler ext tag wire_type d
  ]

  -- The loop of decode_extension over the linked list from address `ext` on; `pos` is the number
  -- of bytes left when it began. The first argument bounds the length of the list.
  unfoldable pub extension_chain : ℕ → ℕ → ℕ → ℕ → ℕ → Cmd (Decoding S) (Unit {0})
  unfolding call_extension
  extension_chain zero pos ext tag wire_type d = stuck
  extension_chain (suc rounds) pos ext tag wire_type d =
      let more : Outcome (Decoding S) (Unit {0}) = elim (call_extension ext tag wire_type d) [
        | ok _ d' ↦ extension_chain rounds pos (load 8 (ext + 16) d'.mem) tag wire_type d'
        | other ↦ other
      ] in
      if not (ext == 0) && pos == d.stream.bytes_left then more else ok tt d

  unfoldable pub decode_extension : ℕ → ℕ → Iter → Cmd (Decoding S) (Unit {0})
  unfolding extension_chain
  decode_extension tag wire_type iter d =
      extension_chain fuel d.stream.bytes_left (load 8 iter.p_data d.mem) tag wire_type d

  -- A tag that no field of the message has, lines 880 to 905.
  unfoldable pub decode_unknown : TagRead → Progress → Cmd (Decoding S) Progress
  unfolding decode_extension
  decode_unknown t p d =
      let skip = λ (q : Progress) (d : Decoding S).
        (on_stream (pb_skip_field env.reader t.wire_type) >> pure q) d in
      if leb p.extension_range_start t.tag
      then elim (find_extension_field p.iter) [
        | none ↦ stuck
        | some (iter, found) ↦
            let start = if found then (current iter).tag else 2 ^ 32 - 1 in
            let q = record p { iter = iter; extension_range_start = start } in
            if leb start t.tag
            then elim (decode_extension t.tag t.wire_type iter d) [
              | ok _ d' ↦ if d.stream.bytes_left == d'.stream.bytes_left then skip q d' else ok q d'
              | fail d' ↦ fail d'
              | fault ↦ fault
              | stuck ↦ stuck
            ]
            else skip q d
      ]
      else skip p d

  -- A tag of a field of the message, lines 908 to 916.
  unfoldable pub decode_known : TagRead → Progress → Cmd (Decoding S) Progress
  unfolding mark_seen
  decode_known t p =
      let index = p.iter.required_field_index in
      let required = htype (current p.iter).type == htype_required && ltb index 64 in
      let seen = if required then mark_seen index p.fields_seen else p.fields_seen in
      decode_field env messages fuel t.wire_type p.iter >> pure (record p { fields_seen = seen })

  unfoldable pub decode_tagged : TagRead → Progress → Cmd (Decoding S) Progress
  unfolding decode_known decode_unknown
  decode_tagged t p d = elim (pb_field_iter_find p.iter t.tag) [
    | none ↦ stuck
    | some (iter, true) ↦ decode_known t (record p { iter = iter }) d
    | some (iter, false) ↦ decode_unknown t (record p { iter = iter }) d
  ]

  -- while (stream->bytes_left) { … }, lines 863 to 917. Every round reads a byte of the stream at
  -- least, as long as the callbacks only read.
  unfoldable pub message_loop : ℕ → Progress → Cmd (Decoding S) Progress
  unfolding decode_tagged
  message_loop zero p d = stuck
  message_loop (suc rounds) p d =
      let more : Outcome (Decoding S) Progress = elim (on_stream (pb_decode_tag env.reader) d) [
        | ok (tagged t) d' ↦ (decode_tagged t p >>= message_loop rounds) d'
        | ok at_eof d' ↦ ok p d'
        | ok bad d' ↦ fail d'
        | fail d' ↦ fail d'
        | fault ↦ fault
        | stuck ↦ stuck
      ] in
      if d.stream.bytes_left == 0 then ok p d else more

module _ {S : Type 0} (env : Surroundings S) where
  -- The fuel bounds how deep messages nest, and the loops that only the input or a callback ends.
  -- A round of the loop reads at least one byte, so `bytes_left + 1` rounds are enough.
  unfoldable pub pb_decode_noinit : ℕ → List Field → ℕ → Cmd (Decoding S) (Unit {0})
  unfolding message_loop check_required
  pb_decode_noinit zero fields dest d = stuck
  pb_decode_noinit (suc fuel) fields dest d =
      let messages : Messages S = record {
        decode = λ fs p. pb_message_set_to_defaults env fuel fs p >> pb_decode_noinit fuel fs p;
        decode_noinit = pb_decode_noinit fuel;
        set_to_defaults = pb_message_set_to_defaults env fuel;
      } in
      let start : Progress = record {
        iter = begin_iter fields dest;
        fields_seen = no_fields_seen;
        extension_range_start = 0;
      } in
      (message_loop env messages fuel (d.stream.bytes_left + 1) start >>= check_required) d

  unfoldable pub pb_decode : ℕ → List Field → ℕ → Cmd (Decoding S) (Unit {0})
  unfolding pb_decode_noinit
  pb_decode fuel fields dest =
      pb_message_set_to_defaults env fuel fields dest >> pb_decode_noinit fuel fields dest

  unfoldable pub pb_decode_delimited : ℕ → List Field → ℕ → Cmd (Decoding S) (Unit {0})
  unfolding pb_decode
  pb_decode_delimited fuel fields dest = do
    sub ← on_stream (pb_make_string_substream env.reader)
    (status, sub') ← in_substream sub (pb_decode fuel fields dest)
    on_stream (pb_close_string_substream env.reader sub')
    answer status
