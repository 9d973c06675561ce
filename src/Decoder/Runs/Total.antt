-- ===== src/Decoder/Runs/Total.antt =====
-- pb_decode_noinit, pb_decode and pb_decode_delimited of pb_decode.c always answer.
use yum_quest.Base.{ℕ, zero, suc, ◌+◌, ◌≡◌, ◌≢◌, refl, ◌∙◌, ap, some, List, [], ◌∷◌, length, arith}
use yum_quest.Command.{ok, fault, ◌>>◌}
use yum_quest.Pb.{missing_required_field}
use yum_quest.Input.Runs.{Covers, SomeValue, Answers-then}
use yum_quest.Input.Runs.Read.{Delivers}
use yum_quest.Decoding.{pb_close_string_substream}
use yum_quest.Field.{Field, begin_iter}
use yum_quest.Field.Walk.{HasTags, walk}
use yum_quest.Decoder.{Decoding, Surroundings, on_stream, answer, return_error as error}
use yum_quest.Decoder.Decodable.{Decodable, required_before, IsChecked}
use yum_quest.Decoder.Required.{
  Progress, no_fields_seen, check_required, check_seen, req_field_count, Verdict, complete, missing,
  undefined,
}
use yum_quest.Decoder.Required.Count.{req_field_count-walk, check_seen-defined}
use yum_quest.Decoder.Fields.{Messages}
use yum_quest.Decoder.Defaults.{pb_message_set_to_defaults}
use yum_quest.Decoder.Message.{message_loop, pb_decode_noinit, pb_decode, pb_decode_delimited}
use yum_quest.Decoder.Runs.{Decodes, DecodedFrom, Decodes-error, Decodes-then}
use yum_quest.Decoder.Runs.Defaults.{pb_message_set_to_defaults-Decodes}
use yum_quest.Decoder.Runs.Substream.{Decodes-substream, close-Decodes, answer-Decodes}
use yum_quest.Decoder.Runs.Elements.{Nested}
use yum_quest.Decoder.Runs.Message.{Under, message_loop-Goes}

two_words :
    (count : ℕ) (words : List ℕ)
    → IsChecked count
    → length words ≡ 2
    → check_seen count words ≢ undefined
two_words count [] h two = absurd (omega arith)
two_words count (a ∷ []) h two = absurd (omega arith)
two_words count (a ∷ b ∷ []) h two = check_seen-defined count a b h
two_words count (a ∷ b ∷ c ∷ words) h two = absurd (omega arith)

module _ {S : Type 0} (env : Surroundings S) (fields : List Field) (dest : ℕ)
    (tags : HasTags fields) (checked : IsChecked (required_before fields (length fields))) where
  check_required-Decodes :
      (p : Progress) → Under fields dest p → Decodes {S = S} 0 (check_required p)
  unfolding check_required
  check_required-Decodes p (k, lt, e, two) = record {
    at = λ c d cov.
        let count = required_before fields (length fields) in
        let counted : req_field_count p.iter ≡ some count =
          ap req_field_count e ∙ req_field_count-walk fields dest tags k lt in
        rw (check_required, counted)
          (go c d cov (check_seen count p.fields_seen) (two_words count p.fields_seen checked two));
  }
    where
      go :
          (c : ℕ) (d : Decoding S)
          → Covers c d.stream
          → (v : Verdict) → v ≢ undefined
          → DecodedFrom c d.stream.bytes_left 0 (elim v [
            | complete ↦ ok tt d
            | missing ↦ error missing_required_field d
            | undefined ↦ fault
          ])
      go c d cov complete ne = (cov, omega arith, tt)
      go c d cov missing ne = (Decodes-error 0 missing_required_field).at c d cov
      go c d cov undefined ne = absurd (ne refl)

module _ {S : Type 0} (env : Surroundings S) (delivers : Delivers env.reader) where
  -- The calls for submessages that the level above makes.
  pub pb_decode_noinit-Decodes :
      (depth : ℕ) (fields : List Field) (dest : ℕ)
      → Decodable env depth fields
      → Decodes 0 (pb_decode_noinit env depth fields dest)
  unfolding pb_decode_noinit walk
  pb_decode_noinit-Decodes zero fields dest h = absurd h
  pb_decode_noinit-Decodes (suc depth) fields dest (tags, lt, all, checked) = record {
    at = λ c d cov.
        Answers-then (λ (d : Decoding S). d.stream) SomeValue check_required c d.stream.bytes_left 0
          0 0 (message_loop env messages depth (d.stream.bytes_left + 1) start d) (omega arith)
          (message_loop-Goes env delivers messages (Decodable env depth)
            (nested (λ fs p g. pb_decode_noinit-Decodes depth fs p g)) depth fields dest tags all
            checked (d.stream.bytes_left + 1) start c d (0, lt, refl, refl) cov (omega arith))
          (λ p e cov' less u.
            (check_required-Decodes env fields dest tags checked p u).at c e cov');
  }
    where
      messages : Messages S
      messages = record {
        decode =
            λ fs p. pb_message_set_to_defaults env depth fs p >> pb_decode_noinit env depth fs p;
        decode_noinit = pb_decode_noinit env depth;
        set_to_defaults = pb_message_set_to_defaults env depth;
      }

      start : Progress
      start = record {
        iter = begin_iter fields dest;
        fields_seen = no_fields_seen;
        extension_range_start = 0;
      }

      nested :
          ((fs : List Field) (p : ℕ)
            → Decodable env depth fs
            → Decodes 0 (pb_decode_noinit env depth fs p))
          → Nested (Decodable env depth) messages
      nested below = record {
        decode = λ fs p g.
            Decodes-then 0 (pb_message_set_to_defaults-Decodes env depth fs p g) (below fs p g);
        decode_noinit = below;
        set_to_defaults = λ fs p g. pb_message_set_to_defaults-Decodes env depth fs p g;
      }

  pub pb_decode-Decodes :
      (depth : ℕ) (fields : List Field) (dest : ℕ)
      → Decodable env depth fields
      → Decodes 0 (pb_decode env depth fields dest)
  unfolding pb_decode
  pb_decode-Decodes depth fields dest h =
      Decodes-then 0 (pb_message_set_to_defaults-Decodes env depth fields dest h)
        (pb_decode_noinit-Decodes depth fields dest h)

  pb_decode_delimited-Decodes :
      (depth : ℕ) (fields : List Field) (dest : ℕ)
      → Decodable env depth fields
      → Decodes 1 (pb_decode_delimited env depth fields dest)
  unfolding pb_decode_delimited
  pb_decode_delimited-Decodes depth fields dest h =
      Decodes-substream env.reader delivers (λ sub. pb_decode env depth fields dest)
        (λ r. on_stream (pb_close_string_substream env.reader r.1) >> answer r.0)
        (λ c s mem cov.
          (pb_decode-Decodes depth fields dest h).at c (record { stream = s; mem = mem }) cov)
        (λ c r d cov behind.
          close-Decodes env.reader delivers (answer r.0) c r.1 d
            (answer-Decodes env.reader delivers r.0) cov behind)

  -- On a stream over an array of at least as many bytes as it has left, or over a callback that does
  -- what pb_decode.h asks, and for a message type that is not nested deeper than the fuel, pb_decode
  -- always ends and answers `true` or `false`: no loop runs out of its rounds, and nothing outside the
  -- array is read. It leaves a stream with no more bytes left, and as many of them in the array. Each
  -- message type has a field at least, a tag in each entry, only fields of the types of PB_DECODERS, no
  -- extension and no callback fields, and less than 64 required fields, not 32.
  pub pb_decode-DecodedFrom :
      (depth : ℕ) (fields : List Field) (dest : ℕ) (d : Decoding S)
      → Decodable env depth fields
      → Covers 0 d.stream
      → DecodedFrom 0 d.stream.bytes_left 0 (pb_decode env depth fields dest d)
  pb_decode-DecodedFrom depth fields dest d h cov =
      (pb_decode-Decodes depth fields dest h).at 0 d cov

  -- pb_decode_delimited always ends too, on the same conditions, and has read a byte at least where it
  -- answers `true`. Where the array has `c` bytes more than the stream has left, it has as many at least
  -- afterwards.
  pub pb_decode_delimited-DecodedFrom :
      (depth : ℕ) (fields : List Field) (dest c : ℕ) (d : Decoding S)
      → Decodable env depth fields
      → Covers c d.stream
      → DecodedFrom c d.stream.bytes_left 1 (pb_decode_delimited env depth fields dest d)
  pb_decode_delimited-DecodedFrom depth fields dest c d h cov =
      (pb_decode_delimited-Decodes depth fields dest h).at c d cov
