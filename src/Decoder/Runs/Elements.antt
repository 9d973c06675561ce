-- ===== src/Decoder/Runs/Elements.antt =====
-- The decoders of pb_decode.c for one value always answer, where the message level does for submessages.
use yum_quest.Base.{
  ℕ, ◌≤◌, ◌≡◌, ◌≢◌, true, false, List, arith, ◌==◌, if◌then◌else◌, Bool-cases, inl, inr,
}
use yum_quest.Command.{Cmd, ◌>>◌}
use yum_quest.Pb.{invalid_field_descriptor}
use yum_quest.Input.Runs.{Runs-bind, Runs-if, Runs-either}
use yum_quest.Input.Runs.Read.{Delivers}
use yum_quest.Decoding.{pb_close_string_substream}
use yum_quest.Field.{
  Field, htype, ltype, htype_repeated, ltype_varint, ltype_uvarint, ltype_svarint, ltype_fixed32,
  ltype_fixed64, ltype_bytes, ltype_string, ltype_submessage, ltype_fixed_length_bytes,
}
use yum_quest.Decoder.{Decoding, Surroundings, on_stream, answer}
use yum_quest.Decoder.Decodable.{IsDecoded}
use yum_quest.Decoder.Fields.{Messages, pb_dec_submessage, decoder_for}
use yum_quest.Decoder.Runs.{
  Decodes, Decodes-error, Runs-on_stream, pb_dec_varint-Decodes, pb_dec_uvarint-Decodes,
  pb_dec_svarint-Decodes, pb_dec_fixed32-Decodes, pb_dec_fixed64-Decodes, pb_dec_bytes-Decodes,
  pb_dec_string-Decodes, pb_dec_fixed_length_bytes-Decodes,
}
use yum_quest.Decoder.Runs.Substream.{
  pb_make_string_substream-Reads, Decodes-substream, close-Decodes, answer-Decodes,
}

-- The message level answers on the submessages.
pub record Nested {S : Type 0} (Sub : List Field → Type 0) (messages : Messages S) : Type 0 where
  pub decode : (fs : List Field) (p : ℕ) → Sub fs → Decodes 0 (messages.decode fs p)
  pub decode_noinit : (fs : List Field) (p : ℕ) → Sub fs → Decodes 0 (messages.decode_noinit fs p)
  pub set_to_defaults :
      (fs : List Field) (p : ℕ) → Sub fs → Decodes 0 (messages.set_to_defaults fs p)

pub eq_of_== : (a b : ℕ) → (a == b) ≡ true → a ≡ b
eq_of_== a b h = ground arith

-- The types of PB_DECODERS.
no_other :
    (l : ℕ)
    → l ≤ 9
    → l ≢ 8
    → (l == 0) ≡ false
    → (l == 1) ≡ false
    → (l == 2) ≡ false
    → (l == 3) ≡ false
    → (l == 4) ≡ false
    → (l == 5) ≡ false
    → (l == 6) ≡ false
    → (l == 7) ≡ false
    → (l == 9) ≡ false
    → ⊥
no_other l le ne a b c d e f g h i = ground arith

module _ {S : Type 0} (env : Surroundings S) (messages : Messages S) (Sub : List Field → Type 0)
    (delivers : Delivers env.reader) (nested : Nested Sub messages) where
  pb_dec_submessage-Decodes :
      (f : Field) (p : ℕ)
      → Sub (env.fields_at f.ptr)
      → Decodes 1 (pb_dec_submessage env messages f p)
  unfolding pb_dec_submessage
  pb_dec_submessage-Decodes f p sub = elim (Bool-cases (f.ptr == 0)) [
    | inl e ↦ rw e (
        Runs-bind 1 (Runs-on_stream 1 (pb_make_string_substream-Reads env.reader delivers))
          (λ s _. Decodes-error 0 invalid_field_descriptor))
    | inr e ↦ rw e (
        Decodes-substream env.reader delivers (λ s. body)
          (λ r. on_stream (pb_close_string_substream env.reader r.1) >> answer r.0)
          (λ c s mem cov. body-Decodes.at c (record { stream = s; mem = mem }) cov)
          (λ c r d cov behind.
            close-Decodes env.reader delivers (answer r.0) c r.1 d
              (answer-Decodes env.reader delivers r.0) cov behind))
  ]
    where
      body : Cmd (Decoding S) (Unit {0})
      body =
          if htype f.type == htype_repeated
          then messages.decode (env.fields_at f.ptr) p
          else messages.decode_noinit (env.fields_at f.ptr) p

      body-Decodes : Decodes 0 body
      body-Decodes =
          Runs-either 0 (htype f.type == htype_repeated) (nested.decode _ p sub)
            (nested.decode_noinit _ p sub)

  pub decoder_for-Decodes :
      (f : Field) (p : ℕ) → IsDecoded env Sub f → Decodes 1 (decoder_for env messages f p)
  unfolding decoder_for
  decoder_for-Decodes f p h =
      let l = ltype f.type in
      let cb = env.reader in
      Runs-if 1 (l == ltype_varint) (λ e. pb_dec_varint-Decodes cb delivers f p)
        λ e0.
          Runs-if 1 (l == ltype_uvarint) (λ e. pb_dec_uvarint-Decodes cb delivers f p)
            λ e1.
              Runs-if 1 (l == ltype_svarint) (λ e. pb_dec_svarint-Decodes cb delivers f p)
                λ e2.
                  Runs-if 1 (l == ltype_fixed32) (λ e. pb_dec_fixed32-Decodes cb delivers f p)
                    λ e3.
                      Runs-if 1 (l == ltype_fixed64) (λ e. pb_dec_fixed64-Decodes cb delivers f p)
                        λ e4.
                          Runs-if 1 (l == ltype_bytes) (λ e. pb_dec_bytes-Decodes cb delivers f p)
                            λ e5.
                              Runs-if 1 (l == ltype_string)
                                (λ e. pb_dec_string-Decodes cb delivers f p)
                                λ e6.
                                  Runs-if 1 (l == ltype_submessage)
                                    (λ e.
                                      pb_dec_submessage-Decodes f p
                                        (h.submessage (eq_of_== l ltype_submessage e)))
                                    λ e7.
                                      Runs-if 1 (l == ltype_fixed_length_bytes)
                                        (λ e. pb_dec_fixed_length_bytes-Decodes cb delivers f p)
                                        λ e9. absurd (
                                          no_other l h.known h.no_extension e0 e1 e2 e3 e4 e5 e6 e7
                                            e9)
