-- ===== src/Decoding/Runs.antt =====
-- The helpers of pb_decode.c for numbers, tags, skipping and substreams always answer.
use yum_quest.Base.{
  ℕ, ◌+◌, ◌-◌, ◌/◌, ◌^◌, ◌≤◌, ◌<◌, List, [], ◌∷◌, bit_and, ltb, ◌==◌, arith, if◌then◌else◌,
  Bool-cases, inl, inr,
}
use yum_quest.Command.{Outcome, ok, fail, fault, stuck, and_then, pure}
use yum_quest.Pb.{
  wt_varint, wt_64bit, wt_string, wt_32bit, invalid_wire_type, parent_stream_too_short,
}
use yum_quest.Input.{IStream, Source, buffer, user, Reader, return_error, pb_read_null}
use yum_quest.Input.Runs.{
  Provides, Covers, Answers, SomeValue, Runs-weaken, Runs-bind, Runs-pure, Runs-if,
}
use yum_quest.Input.Runs.Read.{
  Delivers, Reads, Reads-error, BytesRead, pb_read-Reads, pb_read_null-Reads,
}
use yum_quest.Varint.{pb_decode_varint32}
use yum_quest.Varint.Runs.{pb_decode_varint32-Reads, pb_skip_varint-Reads}
use yum_quest.Decoding.{
  Tagged, tagged, at_eof, bad, join32, pb_decode_fixed32, join64, pb_decode_fixed64, pb_decode_tag,
  pb_skip_string, pb_skip_field, pb_make_string_substream, pb_close_string_substream,
}

pub Provides-less :
    {S : Type 0} (n m : ℕ) (src : Source S) → m ≤ n → Provides n src → Provides m src
Provides-less n m (buffer bs) le h = (omega (arith, h.0), h.1)
Provides-less n m (user u) le h = tt

module _ {S : Type 0} where
  -- What pb_decode_tag answers on a stream with `left` bytes left: for a tag it has read a byte at
  -- least, and the tag has 29 bits.
  abbrev pub AnswersTag : ℕ → ℕ → Outcome (IStream S) Tagged → Type 0
  AnswersTag c left (ok (tagged t) s) = Covers c s × (s.bytes_left + 1 ≤ left) × (t.tag < 2 ^ 29)
  AnswersTag c left (ok at_eof s) = Covers c s × (s.bytes_left ≤ left)
  AnswersTag c left (ok bad s) = Covers c s × (s.bytes_left ≤ left)
  AnswersTag c left (fail s) = ⊥
  AnswersTag c left fault = ⊥
  AnswersTag c left stuck = ⊥

  -- What pb_make_string_substream answers: the array covers the substream and what comes behind it.
  abbrev pub AnswersSubstream : ℕ → ℕ → Outcome (IStream S) (IStream S) → Type 0
  AnswersSubstream c left (ok sub s) =
      Covers (c + s.bytes_left) sub × Covers c s × (s.bytes_left + 1 ≤ left)
  AnswersSubstream c left (fail s) = Covers c s × (s.bytes_left ≤ left)
  AnswersSubstream c left fault = ⊥
  AnswersSubstream c left stuck = ⊥

module _ {S : Type 0} (cb : Reader S) (delivers : Delivers cb) where
  join32-Reads : (bytes : List ℕ) → BytesRead 4 bytes → Reads 0 SomeValue (join32 cb bytes)
  unfolding join32
  join32-Reads [] h = absurd (omega (arith, h.0))
  join32-Reads (a ∷ []) r = absurd (omega (arith, r.0))
  join32-Reads (a ∷ b ∷ []) r = absurd (omega (arith, r.0))
  join32-Reads (a ∷ b ∷ c ∷ []) r = absurd (omega (arith, r.0))
  join32-Reads (a ∷ b ∷ c ∷ d ∷ rest) r = Runs-pure _ tt

  pub pb_decode_fixed32-Reads : Reads 4 SomeValue (pb_decode_fixed32 cb)
  unfolding pb_decode_fixed32
  pb_decode_fixed32-Reads = Runs-bind 4 (pb_read-Reads cb delivers 4) join32-Reads

  join64-Reads : (bytes : List ℕ) → BytesRead 8 bytes → Reads 0 SomeValue (join64 cb bytes)
  unfolding join64
  join64-Reads [] h = absurd (omega (arith, h.0))
  join64-Reads (a ∷ []) r = absurd (omega (arith, r.0))
  join64-Reads (a ∷ b ∷ []) r = absurd (omega (arith, r.0))
  join64-Reads (a ∷ b ∷ c ∷ []) r = absurd (omega (arith, r.0))
  join64-Reads (a ∷ b ∷ c ∷ d ∷ []) r = absurd (omega (arith, r.0))
  join64-Reads (a ∷ b ∷ c ∷ d ∷ e ∷ []) r = absurd (omega (arith, r.0))
  join64-Reads (a ∷ b ∷ c ∷ d ∷ e ∷ f ∷ []) r = absurd (omega (arith, r.0))
  join64-Reads (a ∷ b ∷ c ∷ d ∷ e ∷ f ∷ g ∷ []) r = absurd (omega (arith, r.0))
  join64-Reads (a ∷ b ∷ c ∷ d ∷ e ∷ f ∷ g ∷ h ∷ rest) r = Runs-pure _ tt

  pub pb_decode_fixed64-Reads : Reads 8 SomeValue (pb_decode_fixed64 cb)
  unfolding pb_decode_fixed64
  pb_decode_fixed64-Reads = Runs-bind 8 (pb_read-Reads cb delivers 8) join64-Reads

  pub pb_decode_tag-AnswersTag :
      (c : ℕ) (s : IStream S) → Covers c s → AnswersTag c s.bytes_left (pb_decode_tag cb s)
  unfolding pb_decode_tag
  pb_decode_tag-AnswersTag c s cov =
      go (pb_decode_varint32 cb s) ((pb_decode_varint32-Reads cb delivers).at c s cov)
    where
      go :
          (o : Outcome (IStream S) ℕ)
          → Answers (λ (s : IStream S). s) c s.bytes_left 1 (λ v. v < 2 ^ 32) o
          → AnswersTag c s.bytes_left (elim o [
            | ok temp s' ↦
                ok
                  (if temp == 0
                    then at_eof
                    else tagged (record { tag = temp / 2 ^ 3; wire_type = bit_and temp 7 }))
                  s'
            | fail s' ↦ ok (if s'.bytes_left == 0 then at_eof else bad) s'
            | fault ↦ fault
            | stuck ↦ stuck
          ])
      go (ok temp s') h = elim (Bool-cases (temp == 0)) [
        | inl e ↦ rw e (h.0, omega (arith, h.1))
        | inr e ↦ rw e (h.0, h.1, omega (arith, h.2))
      ]
      go (fail s') h = elim (Bool-cases (s'.bytes_left == 0)) [ inl e ↦ rw e h | inr e ↦ rw e h ]
      go fault h = h
      go stuck h = h

  pub pb_skip_string-Reads : Reads 0 SomeValue (pb_skip_string cb)
  unfolding pb_skip_string
  pb_skip_string-Reads =
      Runs-bind 0 (Runs-weaken 1 0 (omega arith) (λ v h. h) (pb_decode_varint32-Reads cb delivers))
        (λ n h. pb_read_null-Reads cb delivers n)

  pub pb_skip_field-Reads : (wire_type : ℕ) → Reads 0 SomeValue (pb_skip_field cb wire_type)
  unfolding pb_skip_field
  pb_skip_field-Reads w =
      Runs-if 0 (w == wt_varint) (λ e. pb_skip_varint-Reads cb delivers)
        λ e.
          Runs-if 0 (w == wt_64bit) (λ e. pb_read_null-Reads cb delivers 8)
            λ e.
              Runs-if 0 (w == wt_string) (λ e. pb_skip_string-Reads)
                λ e.
                  Runs-if 0 (w == wt_32bit) (λ e. pb_read_null-Reads cb delivers 4)
                    λ e. Reads-error 0 invalid_wire_type

  pub pb_make_string_substream-Answers :
      (c : ℕ) (s : IStream S)
      → Covers c s
      → AnswersSubstream c s.bytes_left (pb_make_string_substream cb s)
  unfolding pb_make_string_substream return_error
  pb_make_string_substream-Answers c s cov =
      go (pb_decode_varint32 cb s) ((pb_decode_varint32-Reads cb delivers).at c s cov)
    where
      go :
          (o : Outcome (IStream S) ℕ)
          → Answers (λ (s : IStream S). s) c s.bytes_left 1 (λ v. v < 2 ^ 32) o
          → AnswersSubstream c s.bytes_left (
              and_then o (λ size s.
                if ltb s.bytes_left size
                then return_error parent_stream_too_short s
                else ok
                    (record s { bytes_left = size })
                    (record s { bytes_left = s.bytes_left - size })))
      go (ok size t) h = elim (Bool-cases (ltb t.bytes_left size)) [
        | inl short ↦ rw short (h.0, omega (arith, h.1))
        | inr fits ↦ rw fits (
          Provides-less (t.bytes_left + c) (size + (c + (t.bytes_left - size))) t.source
              (ground arith) h.0,
          Provides-less (t.bytes_left + c) (t.bytes_left - size + c) t.source (ground arith) h.0,
          ground (arith, h.1),
        )
      ]
      go (fail t) h = h
      go fault h = h
      go stuck h = h

  pub pb_close_string_substream-Answers :
      (c : ℕ) (sub s : IStream S)
      → Covers c s
      → Covers (c + s.bytes_left) sub
      → Answers
          (λ (s : IStream S). s)
          c
          s.bytes_left
          0
          SomeValue
          (pb_close_string_substream cb sub s)
  unfolding pb_close_string_substream
  pb_close_string_substream-Answers c sub s cov behind =
      go ((if sub.bytes_left == 0 then pure tt else pb_read_null cb sub.bytes_left) sub) (
        (Runs-if 0 (sub.bytes_left == 0) (λ e. Runs-pure tt tt)
            (λ e. pb_read_null-Reads cb delivers sub.bytes_left)).at
          (c + s.bytes_left) sub behind)
    where
      go :
          (o : Outcome (IStream S) (Unit {0}))
          → Answers (λ (s : IStream S). s) (c + s.bytes_left) sub.bytes_left 0 SomeValue o
          → Answers
              (λ (s : IStream S). s)
              c
              s.bytes_left
              0
              SomeValue
              (elim o [
                | ok _ sub' ↦ ok tt (record s { source = sub'.source; errmsg = sub'.errmsg })
                | fail _ ↦ fail s
                | fault ↦ fault
                | stuck ↦ stuck
              ])
      go (ok u t) h = (
        Provides-less (t.bytes_left + (c + s.bytes_left)) (s.bytes_left + c) t.source (omega arith)
            h.0,
        omega arith,
        tt,
      )
      go (fail t) h = (cov, omega arith)
      go fault h = h
      go stuck h = h
