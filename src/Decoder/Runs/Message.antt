-- ===== src/Decoder/Runs/Message.antt =====
-- The loop of pb_decode_noinit of pb_decode.c over the fields of a message always answers.
use yum_quest.Base.{
  ℕ, zero, suc, ◌-◌, ◌/◌, ◌^◌, ◌≤◌, ◌<◌, ◌≡◌, refl, Bool, true, false, ◌&&◌, List, [], ◌∷◌, length,
  All, arith, ltb, leb, ◌==◌, if◌then◌else◌, Bool-cases, inl, inr,
}
use yum_quest.Command.{Outcome, ok, fail, fault, stuck, pure, ◌>>=◌, ◌>>◌}
use yum_quest.Input.{IStream}
use yum_quest.Input.Runs.{Covers, Answers, Runs, Runs-bind, Runs-pure, Answers-then, Answers-weaken}
use yum_quest.Input.Runs.Read.{Delivers}
use yum_quest.Decoding.{TagRead, Tagged, tagged, at_eof, bad, pb_decode_tag, pb_skip_field}
use yum_quest.Decoding.Runs.{AnswersTag, pb_decode_tag-AnswersTag, pb_skip_field-Reads}
use yum_quest.Memory.{Mem}
use yum_quest.Field.{Field, Iter, current, htype, htype_required}
use yum_quest.Field.Walk.{HasTags, walk, current-walk}
use yum_quest.Decoder.{Decoding, Surroundings, on_stream, after}
use yum_quest.Decoder.Decodable.{IsDecoded, field_at-All, required_before, IsChecked}
use yum_quest.Decoder.Required.{Progress, mark_seen}
use yum_quest.Decoder.Fields.{Messages}
use yum_quest.Decoder.Message.{decode_unknown, decode_known, decode_tagged, message_loop}
use yum_quest.Decoder.Runs.{Runs-on_stream}
use yum_quest.Decoder.Runs.Search.{find_extension_field-Misses, pb_field_iter_find-cases}
use yum_quest.Decoder.Runs.Elements.{Nested}
use yum_quest.Decoder.Runs.Fields.{decode_field-Decodes}

-- The variables of pb_decode_noinit in a message of type `fields`: the iterator is at one of its entries.
abbrev pub Under : List Field → ℕ → Progress → Type 0
Under fields dest p =
    (k : ℕ) × (k < length fields) × (p.iter ≡ walk fields dest k) × (length p.fields_seen ≡ 2)

length-mark_seen :
    (index : ℕ) (words : List ℕ) → length words ≡ 2 → length (mark_seen index words) ≡ 2
unfolding mark_seen
length-mark_seen index [] h = absurd (omega arith)
length-mark_seen index (a ∷ []) h = absurd (omega arith)
length-mark_seen index (a ∷ b ∷ []) h = elim (Bool-cases (index / 32 == 0)) [
  | inl e ↦ rw e refl
  | inr e ↦ rw e refl
]
length-mark_seen index (a ∷ b ∷ c ∷ words) h = absurd (omega arith)

module _ {S : Type 0} (env : Surroundings S) (delivers : Delivers env.reader)
    (messages : Messages S) (Sub : List Field → Type 0) (nested : Nested Sub messages) (fuel : ℕ)
    (fields : List Field) (dest : ℕ) (tags : HasTags fields) (all : All (IsDecoded env Sub) fields)
    (checked : IsChecked (required_before fields (length fields))) where
  -- The state of the decoder, and the outcomes on it that leave good variables.
  abbrev pub stream_of : Decoding S → IStream S
  stream_of d = d.stream

  abbrev pub GoesOn : ℕ → ℕ → Outcome (Decoding S) Progress → Type 0
  GoesOn c left o = Answers stream_of c left 0 (Under fields dest) o

  current-IsDecoded :
      (k : ℕ) (iter : Iter)
      → k < length fields
      → iter ≡ walk fields dest k
      → IsDecoded env Sub (current iter)
  current-IsDecoded k iter lt e =
      rw (e, current-walk fields dest k) (field_at-All (IsDecoded env Sub) fields k all lt)

  decode_known-Runs :
      (t : TagRead) (p : Progress)
      → Under fields dest p
      → Runs stream_of 0 (Under fields dest) (decode_known env messages fuel t p)
  unfolding decode_known
  decode_known-Runs t p (k, lt, e, two) =
      Runs-bind 0
        (decode_field-Decodes env messages Sub delivers nested fuel t.wire_type p.iter
          (current-IsDecoded k p.iter lt e))
        (λ _ _. Runs-pure _ (
          k,
          lt,
          e,
          seen_two
              (htype (current p.iter).type == htype_required && ltb p.iter.required_field_index 64),
        ))
    where
      seen_two :
          (b : Bool)
          → length
              (if b then mark_seen p.iter.required_field_index p.fields_seen else p.fields_seen)
            ≡ 2
      seen_two true = length-mark_seen p.iter.required_field_index p.fields_seen two
      seen_two false = two

  skip-Runs :
      (wire_type : ℕ) (q : Progress)
      → Under fields dest q
      → Runs stream_of 0
          (Under fields dest)
          (on_stream (pb_skip_field env.reader wire_type) >> pure q)
  skip-Runs wire_type q u =
      Runs-bind 0 (Runs-on_stream 0 (pb_skip_field-Reads env.reader delivers wire_type))
        (λ _ _. Runs-pure q u)

  -- No field of the message is an extension field, so the tag is skipped.
  decode_unknown-Goes :
      (t : TagRead) (p : Progress) (c : ℕ) (d : Decoding S)
      → t.tag < 2 ^ 29
      → Under fields dest p
      → Covers c d.stream
      → GoesOn c d.stream.bytes_left (decode_unknown env messages fuel t p d)
  unfolding decode_unknown
  decode_unknown-Goes t p c d small (k, lt, e, two) cov =
      let (j, lt', miss) =
        find_extension_field-Misses fields dest tags
          (λ i lt. (field_at-All (IsDecoded env Sub) fields i all lt).no_extension) k p.iter lt e in
      let below : leb (2 ^ 32 - 1) t.tag ≡ false = ground arith in
      elim (Bool-cases (leb p.extension_range_start t.tag)) [
        | inl in_range ↦
            rw (in_range, miss, below) ((skip-Runs t.wire_type _ (j, lt', refl, two)).at c d cov)
        | inr out ↦ rw out ((skip-Runs t.wire_type p (k, lt, e, two)).at c d cov)
      ]

  decode_tagged-Goes :
      (t : TagRead) (p : Progress) (c : ℕ) (d : Decoding S)
      → t.tag < 2 ^ 29
      → Under fields dest p
      → Covers c d.stream
      → GoesOn c d.stream.bytes_left (decode_tagged env messages fuel t p d)
  unfolding decode_tagged
  decode_tagged-Goes t p c d small (k, lt, e, two) cov =
      elim (pb_field_iter_find-cases fields dest tags k t.tag p.iter lt e) [
        | inl (i, lt', hit) ↦
            rw (decode_tagged, hit)
              ((decode_known-Runs t (record p { iter = walk fields dest i }) (i, lt', refl, two)).at
                c d cov)
        | inr miss ↦
            rw (decode_tagged, miss)
              (decode_unknown-Goes t (record p { iter = walk fields dest k }) c d small
                (k, lt, refl, two) cov)
      ]

  pub message_loop-Goes :
      (rounds : ℕ) (p : Progress) (c : ℕ) (d : Decoding S)
      → Under fields dest p
      → Covers c d.stream
      → d.stream.bytes_left < rounds
      → GoesOn c d.stream.bytes_left (message_loop env messages fuel rounds p d)
  unfolding message_loop on_stream
  message_loop-Goes zero p c d u cov lt = absurd (omega arith)
  message_loop-Goes (suc rounds) p c d u cov lt = elim (Bool-cases (d.stream.bytes_left == 0)) [
    | inl end ↦ rw end (cov, omega arith, u)
    | inr more ↦ rw more (
        round rounds p c d.stream.bytes_left d.mem u (omega arith)
          (λ q e v cov' less. message_loop-Goes rounds q c e v cov' less)
          (pb_decode_tag env.reader d.stream)
          (pb_decode_tag-AnswersTag env.reader delivers c d.stream cov))
  ]
    where
      round :
          (rounds : ℕ) (p : Progress) (c left : ℕ) (mem : Mem)
          → Under fields dest p
          → left ≤ rounds
          → ((q : Progress) (e : Decoding S)
              → Under fields dest q
              → Covers c e.stream
              → e.stream.bytes_left < rounds
              → GoesOn c e.stream.bytes_left (message_loop env messages fuel rounds q e))
          → (o : Outcome (IStream S) Tagged) → AnswersTag c left o
          → GoesOn c left (elim (after mem o) [
            | ok (tagged t) d' ↦
                (decode_tagged env messages fuel t p >>= message_loop env messages fuel rounds) d'
            | ok at_eof d' ↦ ok p d'
            | ok bad d' ↦ fail d'
            | fail d' ↦ fail d'
            | fault ↦ fault
            | stuck ↦ stuck
          ])
      round rounds p c left mem u le rest (ok (tagged t) s) (cov, less, small) =
          let d : Decoding S = record { stream = s; mem = mem } in
          Answers-weaken stream_of c s.bytes_left left 0 0
            ((decode_tagged env messages fuel t p >>= message_loop env messages fuel rounds) d)
            (omega arith) (omega arith) (λ _ v. v)
            (Answers-then stream_of (Under fields dest) (message_loop env messages fuel rounds) c
              s.bytes_left 0 0 0 (decode_tagged env messages fuel t p d) (omega arith)
              (decode_tagged-Goes t p c d small u cov)
              (λ q e cov' less' v. rest q e v cov' (omega arith)))
      round rounds p c left mem u le rest (ok at_eof s) (cov, less) = (cov, omega arith, u)
      round rounds p c left mem u le rest (ok bad s) (cov, less) = (cov, less)
      round rounds p c left mem u le rest (fail s) h = absurd h
      round rounds p c left mem u le rest fault h = h
      round rounds p c left mem u le rest stuck h = h
