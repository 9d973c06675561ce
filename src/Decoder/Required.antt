-- ===== src/Decoder/Required.antt =====
-- The required fields in YumQuest/Pods/nanopb/pb_decode.c: the bits of `fields_seen` and the check at
-- the end of pb_decode_noinit.
pub mod Words
pub mod Seen
pub mod Count
use yum_quest.Base.{
  ℕ, zero, suc, ◌+◌, ◌-◌, ◌/◌, ◌%◌, ◌^◌, Bool, true, false, not, ◌&&◌, ◌||◌, Option, none, some,
  List, [], ◌∷◌, length, get_or, bit_or, ltb, leb, ◌==◌, if◌then◌else◌,
}
use yum_quest.Command.{Outcome, ok, fail, fault, stuck, Cmd, pure, ◌>>=◌, ◌>>◌}
use yum_quest.Pb.{missing_required_field}
use yum_quest.Decoding.{
  TagRead, tagged, at_eof, bad, pb_decode_tag, pb_skip_field, pb_make_string_substream,
  pb_close_string_substream,
}
use yum_quest.Memory.{load, store}
use yum_quest.Field.{
  Field, Iter, current, field_at, begin_iter, pb_field_iter_next, pb_field_iter_find, htype, ltype,
  htype_required, ltype_extension,
}
use yum_quest.Decoder.{Decoding, Surroundings, on_stream, return_error, write, in_substream, answer}
use yum_quest.Decoder.Defaults.{iter_from_extension, pb_message_set_to_defaults}
use yum_quest.Decoder.Fields.{Messages, decode_field}

-- The words of `fields_seen`; PB_MAX_REQUIRED_FIELDS is 64, so there are two.
abbrev pub no_fields_seen : List ℕ
no_fields_seen = 0 ∷ 0 ∷ []

abbrev pub allbits : ℕ
allbits = 2 ^ 32 - 1

-- fields_seen[index >> 5] |= 1 << (index & 31), for an index below 64.
unfoldable pub mark_seen : ℕ → List ℕ → List ℕ
mark_seen index (a ∷ b ∷ []) =
    if index / 32 == 0
    then bit_or a (2 ^ (index % 32)) ∷ b ∷ []
    else a ∷ bit_or b (2 ^ (index % 32)) ∷ []
mark_seen index other = other

-- The variables of pb_decode_noinit.
pub record Progress : Type 0 where
  pub iter : Iter
  pub fields_seen : List ℕ
  pub extension_range_start : ℕ

-- The loop to the end of the array, lines 928 to 931: the count of required fields and the type of
-- the last entry that it was at, and the iterator.
unfoldable pub count_loop : ℕ → Iter → Option (ℕ × ℕ × Iter)
count_loop zero iter = none
count_loop (suc rounds) iter =
    let next = pb_field_iter_next iter in
    let more = count_loop rounds next.0 in
    if next.1 then more else some (iter.required_field_index, (current iter).type, next.0)

-- The number of required fields, lines 925 to 935.
unfoldable pub req_field_count : Iter → Option ℕ
unfolding count_loop
req_field_count iter = elim (count_loop (length iter.start + 1) iter) [
  | none ↦ none
  | some (count, last_type, end) ↦ some (
      if htype last_type == htype_required && not ((current end).tag == 0)
      then count + 1
      else count)
]

-- What the comparison of the words says: all are seen, one is missing, or the code reads behind the
-- two words or shifts a uint32_t by 32, which is undefined.
pub data Verdict : Type 0 where
  complete : Verdict
  missing : Verdict
  undefined : Verdict

-- The whole words, lines 940 to 944: `n` words from index `i` on.
unfoldable pub whole_words : ℕ → List ℕ → Verdict
whole_words zero words = complete
whole_words (suc n) [] = undefined
whole_words (suc n) (w ∷ words) =
    let more = whole_words n words in if w == allbits then more else missing

-- The remaining bits, line 947.
unfoldable pub last_word : ℕ → List ℕ → Verdict
last_word count words =
    let bits = count % 32 in
    if bits == 0 || leb (length words) (count / 32)
    then undefined
    else if get_or words (count / 32) 0 == allbits / 2 ^ (32 - bits)
    then complete
    else missing

unfoldable pub check_seen : ℕ → List ℕ → Verdict
unfolding whole_words last_word
check_seen count words =
    if count == 0
    then complete
    else elim (whole_words (count / 32) words) [ complete ↦ last_word count words | other ↦ other ]

module _ {S : Type 0} where
  -- The check of the required fields at the end of pb_decode_noinit, lines 919 to 952.
  unfoldable pub check_required : Progress → Cmd (Decoding S) (Unit {0})
  unfolding req_field_count check_seen
  check_required p d = elim (req_field_count p.iter) [
    | none ↦ stuck
    | some count ↦ elim (check_seen count p.fields_seen) [
      | complete ↦ ok tt d
      | missing ↦ return_error missing_required_field d
      | undefined ↦ fault
    ]
  ]
