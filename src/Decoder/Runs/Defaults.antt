-- ===== src/Decoder/Runs/Defaults.antt =====
-- pb_message_set_to_defaults of pb_decode.c always answers, and leaves the stream alone.
use yum_quest.Base.{
  ℕ, zero, suc, ◌+◌, ◌≤◌, ◌<◌, ◌≡◌, Bool, not, List, length, arith, ◌==◌, if◌then◌else◌,
}
use native.Mathlib.Decide.{dec_lt}
use yum_quest.Command.{Cmd, ◌>>◌}
use yum_quest.Input.Runs.{Runs-pure, Runs-either, Runs-test, Runs-case, Runs-if}
use yum_quest.Field.{
  Field, Iter, current, field_at, pb_field_iter_begin, atype, ltype, atype_static, atype_pointer,
  ltype_extension, ltype_submessage,
}
use yum_quest.Field.Walk.{HasTags, walk, next-walk, next-walk_last, current-walk}
use yum_quest.Decoder.{Decoding, Surroundings}
use yum_quest.Decoder.Defaults.{
  each_field, for_fields, default_data, default_static, default_pointer, pb_field_set_to_default,
  pb_message_set_to_defaults,
}
use yum_quest.Decoder.Decodable.{IsDecoded, Decodable, field_at-All}
use yum_quest.Decoder.Runs.{Decodes, Decodes-write, Decodes-then}

module _ {S : Type 0} (body : Iter → Cmd (Decoding S) (Unit {0})) (fields : List Field) (dest : ℕ)
    (tags : HasTags fields)
    (each : (k : ℕ) → k < length fields → Decodes 0 (body (walk fields dest k))) where
  -- A round of each_field at `iter`, for the answer of pb_field_iter_next.
  abbrev round : ℕ → Iter → Iter × Bool → Cmd (Decoding S) (Unit {0})
  round rounds iter next =
      λ d. if next.1 then (body iter >> each_field body rounds next.0) d else body iter d

  round-Decodes :
      (rounds : ℕ) (iter : Iter) (next answer : Iter × Bool)
      → next ≡ answer
      → Decodes 0 (round rounds iter answer)
      → Decodes 0 (round rounds iter next)
  round-Decodes rounds iter next answer e h = rw e h

  each_field-Decodes :
      (rounds k : ℕ)
      → k < length fields
      → length fields ≤ k + rounds
      → Decodes 0 (each_field body rounds (walk fields dest k))
  unfolding each_field
  each_field-Decodes zero k lt enough = absurd (omega arith)
  each_field-Decodes (suc rounds) k lt enough = elim (dec_lt (suc k) (length fields)) [
    | yes inner ↦
        round-Decodes rounds (walk fields dest k) _ _ (next-walk fields dest k tags inner)
          (Decodes-then 0 (each k lt) (each_field-Decodes rounds (suc k) inner (omega arith)))
    | no last ↦
        round-Decodes rounds (walk fields dest k) _ _
          (next-walk_last fields dest k tags (omega arith)) (each k lt)
  ]

  pub for_fields-Decodes : 1 ≤ length fields → Decodes 0 (for_fields body fields dest)
  unfolding for_fields pb_field_iter_begin walk
  for_fields-Decodes some_field =
      Runs-either 0 (not ((field_at fields 0).tag == 0))
        (each_field-Decodes (length fields + 1) 0 some_field (omega arith)) (Runs-pure tt tt)

module _ {S : Type 0} (env : Surroundings S) where
  default_data-Decodes :
      (set_default : Iter → Cmd (Decoding S) (Unit {0})) (iter : Iter)
      → (ltype (current iter).type ≡ ltype_submessage
          → Decodes 0 (for_fields set_default (env.fields_at (current iter).ptr) iter.p_data))
      → Decodes 0 (default_data env set_default iter)
  unfolding default_data
  default_data-Decodes set_default iter sub =
      Runs-if 0 (ltype (current iter).type == ltype_submessage) (λ e. sub (ground arith))
        (λ e. Runs-either 0 _ (Decodes-write _) (Decodes-write _))

  default_static-Decodes :
      (set_default : Iter → Cmd (Decoding S) (Unit {0})) (iter : Iter)
      → Decodes 0 (default_data env set_default iter)
      → Decodes 0 (default_static env set_default iter)
  unfolding default_static
  default_static-Decodes set_default iter h =
      Runs-either 0 _ (Decodes-then 0 (Decodes-write _) h) (Runs-either 0 _ (Decodes-write _) h)

  default_pointer-Decodes : (iter : Iter) → Decodes 0 (default_pointer env iter)
  unfolding default_pointer
  default_pointer-Decodes iter =
      Decodes-then 0 (Decodes-write _) (Runs-either 0 _ (Decodes-write _) (Runs-pure tt tt))

  pb_field_set_to_default-Decodes :
      (depth : ℕ) (iter : Iter)
      → ((fields : List Field) (dest : ℕ)
          → Decodable env depth fields
          → Decodes 0 (pb_message_set_to_defaults env depth fields dest))
      → IsDecoded env (Decodable env depth) (current iter)
      → Decodes 0 (pb_field_set_to_default env (suc depth) iter)
  unfolding pb_field_set_to_default pb_message_set_to_defaults
  pb_field_set_to_default-Decodes depth iter nested h =
      Runs-test 0 (ltype (current iter).type == ltype_extension)
        (λ e. absurd (h.no_extension (ground arith)))
        λ e.
          Runs-case 0 (λ d. atype (current iter).type == atype_static)
            (default_static-Decodes (pb_field_set_to_default env depth) iter (
              default_data-Decodes (pb_field_set_to_default env depth) iter
                λ l. nested (env.fields_at (current iter).ptr) iter.p_data (h.submessage l)))
            (Runs-case 0 (λ d. atype (current iter).type == atype_pointer)
              (default_pointer-Decodes iter) (Runs-pure tt tt))

  pub pb_message_set_to_defaults-Decodes :
      (depth : ℕ) (fields : List Field) (dest : ℕ)
      → Decodable env depth fields
      → Decodes 0 (pb_message_set_to_defaults env depth fields dest)
  unfolding pb_message_set_to_defaults
  pb_message_set_to_defaults-Decodes zero fields dest h = absurd h
  pb_message_set_to_defaults-Decodes (suc depth) fields dest h =
      for_fields-Decodes (pb_field_set_to_default env (suc depth)) fields dest h.0
        (λ k lt.
          pb_field_set_to_default-Decodes depth (walk fields dest k)
            (λ fs p g. pb_message_set_to_defaults-Decodes depth fs p g)
            (rw (current-walk fields dest k)
              (field_at-All (IsDecoded env (Decodable env depth)) fields k h.2 lt)))
        h.1
