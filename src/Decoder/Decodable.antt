-- ===== src/Decoder/Decodable.antt =====
-- The message types that pb_decode.c can decode without calling the user's callbacks for fields, to a
-- depth of nesting.
use yum_quest.Base.{
  ℕ, zero, suc, ◌+◌, ◌%◌, ◌≤◌, ◌<◌, ◌≡◌, ◌≢◌, List, [], ◌∷◌, length, All, arith, ◌==◌,
  if◌then◌else◌,
}
use yum_quest.Field.{
  Field, field_at, atype, htype, ltype, atype_callback, htype_required, ltype_submessage,
  ltype_extension, ltype_fixed_length_bytes,
}
use yum_quest.Field.Walk.{HasTags}
use yum_quest.Decoder.{Surroundings}

-- A field of one of the types of PB_DECODERS that is no extension field and no callback field; `Sub` is
-- what the type of a submessage has to be.
pub record IsDecoded {S : Type 0} (env : Surroundings S) (Sub : List Field → Type 0) (f : Field)
    : Type 0 where
  pub known : ltype f.type ≤ ltype_fixed_length_bytes
  pub no_extension : ltype f.type ≢ ltype_extension
  pub no_callback : atype f.type ≢ atype_callback
  pub submessage : ltype f.type ≡ ltype_submessage → Sub (env.fields_at f.ptr)

-- The number of required fields among the first `k` entries.
abbrev pub required_before : List Field → ℕ → ℕ
required_before fields zero = 0
required_before fields (suc k) =
    if htype (field_at fields k).type == htype_required
    then required_before fields k + 1
    else required_before fields k

-- A number of required fields that the check at the end of pb_decode_noinit can handle.
pub record IsChecked (count : ℕ) : Type 0 where
  pub below : count < 64
  pub no_full_word : count % 32 ≡ 0 → count ≡ 0

-- A message type with a field at least, and with messages nested in it `depth` deep at most, itself
-- counted.
abbrev pub Decodable : {S : Type 0} → Surroundings S → ℕ → List Field → Type 0
Decodable env zero fields = ⊥
Decodable env (suc depth) fields =
    HasTags fields
    × (1 ≤ length fields)
    × All (IsDecoded env (Decodable env depth)) fields
    × IsChecked (required_before fields (length fields))

pub field_at-All :
    (P : Field → Type 0) (fields : List Field) (k : ℕ)
    → All P fields
    → k < length fields
    → P (field_at fields k)
field_at-All P [] k h lt = absurd (omega arith)
field_at-All P (f ∷ fields) zero h lt = h.0
field_at-All P (f ∷ fields) (suc k) h lt = field_at-All P fields k h.1 (omega arith)
