-- ===== src/Encoder/Uniform/Values.antt =====
-- The encoders of pb_encode.c for one value on the sizing stream and on a buffer.
use yum_quest.Base.{
  ℕ, zero, suc, ◌+◌, ◌≤◌, ◌≡◌, refl, ap, Option, none, some, List, [], ◌∷◌, length, take, arith,
  ◌||◌, ◌==◌,
}
use yum_quest.Command.{Cmd}
use yum_quest.Output.{OStream, Writer, pb_write}
use yum_quest.Encoding.{
  fill_groups, clear_last, write_groups, pb_encode_varint, pb_encode_svarint, pb_encode_fixed32,
  pb_encode_fixed64, pb_encode_tag, pb_encode_string,
}
use yum_quest.Memory.{Mem, load_bytes}
use yum_quest.Pb.{wt_varint, wt_64bit, wt_string, wt_32bit, invalid_field_type}
use yum_quest.Field.{
  Field, ltype, ltype_varint, ltype_uvarint, ltype_svarint, ltype_fixed32, ltype_fixed64,
  ltype_bytes, ltype_string, ltype_submessage, ltype_fixed_length_bytes,
}
use yum_quest.Encoder.{
  Surroundings, pb_enc_varint, pb_enc_uvarint, pb_enc_svarint, pb_enc_fixed32, pb_enc_fixed64,
  pb_enc_bytes, pb_enc_string, pb_enc_fixed_length_bytes, pb_encode_tag_for_field,
}
use yum_quest.Encoder.Uniform.{
  Emits, Uniform, emits, Uniform-if, Uniform-then, Uniform-error, Uniform-fault, Emits-pb_write,
}

length-clear_last : (bs : List ℕ) → length (clear_last bs) ≡ length bs
unfolding clear_last
length-clear_last [] = refl
length-clear_last (b ∷ []) = refl
length-clear_last (b ∷ c ∷ bs) = ap suc (length-clear_last (c ∷ bs))

length-load_bytes : (n p : ℕ) (mem : Mem) → length (load_bytes n p mem) ≡ n
unfolding load_bytes
length-load_bytes zero p mem = refl
length-load_bytes (suc n) p mem = ap suc (length-load_bytes n (p + 1) mem)

module _ {T : Type 0} (cb : Writer T) where
  pub Uniform-pb_write :
      (bytes : List ℕ) (count : ℕ) → count ≤ length bytes → Uniform (pb_write cb bytes count)
  Uniform-pb_write bytes count h = emits (take count bytes) (Emits-pb_write cb bytes count h)

  Uniform-write_groups : (groups : Option (List ℕ)) → Uniform (write_groups cb groups)
  unfolding write_groups
  Uniform-write_groups none = Uniform-fault
  Uniform-write_groups (some bs) =
      Uniform-pb_write (clear_last bs) (length bs) (omega (arith, length-clear_last bs))

  pub Uniform-pb_encode_varint : (v : ℕ) → Uniform (pb_encode_varint cb v)
  unfolding pb_encode_varint
  Uniform-pb_encode_varint v =
      Uniform-if _ (Uniform-pb_write _ 1 (omega arith)) (Uniform-write_groups (fill_groups 10 v))

  pub Uniform-pb_encode_string :
      (bytes : List ℕ) (size : ℕ) → size ≤ length bytes → Uniform (pb_encode_string cb bytes size)
  unfolding pb_encode_string
  Uniform-pb_encode_string bytes size h =
      Uniform-then (Uniform-pb_encode_varint size) (Uniform-pb_write bytes size h)

  pub Uniform-pb_encode_tag : (wt tag : ℕ) → Uniform (pb_encode_tag cb wt tag)
  unfolding pb_encode_tag
  Uniform-pb_encode_tag wt tag = Uniform-pb_encode_varint _

-- The bytes that a command writes are `n`.
abbrev pub EmitsLength : {T : Type 0} → Cmd (OStream T) (Unit {0}) → ℕ → Type 0
EmitsLength m n = (bytes : List ℕ) × Emits m bytes × (length bytes ≡ n)

module _ {T : Type 0} (env : Surroundings T) where
  pub EmitsLength-pb_enc_fixed32 : (f : Field) (p : ℕ) → EmitsLength (pb_enc_fixed32 env f p) 4
  unfolding pb_enc_fixed32 pb_encode_fixed32
  EmitsLength-pb_enc_fixed32 f p = (_, Emits-pb_write env.writer _ 4 (omega arith), refl)

  pub EmitsLength-pb_enc_fixed64 : (f : Field) (p : ℕ) → EmitsLength (pb_enc_fixed64 env f p) 8
  unfolding pb_enc_fixed64 pb_encode_fixed64
  EmitsLength-pb_enc_fixed64 f p = (_, Emits-pb_write env.writer _ 8 (omega arith), refl)

  pub Uniform-pb_enc_varint : (f : Field) (p : ℕ) → Uniform (pb_enc_varint env f p)
  unfolding pb_enc_varint
  Uniform-pb_enc_varint f p = Uniform-if _ (Uniform-pb_encode_varint env.writer _) (Uniform-error _)

  pub Uniform-pb_enc_uvarint : (f : Field) (p : ℕ) → Uniform (pb_enc_uvarint env f p)
  unfolding pb_enc_uvarint
  Uniform-pb_enc_uvarint f p =
      Uniform-if _ (Uniform-pb_encode_varint env.writer _) (Uniform-error _)

  pub Uniform-pb_enc_svarint : (f : Field) (p : ℕ) → Uniform (pb_enc_svarint env f p)
  unfolding pb_enc_svarint pb_encode_svarint
  Uniform-pb_enc_svarint f p =
      Uniform-if _ (Uniform-pb_encode_varint env.writer _) (Uniform-error _)

  pub Uniform-pb_enc_fixed32 : (f : Field) (p : ℕ) → Uniform (pb_enc_fixed32 env f p)
  Uniform-pb_enc_fixed32 f p = let (bs, e, _) = EmitsLength-pb_enc_fixed32 f p in emits bs e

  pub Uniform-pb_enc_fixed64 : (f : Field) (p : ℕ) → Uniform (pb_enc_fixed64 env f p)
  Uniform-pb_enc_fixed64 f p = let (bs, e, _) = EmitsLength-pb_enc_fixed64 f p in emits bs e

  loaded : (n p : ℕ) → Uniform (pb_encode_string env.writer (load_bytes n p env.mem) n)
  loaded n p =
      Uniform-pb_encode_string env.writer (load_bytes n p env.mem) n
        (omega (arith, length-load_bytes n p env.mem))

  empty : Uniform (pb_encode_string env.writer [] 0)
  empty = Uniform-pb_encode_string env.writer [] 0 (omega arith)

  pub Uniform-pb_enc_bytes : (f : Field) (p : ℕ) → Uniform (pb_enc_bytes env f p)
  unfolding pb_enc_bytes
  Uniform-pb_enc_bytes f p = Uniform-if _ empty (Uniform-if _ (Uniform-error _) (loaded _ _))

  pub Uniform-pb_enc_string :
      (longest : ℕ) (f : Field) (p : ℕ) → Uniform (pb_enc_string env longest f p)
  unfolding pb_enc_string
  Uniform-pb_enc_string longest f p = Uniform-if _ empty (loaded _ _)

  pub Uniform-pb_enc_fixed_length_bytes :
      (f : Field) (p : ℕ) → Uniform (pb_enc_fixed_length_bytes env f p)
  unfolding pb_enc_fixed_length_bytes
  Uniform-pb_enc_fixed_length_bytes f p = loaded f.data_size p

  pub Uniform-pb_encode_tag_for_field : (f : Field) → Uniform (pb_encode_tag_for_field env f)
  unfolding pb_encode_tag_for_field
  Uniform-pb_encode_tag_for_field f =
      let l = ltype f.type in
      Uniform-if (l == ltype_varint || l == ltype_uvarint || l == ltype_svarint)
        (Uniform-pb_encode_tag env.writer wt_varint f.tag)
        (Uniform-if (l == ltype_fixed32) (Uniform-pb_encode_tag env.writer wt_32bit f.tag) (
          Uniform-if (l == ltype_fixed64) (Uniform-pb_encode_tag env.writer wt_64bit f.tag) (
            Uniform-if
              (l == ltype_bytes
                || l == ltype_string
                || l == ltype_submessage
                || l == ltype_fixed_length_bytes)
              (Uniform-pb_encode_tag env.writer wt_string f.tag)
              (Uniform-error invalid_field_type))))
