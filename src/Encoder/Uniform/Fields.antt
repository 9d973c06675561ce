-- ===== src/Encoder/Uniform/Fields.antt =====
-- The encoding of a field in pb_encode.c (counted, optional, callback and extension fields) on the
-- sizing stream and on a buffer.
use yum_quest.Base.{
  ℕ, zero, suc, ◌+◌, refl, Bool, true, not, ◌||◌, Option, none, some, List, ◌==◌, if◌then◌else◌,
}
use yum_quest.Command.{Outcome, ok, fail, fault, stuck, Cmd}
use yum_quest.Pb.{u64, missing_required_field, invalid_field_type, callback_error}
use yum_quest.Output.{OStream, return_error}
use yum_quest.Output.Buffer.{counting}
use yum_quest.Field.{
  Field, Iter, field_at, ltype, ltype_extension, atype, atype_pointer, atype_static, atype_callback,
  htype, htype_required, htype_optional, htype_repeated, htype_oneof, pb_field_iter_next, current,
}
use yum_quest.Memory.{load}
use yum_quest.Encoder.{Surroundings}
use yum_quest.Encoder.Fields.{
  encode_one, encode_counted, encode_present, encode_basic_field, encode_callback_field,
  encode_field, default_extension_encoder, encode_extensions, encode_entry, encode_loop,
  pb_check_proto3_default_value,
}
use yum_quest.Output.Buffer.{writing}
use yum_quest.Encoder.Uniform.{
  Stops, Uniform, emits, stops, Uniform-pure, Uniform-error, Uniform-fault, Uniform-stuck,
  Uniform-if, Uniform-if_at, Uniform-then,
}
use yum_quest.Encoder.Uniform.Values.{Uniform-pb_encode_tag_for_field}
use yum_quest.Encoder.Uniform.Arrays.{Uniform-encoder_for, Uniform-encode_array}

-- A handler of the user, where there is one, does the same on the sizing stream and on a buffer with
-- room, and does not succeed on one without.
abbrev pub HandlerIsUniform : {T : Type 0} → Option (ℕ → Cmd (OStream T) (Unit {0})) → Type 0
HandlerIsUniform none = Unit
HandlerIsUniform (some handler) = (ext : ℕ) → Uniform (handler ext)

-- The callbacks of the user write the same on the sizing stream and on a buffer with room, and do not
-- succeed on one without.
pub record IsUniform {T : Type 0} (env : Surroundings T) : Type 0 where
  pub callbacks : (a : ℕ) (f : Field) (arg : ℕ) → Uniform (env.callback_at a f arg)
  pub handlers : (a : ℕ) → HandlerIsUniform (env.extension_type_at a).encode

module _ {T : Type 0} (env : Surroundings T) (fuel : ℕ)
    (submessage : List Field → ℕ → Cmd (OStream T) (Unit {0})) (h : IsUniform env)
    (submessage-Uniform : (fs : List Field) (p : ℕ) → Uniform (submessage fs p)) where
  Uniform-encode_one : (f : Field) (p : ℕ) → Uniform (encode_one env fuel submessage f p)
  unfolding encode_one
  Uniform-encode_one f p =
      Uniform-then (Uniform-pb_encode_tag_for_field env f)
        (Uniform-encoder_for env fuel submessage submessage-Uniform f p)

  Uniform-encode_counted :
      (f : Field) (p : ℕ) (count : Option ℕ)
      → Uniform (encode_counted env fuel submessage f p count)
  unfolding encode_counted
  Uniform-encode_counted f p none = Uniform-fault
  Uniform-encode_counted f p (some count) =
      Uniform-if_at _ (Uniform-encode_array env fuel submessage submessage-Uniform f p count)
        (Uniform-if_at _ (Uniform-encode_one f p) Uniform-pure)

  Uniform-encode_present :
      (f : Field) (p : ℕ) (has : Bool) (count : Option ℕ)
      → Uniform (encode_present env fuel submessage f p has count)
  unfolding encode_present
  Uniform-encode_present f p has count =
      let h = htype f.type in
      Uniform-if (h == htype_required)
        (Uniform-if (p == 0) (Uniform-error missing_required_field) (Uniform-encode_one f p))
        (Uniform-if (h == htype_optional) (Uniform-if has (Uniform-encode_one f p) Uniform-pure) (
          Uniform-if (h == htype_repeated || h == htype_oneof) (Uniform-encode_counted f p count)
            (Uniform-error invalid_field_type)))

  Uniform-implicit :
      (f : Field) (p : ℕ) (o : Option Bool)
      → Uniform (elim o [
        | none ↦ λ s. stuck
        | some is_default ↦ encode_present env fuel submessage f p (not is_default) none
      ])
  Uniform-implicit f p none = Uniform-stuck
  Uniform-implicit f p (some is_default) = Uniform-encode_present f p (not is_default) none

  Uniform-encode_basic_field :
      (f : Field) (p : ℕ) → Uniform (encode_basic_field env fuel submessage f p)
  unfolding encode_basic_field
  Uniform-encode_basic_field f p =
      let p_size = u64 (p + f.size_offset) in
      let is_pointer = atype f.type == atype_pointer in
      let target = if is_pointer then load 8 p env.mem else p in
      Uniform-if (not (f.size_offset == 0))
        (Uniform-encode_present f target (not (load 1 p_size env.mem == 0))
          (some (load 4 p_size env.mem)))
        (Uniform-if is_pointer (Uniform-encode_present f target (not (target == 0)) none) (
          Uniform-if (htype f.type == htype_optional)
            (Uniform-implicit f target
              (pb_check_proto3_default_value env.fields_at env.mem fuel f p))
            (Uniform-encode_present f target true none)))

  Stops-called :
      (o : Outcome (OStream T) (Unit {0}))
      → Stops o
      → Stops (elim o [ fail s' ↦ return_error callback_error s' | other ↦ other ])
  unfolding return_error
  Stops-called (ok _ _) g = absurd g
  Stops-called (fail _) g = tt
  Stops-called fault g = tt
  Stops-called stuck g = tt

  Uniform-called :
      (m : Cmd (OStream T) (Unit {0}))
      → Uniform m
      → Uniform (λ s. elim (m s) [ fail s' ↦ return_error callback_error s' | other ↦ other ])
  unfolding return_error
  Uniform-called m (emits bytes e) = emits bytes record {
    counts = λ max_size w lt. rw (e.counts max_size w lt) refl;
    writes = λ out room max_size w i j l. rw (e.writes out room max_size w i j l) refl;
    full = λ out room max_size w i j l no_room.
        Stops-called (m (writing out room max_size w none))
          (e.full out room max_size w i j l no_room);
  }
  Uniform-called m (stops g) =
      stops (λ max_size w lt. Stops-called (m (counting max_size w none)) (g max_size w lt))

  Uniform-encode_callback_field :
      (f : Field) (p : ℕ) → Uniform (encode_callback_field env fuel submessage f p)
  unfolding encode_callback_field
  Uniform-encode_callback_field f p =
      Uniform-if_at (load 8 p env.mem == 0) Uniform-pure
        (Uniform-called (env.callback_at (load 8 p env.mem) f (p + 8)) (h.callbacks _ f (p + 8)))

  Uniform-encode_field : (f : Field) (p : ℕ) → Uniform (encode_field env fuel submessage f p)
  unfolding encode_field
  Uniform-encode_field f p =
      let a = atype f.type in
      Uniform-if (a == atype_static || a == atype_pointer) (Uniform-encode_basic_field f p) (
        Uniform-if (a == atype_callback) (Uniform-encode_callback_field f p)
          (Uniform-error invalid_field_type))

  Uniform-default_extension_encoder :
      (ext : ℕ) → Uniform (default_extension_encoder env fuel submessage ext)
  unfolding default_extension_encoder
  Uniform-default_extension_encoder ext =
      let field = field_at (env.extension_type_at (load 8 ext env.mem)).arg 0 in
      Uniform-if (atype field.type == atype_pointer) (Uniform-encode_field field (ext + 8))
        (Uniform-encode_field field (load 8 (ext + 8) env.mem))

  Uniform-handler :
      (ext : ℕ) (o : Option (ℕ → Cmd (OStream T) (Unit {0})))
      → HandlerIsUniform o
      → Uniform (elim o [
        | none ↦ default_extension_encoder env fuel submessage ext
        | some handler ↦ handler ext
      ])
  Uniform-handler ext none g = Uniform-default_extension_encoder ext
  Uniform-handler ext (some handler) g = g ext

  Uniform-encode_extensions :
      (rounds ext : ℕ) → Uniform (encode_extensions env fuel submessage rounds ext)
  unfolding encode_extensions
  Uniform-encode_extensions zero ext = Uniform-stuck
  Uniform-encode_extensions (suc rounds) ext =
      Uniform-if_at (ext == 0) Uniform-pure
        (Uniform-then (Uniform-handler ext _ (h.handlers _)) (Uniform-encode_extensions rounds _))

  Uniform-encode_entry : (iter : Iter) → Uniform (encode_entry env fuel submessage iter)
  unfolding encode_entry
  Uniform-encode_entry iter =
      Uniform-if (ltype (current iter).type == ltype_extension)
        (Uniform-encode_extensions fuel (load 8 iter.p_data env.mem))
        (Uniform-encode_field (current iter) iter.p_data)

  pub Uniform-encode_loop :
      (rounds : ℕ) (iter : Iter) → Uniform (encode_loop env fuel submessage rounds iter)
  unfolding encode_loop
  Uniform-encode_loop zero iter = Uniform-stuck
  Uniform-encode_loop (suc rounds) iter =
      Uniform-if_at (pb_field_iter_next iter).1
        (Uniform-then (Uniform-encode_entry iter)
          (Uniform-encode_loop rounds (pb_field_iter_next iter).0))
        (Uniform-encode_entry iter)
