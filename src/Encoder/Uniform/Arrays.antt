-- ===== src/Encoder/Uniform/Arrays.antt =====
-- The encoding of values and arrays in pb_encode.c (PB_ENCODERS, encode_array) on the sizing stream
-- and on a buffer.
use yum_quest.Base.{
  ℕ, zero, suc, ◌+◌, ◌*◌, ◌≡◌, refl, sym, ap, Bool, true, false, none, List, [], ◌++◌, length,
  length-append, arith, ◌==◌, if◌then◌else◌,
}
use yum_quest.Command.{Outcome, ok, fail, fault, stuck, Cmd, ◌>>◌}
use yum_quest.Pb.{u64}
use yum_quest.Output.{OStream, is_sizing, pb_write, pb_ostream_sizing}
use yum_quest.Output.Buffer.{counting}
use yum_quest.Encoding.{pb_encode_varint}
use yum_quest.Field.{Field, ltype, ltype_fixed32, ltype_fixed64}
use yum_quest.Encoder.{Surroundings}
use yum_quest.Encoder.Fields.{
  pb_enc_submessage, encoder_for, each_item, packed_size, encode_packed, encode_item, encode_array,
}
use yum_quest.Encoder.Uniform.{
  Stops, Emits, Uniform, emits, stops, Emits-nil, Uniform-pure, Uniform-error, Uniform-fault,
  Uniform-stuck, Uniform-if, Uniform-then, Emits-then,
}
use yum_quest.Encoder.Uniform.Values.{
  EmitsLength, EmitsLength-pb_enc_fixed32, EmitsLength-pb_enc_fixed64, Uniform-pb_enc_varint,
  Uniform-pb_enc_uvarint, Uniform-pb_enc_svarint, Uniform-pb_enc_fixed32, Uniform-pb_enc_fixed64,
  Uniform-pb_enc_bytes, Uniform-pb_enc_string, Uniform-pb_enc_fixed_length_bytes,
  Uniform-pb_encode_tag_for_field, Uniform-pb_encode_tag, Uniform-pb_encode_varint,
}

module _ {T : Type 0} where
  -- What the size of a packed array says of its items.
  abbrev SizeOf : Cmd (OStream T) (Unit {0}) → Outcome (OStream T) ℕ → Type 0
  SizeOf items (ok size _) = (bytes : List ℕ) × Emits items bytes × (u64 size ≡ u64 (length bytes))
  SizeOf items (fail _) = Unit
  SizeOf items fault = Unit
  SizeOf items stuck = Unit

  SizeOf-if :
      (items : Cmd (OStream T) (Unit {0})) (b : Bool) (x y : Outcome (OStream T) ℕ)
      → (b ≡ true → SizeOf items x)
      → (b ≡ false → SizeOf items y)
      → SizeOf items (if b then x else y)
  SizeOf-if items true x y h g = h refl
  SizeOf-if items false x y h g = g refl

  abbrev size_read : Outcome (OStream T) (Unit {0}) → Outcome (OStream T) ℕ
  size_read o = elim o [
    | ok _ s ↦ ok s.bytes_written s
    | fail s ↦ fail s
    | fault ↦ fault
    | stuck ↦ stuck
  ]

  SizeOf-run :
      (items : Cmd (OStream T) (Unit {0}))
      → Uniform items
      → SizeOf items (size_read (items pb_ostream_sizing))
  SizeOf-run items (emits bytes e) = rw (e.counts 0 0 (omega arith)) (bytes, e, omega arith)
  SizeOf-run items (stops h) = go (items pb_ostream_sizing) (h 0 0 (omega arith))
    where
      go : (o : Outcome (OStream T) (Unit {0})) → Stops o → SizeOf items (size_read o)
      go (ok _ _) g = absurd g
      go (fail _) g = tt
      go fault g = tt
      go stuck g = tt

module _ {T : Type 0} (env : Surroundings T) (fuel : ℕ)
    (submessage : List Field → ℕ → Cmd (OStream T) (Unit {0}))
    (submessage-Uniform : (fs : List Field) (p : ℕ) → Uniform (submessage fs p)) where
  Uniform-pb_enc_submessage :
      (f : Field) (p : ℕ) → Uniform (pb_enc_submessage env fuel submessage f p)
  unfolding pb_enc_submessage
  Uniform-pb_enc_submessage f p = Uniform-if _ (Uniform-error _) (submessage-Uniform _ p)

  pub Uniform-encoder_for : (f : Field) (p : ℕ) → Uniform (encoder_for env fuel submessage f p)
  unfolding encoder_for
  Uniform-encoder_for f p = Uniform-if _ (Uniform-pb_enc_varint env f p) (
      Uniform-if _ (Uniform-pb_enc_uvarint env f p) (
        Uniform-if _ (Uniform-pb_enc_svarint env f p) (
          Uniform-if _ (Uniform-pb_enc_fixed32 env f p) (
            Uniform-if _ (Uniform-pb_enc_fixed64 env f p) (
              Uniform-if _ (Uniform-pb_enc_bytes env f p) (
                Uniform-if _ (Uniform-pb_enc_string env fuel f p) (
                  Uniform-if _ (Uniform-pb_enc_submessage f p)
                    (Uniform-if _ (Uniform-pb_enc_fixed_length_bytes env f p) Uniform-fault))))))))

  Uniform-each_item :
      (item : ℕ → Cmd (OStream T) (Unit {0})) (size count p : ℕ)
      → ((q : ℕ) → Uniform (item q))
      → Uniform (each_item env fuel submessage item size count p)
  unfolding each_item
  Uniform-each_item item size zero p g = Uniform-pure
  Uniform-each_item item size (suc count) p g =
      Uniform-then (g p) (Uniform-each_item item size count (p + size) g)

  -- Items of `n` bytes each.
  EmitsLength-each_item :
      (item : ℕ → Cmd (OStream T) (Unit {0})) (n size count p : ℕ)
      → ((q : ℕ) → EmitsLength (item q) n)
      → EmitsLength (each_item env fuel submessage item size count p) (n * count)
  unfolding each_item
  EmitsLength-each_item item n size zero p g = ([], Emits-nil, omega arith)
  EmitsLength-each_item item n size (suc count) p g =
      let (bs, e, el) = g p in
      let (cs, d, dl) = EmitsLength-each_item item n size count (p + size) g in
      (bs ++ cs, Emits-then e d, omega (arith, length-append bs cs, el, dl))

  fixed_items :
      (f : Field) (n count p : ℕ)
      → ((q : ℕ) → EmitsLength (encoder_for env fuel submessage f q) n)
      → SizeOf
          (each_item env fuel submessage (encoder_for env fuel submessage f) f.data_size count p)
          (ok (n * count) pb_ostream_sizing)
  fixed_items f n count p g =
      let (bs, e, el) =
        EmitsLength-each_item (encoder_for env fuel submessage f) n f.data_size count p g in
      (bs, e, ap u64 (sym el))

  encoder_for-fixed32 :
      (f : Field) (q : ℕ)
      → (ltype f.type == ltype_fixed32) ≡ true
      → EmitsLength (encoder_for env fuel submessage f q) 4
  unfolding encoder_for
  encoder_for-fixed32 f q e = ground (arith, EmitsLength-pb_enc_fixed32 env f q)

  encoder_for-fixed64 :
      (f : Field) (q : ℕ)
      → (ltype f.type == ltype_fixed64) ≡ true
      → EmitsLength (encoder_for env fuel submessage f q) 8
  unfolding encoder_for
  encoder_for-fixed64 f q e = ground (arith, EmitsLength-pb_enc_fixed64 env f q)

  SizeOf-packed_size :
      (f : Field) (p count : ℕ)
      → SizeOf
          (each_item env fuel submessage (encoder_for env fuel submessage f) f.data_size count p)
          (packed_size env fuel submessage f p count)
  unfolding packed_size
  SizeOf-packed_size f p count =
      SizeOf-if _ _ _ _ (λ e. fixed_items f 4 count p (λ q. encoder_for-fixed32 f q e))
        λ _.
          SizeOf-if _ _ _ _ (λ e. fixed_items f 8 count p (λ q. encoder_for-fixed64 f q e))
            λ _.
              SizeOf-run
                (each_item env fuel submessage (encoder_for env fuel submessage f) f.data_size count
                  p)
                (Uniform-each_item _ f.data_size count p (Uniform-encoder_for f))

  -- On the sizing stream the items are counted, and on any other they are written.
  Uniform-items :
      (items : Cmd (OStream T) (Unit {0})) (size : ℕ) (bytes : List ℕ)
      → Emits items bytes
      → u64 size ≡ u64 (length bytes)
      → Uniform (λ s. if is_sizing s.sink then pb_write env.writer [] size s else items s)
  unfolding pb_write
  Uniform-items items size bytes e same = emits bytes record {
    counts = λ max_size w lt. ap (λ n. ok tt (counting max_size n none)) (omega arith);
    writes = e.writes;
    full = e.full;
  }

  Uniform-sized :
      (items : Cmd (OStream T) (Unit {0})) (o : Outcome (OStream T) ℕ)
      → SizeOf items o
      → Uniform (λ s. elim o [
        | ok size _ ↦
            (do
              pb_encode_varint env.writer size
              λ s'. if is_sizing s'.sink then pb_write env.writer [] size s' else items s')
              s
        | fail _ ↦ fail s
        | fault ↦ fault
        | stuck ↦ stuck
      ])
  Uniform-sized items (ok size _) (bytes, e, same) =
      Uniform-then (Uniform-pb_encode_varint env.writer size)
        (Uniform-items items size bytes e same)
  Uniform-sized items (fail _) g = stops (λ max_size w lt. tt)
  Uniform-sized items fault g = Uniform-fault
  Uniform-sized items stuck g = Uniform-stuck

  Uniform-encode_packed :
      (f : Field) (p count : ℕ) → Uniform (encode_packed env fuel submessage f p count)
  unfolding encode_packed
  Uniform-encode_packed f p count = Uniform-then (Uniform-pb_encode_tag env.writer _ f.tag) (
      Uniform-sized
        (each_item env fuel submessage (encoder_for env fuel submessage f) f.data_size count p)
        (packed_size env fuel submessage f p count) (SizeOf-packed_size f p count))

  Uniform-encode_item : (f : Field) (p : ℕ) → Uniform (encode_item env fuel submessage f p)
  unfolding encode_item
  Uniform-encode_item f p =
      Uniform-then (Uniform-pb_encode_tag_for_field env f) (Uniform-encoder_for f _)

  pub Uniform-encode_array :
      (f : Field) (p count : ℕ) → Uniform (encode_array env fuel submessage f p count)
  unfolding encode_array
  Uniform-encode_array f p count = Uniform-if _ Uniform-pure (
      Uniform-if _ (Uniform-error _) (
        Uniform-if _ (Uniform-encode_packed f p count) (
          Uniform-each_item (encode_item env fuel submessage f) f.data_size count p
            (Uniform-encode_item f))))
