-- ===== src/Decoder/Bounds.antt =====
-- What the field decoders of pb_decode.c for one value write to.
use yum_quest.Base.{
  ℕ, ◌+◌, ◌<◌, ◌≤◌, ◌≡◌, ◌≢◌, refl, ◌∙◌, Option, true, false, List, arith, ltb, ◌==◌, length,
  length-take-le,
}
use yum_quest.Command.{Outcome, ok, fail, fault, stuck}
use yum_quest.Pb.{
  ErrMsg, u32, integer_too_large, invalid_data_size, bytes_overflow, size_too_large,
  no_malloc_support, string_overflow, incorrect_fixed_length,
}
use yum_quest.Input.{IStream, Source, buffer, user, Reader, return_error, pb_read}
use yum_quest.Memory.{Mem, store}
use yum_quest.Memory.Laws.{inside, store-SameOutside}
use yum_quest.Field.{Field, ltype, ltype_submessage, ltype_fixed32, ltype_fixed64}
use yum_quest.Decoder.{Surroundings}
use yum_quest.Decoder.Fields.{Messages, decoder_for}
use yum_quest.Decoder.{Decoding, write}
use yum_quest.Decoder.Values.{
  store_signed, pb_dec_varint, pb_dec_uvarint, pb_dec_svarint, pb_dec_fixed32, pb_dec_fixed64,
  read_to, pb_dec_bytes, read_terminated, pb_dec_string, pb_dec_fixed_length_bytes,
}
use yum_quest.Decoder.Keeps.{
  Within, Keeps, Keeps-pure, Keeps-fault, Keeps-error, Keeps-if, Keeps-if_known, Keeps-on_stream,
  Keeps-bind, Keeps-bind_stream, Keeps-then, Keeps-store, Keeps-store_bytes, Keeps-clear,
}

-- The user's callback stores at most as many bytes as it is asked for.
pub record IsBounded {S : Type 0} (cb : Reader S) : Type 0 where
  pub at_most : (u : S) (left count : ℕ) → length (cb u left count).bytes ≤ count

-- The tests of pb_dec_bytes and pb_dec_string; the second one keeps `size + 1` from wrapping.
ltb_false→le : (a b : ℕ) → ltb a b ≡ false → b ≤ a
ltb_false→le a b h = ground arith

eq_of_== : (a b : ℕ) → (a == b) ≡ true → a ≡ b
eq_of_== a b h = ground arith

string_room :
    (size n : ℕ) → ltb (u32 (size + 1)) size ≡ false → ltb n (u32 (size + 1)) ≡ false → size < n
string_room size n no_wrap fits = ground arith

module _ {S : Type 0} (cb : Reader S) (bounded : IsBounded cb) where
  length-pb_read_at :
      (count : ℕ) (src : Source S) (left : ℕ) (err : Option ErrMsg) {bytes : List ℕ}
      {s' : IStream S}
      → pb_read cb count (record { source = src; bytes_left = left; errmsg = err }) ≡ ok bytes s'
      → length bytes ≤ count
  unfolding pb_read return_error
  length-pb_read_at count (buffer bs) left err e = ground (arith, length-take-le count bs)
  length-pb_read_at count (user u) left err e = ground (arith, bounded.at_most u left count)

  pub length-pb_read :
      (count : ℕ) (s : IStream S) (bytes : List ℕ) (s' : IStream S)
      → pb_read cb count s ≡ ok bytes s'
      → length bytes ≤ count
  length-pb_read count s bytes s' e = length-pb_read_at count s.source s.bytes_left s.errmsg e

  read_to-Keeps : (p n q size : ℕ) → p ≤ q → q + size ≤ p + n → Keeps p n (read_to cb q size)
  unfolding read_to
  read_to-Keeps p n q size lo hi =
      Keeps-bind_stream (λ bytes. length bytes ≤ size) (pb_read cb size) (length-pb_read size)
        (λ bytes h. Keeps-store_bytes q bytes lo (omega arith))

  store_signed-Keeps : (f : Field) (p v : ℕ) → Keeps p f.data_size (store_signed cb f p v)
  unfolding store_signed
  store_signed-Keeps f p v =
      Keeps-if _
        (Keeps-then (Keeps-store f.data_size p v (omega arith) (omega arith))
          (Keeps-if _ (Keeps-pure tt) (Keeps-error integer_too_large)))
        (Keeps-error invalid_data_size)

  pub pb_dec_varint-Keeps : (f : Field) (p : ℕ) → Keeps p f.data_size (pb_dec_varint cb f p)
  unfolding pb_dec_varint
  pb_dec_varint-Keeps f p = Keeps-bind (Keeps-on_stream _) (λ v. store_signed-Keeps f p _)

  pub pb_dec_uvarint-Keeps : (f : Field) (p : ℕ) → Keeps p f.data_size (pb_dec_uvarint cb f p)
  unfolding pb_dec_uvarint
  pb_dec_uvarint-Keeps f p = Keeps-bind (Keeps-on_stream _) (λ v.
      Keeps-if _
        (Keeps-then (Keeps-store f.data_size p v (omega arith) (omega arith))
          (Keeps-if _ (Keeps-pure tt) (Keeps-error integer_too_large)))
        (Keeps-error invalid_data_size))

  pub pb_dec_svarint-Keeps : (f : Field) (p : ℕ) → Keeps p f.data_size (pb_dec_svarint cb f p)
  unfolding pb_dec_svarint
  pb_dec_svarint-Keeps f p = Keeps-bind (Keeps-on_stream _) (λ v. store_signed-Keeps f p v)

  pub pb_dec_fixed32-Keeps :
      (f : Field) (p : ℕ) → f.data_size ≡ 4 → Keeps p f.data_size (pb_dec_fixed32 cb f p)
  unfolding pb_dec_fixed32
  pb_dec_fixed32-Keeps f p h =
      Keeps-bind (Keeps-on_stream _) (λ v. Keeps-store 4 p v (omega arith) (omega arith))

  pub pb_dec_fixed64-Keeps :
      (f : Field) (p : ℕ) → f.data_size ≡ 8 → Keeps p f.data_size (pb_dec_fixed64 cb f p)
  unfolding pb_dec_fixed64
  pb_dec_fixed64-Keeps f p h =
      Keeps-bind (Keeps-on_stream _) (λ v. Keeps-store 8 p v (omega arith) (omega arith))

  pub pb_dec_bytes-Keeps : (f : Field) (p : ℕ) → Keeps p f.data_size (pb_dec_bytes cb f p)
  unfolding pb_dec_bytes
  pb_dec_bytes-Keeps f p = Keeps-bind (Keeps-on_stream _) λ size.
      Keeps-if _ (Keeps-error bytes_overflow) (
        Keeps-if _ (Keeps-error size_too_large) (
          Keeps-if _ (Keeps-error no_malloc_support) (
            Keeps-if_known _ (λ _. Keeps-error bytes_overflow)
              (λ fits.
                let room : size + 4 ≤ f.data_size = ltb_false→le _ _ fits in
                Keeps-then (Keeps-store 4 p size (omega arith) (omega arith))
                  (read_to-Keeps p f.data_size (p + 4) size (omega arith) (omega arith))))))

  read_terminated-Keeps : (p n size : ℕ) → size < n → Keeps p n (read_terminated cb p size)
  unfolding read_terminated
  read_terminated-Keeps p n size h = record {
    at = λ mem d same.
        go mem (read_to cb p size d)
          ((read_to-Keeps p n p size (omega arith) (omega arith)).at mem d same);
  }
    where
      go :
          (mem : Mem) (o : Outcome (Decoding S) (Unit {0}))
          → Within p n mem o
          → Within p n mem (elim o [
            | ok _ d' ↦ write (store 1 (p + size) 0) d'
            | fail d' ↦ fail (record d' { mem = store 1 (p + size) 0 d'.mem })
            | fault ↦ fault
            | stuck ↦ stuck
          ])
      go mem (ok _ d') same =
          (Keeps-store 1 (p + size) 0 (omega arith) (omega arith)).at mem d' same
      go mem (fail d') same =
          λ a out. store-SameOutside (p + size) 1 0 d'.mem a (ground arith) ∙ same a out
      go mem fault same = tt
      go mem stuck same = tt

  pub pb_dec_string-Keeps : (f : Field) (p : ℕ) → Keeps p f.data_size (pb_dec_string cb f p)
  unfolding pb_dec_string
  pb_dec_string-Keeps f p = Keeps-bind (Keeps-on_stream _) λ size.
      Keeps-if_known _ (λ _. Keeps-error size_too_large)
        λ no_wrap. Keeps-if _ (Keeps-error no_malloc_support) (
          Keeps-if_known _ (λ _. Keeps-error string_overflow)
            λ fits.
              read_terminated-Keeps p f.data_size size (string_room size f.data_size no_wrap fits))

  pub pb_dec_fixed_length_bytes-Keeps :
      (f : Field) (p : ℕ) → Keeps p f.data_size (pb_dec_fixed_length_bytes cb f p)
  unfolding pb_dec_fixed_length_bytes
  pb_dec_fixed_length_bytes-Keeps f p = Keeps-bind (Keeps-on_stream _) λ size.
      Keeps-if _ (Keeps-error bytes_overflow) (
        Keeps-if _ Keeps-clear (
          Keeps-if _ (read_to-Keeps p f.data_size p f.data_size (omega arith) (omega arith))
            (Keeps-error incorrect_fixed_length)))

-- A descriptor of a field with a value of its own: no submessage, and a fixed-size type has its size.
pub record IsScalar (f : Field) : Type 0 where
  pub no_submessage : ltype f.type ≢ ltype_submessage
  pub four : ltype f.type ≡ ltype_fixed32 → f.data_size ≡ 4
  pub eight : ltype f.type ≡ ltype_fixed64 → f.data_size ≡ 8

module _ {S : Type 0} (env : Surroundings S) (messages : Messages S)
    (bounded : IsBounded env.reader) where
  -- Whatever the stream delivers and whatever the outcome, the decoder of such a field writes only
  -- to the `data_size` bytes at `p`: no input overflows a field.
  pub decoder_for-Keeps :
      (f : Field) (p : ℕ) → IsScalar f → Keeps p f.data_size (decoder_for env messages f p)
  unfolding decoder_for
  decoder_for-Keeps f p h = Keeps-if _ (pb_dec_varint-Keeps env.reader bounded f p) (
      Keeps-if _ (pb_dec_uvarint-Keeps env.reader bounded f p) (
        Keeps-if _ (pb_dec_svarint-Keeps env.reader bounded f p) (
          Keeps-if_known _
            (λ e. pb_dec_fixed32-Keeps env.reader bounded f p (h.four (eq_of_== _ _ e)))
            λ _.
              Keeps-if_known _
                (λ e. pb_dec_fixed64-Keeps env.reader bounded f p (h.eight (eq_of_== _ _ e)))
                λ _. Keeps-if _ (pb_dec_bytes-Keeps env.reader bounded f p) (
                  Keeps-if _ (pb_dec_string-Keeps env.reader bounded f p) (
                    Keeps-if_known _ (λ e. absurd (h.no_submessage (eq_of_== _ _ e)))
                      λ _.
                        Keeps-if _ (pb_dec_fixed_length_bytes-Keeps env.reader bounded f p)
                          Keeps-fault)))))

-- What a run leaves at address `a`, whether it answers `true` or `false`, is what `mem` has there.
abbrev pub Unchanged : {S A : Type 0} → ℕ → Mem → Outcome (Decoding S) A → Type 0
Unchanged a mem (ok _ d) = d.mem a ≡ mem a
Unchanged a mem (fail d) = d.mem a ≡ mem a
Unchanged a mem fault = Unit
Unchanged a mem stuck = Unit

Within-Unchanged :
    {S A : Type 0} (p n a : ℕ) (mem : Mem) (o : Outcome (Decoding S) A)
    → inside p n a ≡ false
    → Within p n mem o
    → Unchanged a mem o
Within-Unchanged p n a mem (ok _ d) out h = h a out
Within-Unchanged p n a mem (fail d) out h = h a out
Within-Unchanged p n a mem fault out h = tt
Within-Unchanged p n a mem stuck out h = tt

-- Whatever the stream delivers (a callback of the user stores at most as many bytes as it is asked
-- for) and whatever the answer, the decoder of a field with a value of its own, which PB_DECODERS
-- has for it, changes no byte of the memory outside the `data_size` bytes at `p`.
pub decoder_for-Unchanged :
    {S : Type 0} (env : Surroundings S) (messages : Messages S) (f : Field) (p a : ℕ)
    (d : Decoding S)
    → IsBounded env.reader
    → IsScalar f
    → inside p f.data_size a ≡ false
    → Unchanged a d.mem (decoder_for env messages f p d)
decoder_for-Unchanged env messages f p a d bounded h out =
    Within-Unchanged p f.data_size a d.mem (decoder_for env messages f p d) out
      ((decoder_for-Keeps env messages bounded f p h).at d.mem d (λ b _. refl))
