-- ===== src/Encoder/Uniform/Message.antt =====
-- pb_encode, pb_get_encoded_size and pb_encode_delimited of pb_encode.c on the sizing stream and on a
-- buffer.
use yum_quest.Base.{
  ℕ, zero, suc, ◌+◌, ◌-◌, ◌≤◌, ◌<◌, ◌^◌, ◌≡◌, ap, sym, ◌∙◌, ◌⊎◌, inl, inr, none, List, [], ◌++◌,
  length, take, take-length-append, arith, Bool-cases, true, false, ltb, ◌==◌,
}
use mathlib.Core.List.{append-nil}
use native.Mathlib.Decide.{dec_le}
use yum_quest.Command.{Outcome, ok, fail, fault, stuck, Cmd, ◌>>◌}
use yum_quest.Pb.{u64}
use yum_quest.Output.{OStream, pb_write, return_error, pb_ostream_sizing}
use yum_quest.Output.Buffer.{writing, counting}
use yum_quest.Encoding.{pb_encode_varint}
use yum_quest.Encoding.Varint.{pb_encode_varint-groups}
use yum_quest.Varint.Format.{varint_bytes}
use yum_quest.Field.{Field, pb_field_iter_begin}
use yum_quest.Encoder.{Surroundings}
use yum_quest.Encoder.Message.{
  write_submessage, encode_sized, pb_encode, pb_encode_submessage, pb_encode_delimited,
  pb_get_encoded_size, close_substream,
}
use yum_quest.Encoder.Uniform.{
  Stops, Emits, Uniform, emits, stops, Uniform-pure, Uniform-stuck, Uniform-if_at, Emits-then,
  Emits-pb_write, Emits-same, HasSpace, HasSpace-dec,
}
use yum_quest.Encoder.Uniform.Fields.{IsUniform, Uniform-encode_loop}

module _ {T : Type 0} (env : Surroundings T) where
  Emits-pb_encode_varint :
      (v : ℕ) → v < 2 ^ 64 → Emits (pb_encode_varint env.writer v) (varint_bytes v)
  Emits-pb_encode_varint v h = rw (pb_encode_varint-groups env.writer v h) (
      rw (take_all) at
        (Emits-pb_write env.writer (varint_bytes v) (length (varint_bytes v)) (omega arith)))
    where
      take_all : take (length (varint_bytes v)) (varint_bytes v) ≡ varint_bytes v
      take_all = rw (append-nil) at (take-length-append (varint_bytes v) [])

  Emits-write_submessage :
      (encode : Cmd (OStream T) (Unit {0})) (bytes : List ℕ)
      → Emits encode bytes
      → Emits (write_submessage env encode (u64 (length bytes))) bytes
  unfolding write_submessage close_substream pb_write return_error
  Emits-write_submessage encode bytes e = record {
    counts = λ max_size w lt. ap (λ n. ok tt (counting max_size n none)) (omega arith);
    writes = λ out room max_size w i j l. ground (
      arith,
      e.writes out room (length bytes) 0 i (omega arith) (omega arith),
      small max_size w j l,
    );
    full = λ out room max_size w i j l no_room. elim (dec_le (length bytes) room) [
      | yes fits ↦
          let over : ltb max_size (u64 (w + u64 (length bytes))) ≡ true =
            above max_size w room fits i
              (λ below. no_room (record { in_array = fits; in_limit = below })) in
          rw over tt
      | no large ↦ elim (Bool-cases (ltb max_size (u64 (w + u64 (length bytes))))) [
        | inl over ↦ rw over tt
        | inr below ↦ rw below (
            closed (u64 (length bytes)) (writing out room max_size w none)
              (encode (writing out room (u64 (length bytes)) 0 none))
              (e.full out room (u64 (length bytes)) 0 (omega arith) (omega arith) (omega arith)
                (λ space. large space.in_array)))
      ]
    ];
  }
    where
      small :
          (max_size w : ℕ)
          → w + length bytes ≤ max_size
          → max_size < 2 ^ 64
          → u64 (length bytes) ≡ length bytes
      small max_size w j l = omega arith

      above :
          (max_size w room : ℕ)
          → length bytes ≤ room
          → w + room < 2 ^ 64
          → ¬ (w + length bytes ≤ max_size)
          → ltb max_size (u64 (w + u64 (length bytes))) ≡ true
      above max_size w room fits i over = ground (arith, fits, i, over)

      closed :
          (size : ℕ) (s : OStream T) (o : Outcome (OStream T) (Unit {0}))
          → Stops o
          → Stops (elim o [
            | ok _ sub ↦ close_substream env size true sub s
            | fail sub ↦ close_substream env size false sub s
            | fault ↦ fault
            | stuck ↦ stuck
          ])
      closed size s (ok _ _) g = absurd g
      closed size s (fail sub) g = elim (Bool-cases (sub.bytes_written == size)) [
        | inl same ↦ rw same tt
        | inr other ↦ rw other tt
      ]
      closed size s fault g = tt
      closed size s stuck g = tt

  Emits-encode_sized :
      (encode : Cmd (OStream T) (Unit {0})) (bytes : List ℕ)
      → Emits encode bytes
      → Emits (encode_sized env encode) (varint_bytes (u64 (length bytes)) ++ bytes)
  unfolding encode_sized
  Emits-encode_sized encode bytes e =
      Emits-same (λ s. runs s)
        (Emits-then (Emits-pb_encode_varint (u64 (length bytes)) (omega arith))
          (Emits-write_submessage encode bytes e))
    where
      runs :
          (s : OStream T)
          → encode_sized env encode s
            ≡ (pb_encode_varint env.writer (u64 (length bytes))
                  >> write_submessage env encode (u64 (length bytes)))
                s
      runs s = ground (arith, e.counts 0 0 (omega arith))

  Uniform-encode_sized :
      (encode : Cmd (OStream T) (Unit {0})) → Uniform encode → Uniform (encode_sized env encode)
  unfolding encode_sized
  Uniform-encode_sized encode (emits bytes e) =
      emits (varint_bytes (u64 (length bytes)) ++ bytes) (Emits-encode_sized encode bytes e)
  Uniform-encode_sized encode (stops g) = stops λ max_size w lt.
      go (counting max_size w none) (encode pb_ostream_sizing) (g 0 0 (omega arith))
    where
      go :
          (s : OStream T) (o : Outcome (OStream T) (Unit {0}))
          → Stops o
          → Stops (elim o [
            | ok _ sub ↦
                (pb_encode_varint env.writer sub.bytes_written
                    >> write_submessage env encode sub.bytes_written)
                  s
            | fail sub ↦ fail (record s { errmsg = sub.errmsg })
            | fault ↦ fault
            | stuck ↦ stuck
          ])
      go s (ok _ _) g = absurd g
      go s (fail _) g = tt
      go s fault g = tt
      go s stuck g = tt

  pub Uniform-pb_encode :
      IsUniform env
      → (fuel : ℕ) (fields : List Field) (src : ℕ) → Uniform (pb_encode env fuel fields src)
  unfolding pb_encode
  Uniform-pb_encode h zero fields src = Uniform-stuck
  Uniform-pb_encode h (suc fuel) fields src =
      Uniform-if_at (pb_field_iter_begin fields src).1
        (Uniform-encode_loop env fuel _ h
          (λ fs p. Uniform-encode_sized (pb_encode env fuel fs p) (Uniform-pb_encode h fuel fs p))
          (length fields + 1) (pb_field_iter_begin fields src).0)
        Uniform-pure

-- The command succeeds exactly on the buffers with room for `bytes`, and then appends them.
abbrev pub Fills :
    {T : Type 0} → Cmd (OStream T) (Unit {0}) → List ℕ → List ℕ → (room max_size w : ℕ) → Type 0
Fills m bytes out room max_size w =
    (HasSpace (length bytes) room max_size w
      × (m (writing out room max_size w none)
          ≡ ok tt (writing (out ++ bytes) (room - length bytes) max_size (w + length bytes) none)))
    ⊎ ((¬ HasSpace (length bytes) room max_size w) × Stops (m (writing out room max_size w none)))

-- A stream over an array in memory.
pub record IsBuffer (room max_size w : ℕ) : Type 0 where
  pub in_memory : w + room < 2 ^ 64
  pub in_limit : w ≤ max_size
  pub size_t : max_size < 2 ^ 64

module _ {T : Type 0} where
  Emits-Fills :
      (m : Cmd (OStream T) (Unit {0})) (bytes out : List ℕ) (room max_size w : ℕ)
      → Emits m bytes
      → IsBuffer room max_size w
      → Fills m bytes out room max_size w
  Emits-Fills m bytes out room max_size w e h = elim (HasSpace-dec (length bytes) room max_size w) [
    | inl space ↦ inl (space, e.writes out room max_size w space.in_array space.in_limit h.size_t)
    | inr no_space ↦
        inr (no_space, e.full out room max_size w h.in_memory h.in_limit h.size_t no_space)
  ]

  -- What succeeded on a buffer had room there.
  succeeded :
      (m : Cmd (OStream T) (Unit {0})) (bytes out : List ℕ) (room max_size w : ℕ) (t : OStream T)
      → Emits m bytes
      → IsBuffer room max_size w
      → m (writing out room max_size w none) ≡ ok tt t
      → HasSpace (length bytes) room max_size w
        × (t ≡ writing (out ++ bytes) (room - length bytes) max_size (w + length bytes) none)
  succeeded m bytes out room max_size w t e h run =
      elim (Emits-Fills m bytes out room max_size w e h) [
        | inl (space, done) ↦ (space, state_of t _ (sym run ∙ done))
        | inr (no_space, stopped) ↦ absurd (rw run at stopped)
      ]
    where
      state_of :
          (a b : OStream T) → ◌≡◌ {A = Outcome (OStream T) (Unit {0})} (ok tt a) (ok tt b) → a ≡ b
      state_of a b e = ap (λ (o : Outcome (OStream T) (Unit {0})). elim o [ ok _ s ↦ s | _ ↦ a ]) e

  -- A run on the sizing stream that answered `n` was that of a command that emits so many bytes.
  emitted :
      (m : Cmd (OStream T) (Unit {0})) (n : ℕ) (s : OStream T)
      → Uniform m
      → elim (m pb_ostream_sizing) [
        | ok _ s ↦ ok s.bytes_written s
        | fail s ↦ fail s
        | fault ↦ fault
        | stuck ↦ stuck
      ]
        ≡ ok n s
      → (bytes : List ℕ) × Emits m bytes × (u64 (length bytes) ≡ n)
  emitted m n s (emits bytes d) e = (bytes, d, ground (arith, d.counts 0 0 (omega arith)))
  emitted m n s (stops g) e = absurd (go (m pb_ostream_sizing) (g 0 0 (omega arith)) e)
    where
      go :
          (o : Outcome (OStream T) (Unit {0}))
          → Stops o
          → elim o [
            | ok _ s ↦ ok s.bytes_written s
            | fail s ↦ fail s
            | fault ↦ fault
            | stuck ↦ stuck
          ]
            ≡ ok n s
          → ⊥
      go (ok _ _) g e = absurd g
      go (fail _) g e = ground arith
      go fault g e = ground arith
      go stuck g e = ground arith

  -- pb_get_encoded_size answers `n`, and pb_encode with the same arguments succeeds on some array in
  -- memory. Then `n` is the number of the bytes that it appends there; and on every array in memory it
  -- succeeds exactly if that has room for `n` bytes, below the limit of its stream too, and appends the
  -- same bytes. The user's callbacks do the same on the sizing stream and on a buffer with room, and do
  -- not succeed on one without.
  pub pb_encode-pb_get_encoded_size :
      (env : Surroundings T) (fuel : ℕ) (fields : List Field) (src n : ℕ) (s t : OStream T)
      (first out : List ℕ) (room max_size w room' max_size' w' : ℕ)
      → IsUniform env
      → pb_get_encoded_size env fuel fields src ≡ ok n s
      → pb_encode env fuel fields src (writing first room max_size w none) ≡ ok tt t
      → IsBuffer room max_size w
      → IsBuffer room' max_size' w'
      → (bytes : List ℕ) × (length bytes ≡ n)
        × (t ≡ writing (first ++ bytes) (room - n) max_size (w + n) none)
        × Fills (pb_encode env fuel fields src) bytes out room' max_size' w'
  unfolding pb_get_encoded_size
  pb_encode-pb_get_encoded_size env fuel fields src n s t first out room max_size w room' max_size'
        w' h sized run b b' =
      let (bytes, d, k) =
        emitted (pb_encode env fuel fields src) n s (Uniform-pb_encode env h fuel fields src)
          sized in
      let (space, same) =
        succeeded (pb_encode env fuel fields src) bytes first room max_size w t d b run in
      let e : length bytes ≡ n = omega (arith, k, space.in_array, b.in_memory) in
      (
        bytes,
        e,
        rw e at same,
        Emits-Fills (pb_encode env fuel fields src) bytes out room' max_size' w' d b',
      )

  -- On the same conditions pb_encode_delimited succeeds, on every array in memory, exactly if that has
  -- room for the varint of `n` and `n` bytes; it appends that varint and the bytes that pb_encode
  -- appended.
  pub pb_encode_delimited-pb_encode :
      (env : Surroundings T) (fuel : ℕ) (fields : List Field) (src n : ℕ) (s t : OStream T)
      (first out : List ℕ) (room max_size w room' max_size' w' : ℕ)
      → IsUniform env
      → pb_get_encoded_size env fuel fields src ≡ ok n s
      → pb_encode env fuel fields src (writing first room max_size w none) ≡ ok tt t
      → IsBuffer room max_size w
      → IsBuffer room' max_size' w'
      → (bytes : List ℕ) × (length bytes ≡ n)
        × (t ≡ writing (first ++ bytes) (room - n) max_size (w + n) none)
        × Fills
            (pb_encode_delimited env fuel fields src)
            (varint_bytes n ++ bytes)
            out
            room'
            max_size'
            w'
  unfolding pb_get_encoded_size pb_encode_delimited pb_encode_submessage
  pb_encode_delimited-pb_encode env fuel fields src n s t first out room max_size w room' max_size'
        w' h sized run b b' =
      let (bytes, d, k) =
        emitted (pb_encode env fuel fields src) n s (Uniform-pb_encode env h fuel fields src)
          sized in
      let (space, same) =
        succeeded (pb_encode env fuel fields src) bytes first room max_size w t d b run in
      let e : length bytes ≡ n = omega (arith, k, space.in_array, b.in_memory) in
      let prefixed : Emits (encode_sized env (pb_encode env fuel fields src))
          (varint_bytes n ++ bytes) =
        rw k at (Emits-encode_sized env (pb_encode env fuel fields src) bytes d) in
      (
        bytes,
        e,
        rw e at same,
        Emits-Fills (encode_sized env (pb_encode env fuel fields src)) (varint_bytes n ++ bytes) out
            room' max_size' w' prefixed b',
      )
