-- ===== src/RoundTrip/Fields.antt =====
-- The field encoders of pb_encode.c and the field decoders of pb_decode.c together, on one descriptor.
use yum_quest.Base.{
  ℕ, zero, suc, ◌+◌, ◌-◌, ◌*◌, ◌%◌, ◌^◌, ◌<◌, ◌≡◌, refl, true, List, ◌++◌, arith, length,
}
use native.Mathlib.Nat.{pow-suc}
use native.Mathlib.Decide.{ℕ_discrete}
use yum_quest.Command.{ok, Cmd}
use yum_quest.Input.{Reader}
use yum_quest.Input.Buffer.{reading}
use yum_quest.Output.{OStream}
use yum_quest.Output.Buffer.{writing}
use yum_quest.Memory.{Mem, load, store}
use yum_quest.Memory.Laws.{load-store}
use yum_quest.Field.{Field}
use yum_quest.Encoder
use yum_quest.Encoder.{int_size, pb_enc_uvarint, pb_enc_fixed32, pb_enc_fixed64}
use yum_quest.Decoder.{Decoding, on_stream, write}
use yum_quest.Decoder.Values.{pb_dec_uvarint, pb_dec_fixed32, pb_dec_fixed64}
use yum_quest.RoundTrip.{Place, HasRoom}
use yum_quest.RoundTrip.Numbers.{varint_round_trip, fixed32_round_trip, fixed64_round_trip}

module _ {S T : Type 0} where
  -- The encoder succeeds and appends some bytes. On these bytes, whatever follows them, the decoder
  -- succeeds and stops where they end; the `n` bytes at `dest` then hold the value.
  abbrev pub Restores :
      Cmd (OStream T) (Unit {0})
      → Cmd (Decoding S) (Unit {0})
      → (n dest v : ℕ) → Place
      → Mem
      → Type 0
  Restores enc dec n dest v p mem =
      (bytes : List ℕ) × (enc (writing p.out p.room p.max_size p.written p.out_err)
        ≡ ok tt (
            writing (p.out ++ bytes) (p.room - length bytes) p.max_size (p.written + length bytes)
              p.out_err))
      × (mem' : Mem) × (dec (record {
        stream = reading (bytes ++ p.rest) (length bytes + p.left) p.in_err;
        mem = mem;
      })
          ≡ ok tt (record { stream = reading p.rest p.left p.in_err; mem = mem' }))
      × (load n dest mem' ≡ v)

-- Every address holds a byte.
abbrev pub IsByteMemory : Mem → Type 0
IsByteMemory mem = (a : ℕ) → mem a < 256

pub load-lt : (n p : ℕ) (mem : Mem) → IsByteMemory mem → load n p mem < 256 ^ n
unfolding load
load-lt zero p mem h = omega arith
load-lt (suc n) p mem h = omega (arith, h p, load-lt n (p + 1) mem h, pow-suc 256 n)

pub int_size-fits :
    (n v : ℕ) → int_size n ≡ true → v < 256 ^ n → (v < 2 ^ 64) × (v % 2 ^ (8 * n) ≡ v)
int_size-fits n v sized h = elim (ℕ_discrete n 1) [
  | yes e ↦ let h' : v < 256 ^ 1 = rw e at h in rw e (omega arith, omega arith)
  | no one ↦ elim (ℕ_discrete n 2) [
    | yes e ↦ let h' : v < 256 ^ 2 = rw e at h in rw e (omega arith, omega arith)
    | no two ↦ elim (ℕ_discrete n 4) [
      | yes e ↦ let h' : v < 256 ^ 4 = rw e at h in rw e (omega arith, omega arith)
      | no four ↦ elim (ℕ_discrete n 8) [
        | yes e ↦ let h' : v < 256 ^ 8 = rw e at h in rw e (omega arith, omega arith)
        | no eight ↦ absurd (ground arith)
      ]
    ]
  ]
]

module _ {S T : Type 0} (rd : Reader S) (env : Encoder.Surroundings T) where
  -- The memory holds bytes, the field has a size that the integer encoders know, and the place has
  -- room for ten bytes. What pb_enc_uvarint reads at `src`, pb_dec_uvarint stores at `dest`.
  pub uvarint_field_round_trip :
      (f : Field) (src dest : ℕ) (p : Place) (mem : Mem)
      → IsByteMemory env.mem
      → int_size f.data_size ≡ true
      → HasRoom p 10
      → Restores
          (pb_enc_uvarint env f src)
          (pb_dec_uvarint rd f dest)
          f.data_size
          dest
          (load f.data_size src env.mem)
          p
          mem
  unfolding pb_enc_uvarint pb_dec_uvarint on_stream write
  uvarint_field_round_trip f src dest p mem bytes_in sized fits =
      let v = load f.data_size src env.mem in
      let lt : v < 256 ^ f.data_size = load-lt f.data_size src env.mem bytes_in in
      let (below, exact) = int_size-fits f.data_size v sized lt in
      let (bytes, w, r) = varint_round_trip rd env.writer v p below fits in
      (
        bytes,
        ground (arith, w, sized),
        store f.data_size dest v mem,
        ground (arith, r, sized, exact),
        load-store f.data_size dest v mem lt,
      )

  -- The memory holds bytes, and the place has room for four bytes. What pb_enc_fixed32 reads at
  -- `src`, pb_dec_fixed32 stores at `dest`.
  pub fixed32_field_round_trip :
      (f : Field) (src dest : ℕ) (p : Place) (mem : Mem)
      → IsByteMemory env.mem
      → HasRoom p 4
      → Restores
          (pb_enc_fixed32 env f src)
          (pb_dec_fixed32 rd f dest)
          4
          dest
          (load 4 src env.mem)
          p
          mem
  unfolding pb_enc_fixed32 pb_dec_fixed32 on_stream write
  fixed32_field_round_trip f src dest p mem bytes_in fits =
      let v = load 4 src env.mem in
      let lt : v < 256 ^ 4 = load-lt 4 src env.mem bytes_in in
      let (bytes, w, r) = fixed32_round_trip rd env.writer v p lt fits in
      (bytes, w, store 4 dest v mem, rw r refl, load-store 4 dest v mem lt)

  -- The memory holds bytes, and the place has room for eight bytes. What pb_enc_fixed64 reads at
  -- `src`, pb_dec_fixed64 stores at `dest`.
  pub fixed64_field_round_trip :
      (f : Field) (src dest : ℕ) (p : Place) (mem : Mem)
      → IsByteMemory env.mem
      → HasRoom p 8
      → Restores
          (pb_enc_fixed64 env f src)
          (pb_dec_fixed64 rd f dest)
          8
          dest
          (load 8 src env.mem)
          p
          mem
  unfolding pb_enc_fixed64 pb_dec_fixed64 on_stream write
  fixed64_field_round_trip f src dest p mem bytes_in fits =
      let v = load 8 src env.mem in
      let lt : v < 256 ^ 8 = load-lt 8 src env.mem bytes_in in
      let (bytes, w, r) = fixed64_round_trip rd env.writer v p lt fits in
      (bytes, w, store 8 dest v mem, rw r refl, load-store 8 dest v mem lt)
