-- ===== src/RoundTrip/Signed.antt =====
-- The signed integers of pb_encode.c and pb_decode.c together, on one descriptor.
use yum_quest.Base.{
  ℕ, ◌+◌, ◌*◌, ◌^◌, ◌<◌, ◌≡◌, refl, ap, ◌∙◌, true, [], ◌∷◌, ◌||◌, arith, ◌==◌, if◌then◌else◌,
}
use mathlib.Core.Path.{ap₂}
use native.Mathlib.Decide.{ℕ_discrete, dec_lt}
use yum_quest.Command.{ok}
use yum_quest.Input.{Reader}
use yum_quest.Input.Buffer.{reading}
use yum_quest.Memory.{Mem, load, store, le_bytes, store_bytes}
use yum_quest.Memory.Laws.{load-store}
use yum_quest.Field.{Field}
use yum_quest.Encoder
use yum_quest.Encoder.{int_size, pb_enc_varint, pb_enc_svarint}
use yum_quest.Decoder.{Decoding, on_stream, write}
use yum_quest.Decoder.Values.{sign_extend, store_signed, pb_dec_varint, pb_dec_svarint}
use yum_quest.RoundTrip.{Place, HasRoom}
use yum_quest.RoundTrip.Numbers.{varint_round_trip, svarint_round_trip}
use yum_quest.RoundTrip.Fields.{IsByteMemory, Restores, load-lt}

-- What a signed integer of `n` bytes with the pattern `v` is as an int64_t.
pub record Extends (n v sv : ℕ) : Type 0 where
  pub in_64 : sv < 2 ^ 64
  pub same_bytes : le_bytes n sv ≡ le_bytes n v
  pub in_32 : n < 8 → sign_extend 32 sv ≡ sv
  pub clamped : sign_extend (8 * n) sv ≡ sv

sign_extend-1 : (v : ℕ) → v < 2 ^ 8 → Extends 1 v (sign_extend 8 v)
sign_extend-1 v h = elim (dec_lt v (2 ^ 7)) [
  | yes pos ↦
      let same : sign_extend 8 v ≡ v = unfold sign_extend in ground arith in
      rw same (record {
        in_64 = omega arith;
        same_bytes = refl;
        in_32 = λ lt. unfold sign_extend in ground arith;
        clamped = same;
      })
  | no neg ↦
      let same : sign_extend 8 v ≡ v + 18446744073709551360 = unfold sign_extend in ground arith in
      rw same (record {
        in_64 = omega arith;
        same_bytes = unfold le_bytes in ap (λ x. x ∷ []) (omega arith);
        in_32 = λ lt. unfold sign_extend in ground arith;
        clamped = unfold sign_extend in ground arith;
      })
]

sign_extend-2 : (v : ℕ) → v < 2 ^ 16 → Extends 2 v (sign_extend 16 v)
sign_extend-2 v h = elim (dec_lt v (2 ^ 15)) [
  | yes pos ↦
      let same : sign_extend 16 v ≡ v = unfold sign_extend in ground arith in
      rw same (record {
        in_64 = omega arith;
        same_bytes = refl;
        in_32 = λ lt. unfold sign_extend in ground arith;
        clamped = same;
      })
  | no neg ↦
      let same : sign_extend 16 v ≡ v + 18446744073709486080 = unfold sign_extend in ground arith in
      rw same (record {
        in_64 = omega arith;
        same_bytes =
            unfold le_bytes in ap₂ (λ x xs. x ∷ xs) (omega arith) (ap (λ x. x ∷ []) (omega arith));
        in_32 = λ lt. unfold sign_extend in ground arith;
        clamped = unfold sign_extend in ground arith;
      })
]

sign_extend-4 : (v : ℕ) → v < 2 ^ 32 → Extends 4 v (sign_extend 32 v)
sign_extend-4 v h = elim (dec_lt v (2 ^ 31)) [
  | yes pos ↦
      let same : sign_extend 32 v ≡ v = unfold sign_extend in ground arith in
      rw same (record {
        in_64 = omega arith;
        same_bytes = refl;
        in_32 = λ lt. unfold sign_extend in ground arith;
        clamped = same;
      })
  | no neg ↦
      let same : sign_extend 32 v ≡ v + 18446744069414584320 = unfold sign_extend in ground arith in
      rw same (record {
        in_64 = omega arith;
        same_bytes =
            unfold le_bytes in
            ap₂ (λ x xs. x ∷ xs) (omega arith)
              (ap₂ (λ x xs. x ∷ xs) (omega arith)
                (ap₂ (λ x xs. x ∷ xs) (omega arith) (ap (λ x. x ∷ []) (omega arith))));
        in_32 = λ lt. unfold sign_extend in ground arith;
        clamped = unfold sign_extend in ground arith;
      })
]

sign_extend-8 : (v : ℕ) → v < 2 ^ 64 → Extends 8 v (sign_extend 64 v)
sign_extend-8 v h =
    let same : sign_extend 64 v ≡ v = unfold sign_extend in ground arith in
    rw same
      (record { in_64 = h; same_bytes = refl; in_32 = λ lt. absurd (omega arith); clamped = same })

pub sign_extend-Extends :
    (n v : ℕ) → int_size n ≡ true → v < 256 ^ n → Extends n v (sign_extend (8 * n) v)
sign_extend-Extends n v sized h = elim (ℕ_discrete n 1) [
  | yes e ↦ let h' : v < 256 ^ 1 = rw e at h in rw e (sign_extend-1 v h')
  | no one ↦ elim (ℕ_discrete n 2) [
    | yes e ↦ let h' : v < 256 ^ 2 = rw e at h in rw e (sign_extend-2 v h')
    | no two ↦ elim (ℕ_discrete n 4) [
      | yes e ↦ let h' : v < 256 ^ 4 = rw e at h in rw e (sign_extend-4 v h')
      | no four ↦ elim (ℕ_discrete n 8) [
        | yes e ↦ let h' : v < 256 ^ 8 = rw e at h in rw e (sign_extend-8 v h')
        | no eight ↦ absurd (ground arith)
      ]
    ]
  ]
]

-- The low bytes are read back.
load-store_extended :
    (n p v sv : ℕ) (mem : Mem)
    → v < 256 ^ n
    → le_bytes n sv ≡ le_bytes n v
    → load n p (store n p sv mem) ≡ v
unfolding store
load-store_extended n p v sv mem h same =
    ap (λ bs. load n p (store_bytes p bs mem)) same ∙ load-store n p v mem h

module _ {S T : Type 0} (rd : Reader S) (env : Encoder.Surroundings T) where
  store_signed-exact :
      (f : Field) (dest sv : ℕ) (d : Decoding S)
      → int_size f.data_size ≡ true
      → sign_extend (8 * f.data_size) sv ≡ sv
      → store_signed rd f dest sv d ≡ ok tt (record d { mem = store f.data_size dest sv d.mem })
  unfolding store_signed write
  store_signed-exact f dest sv d sized exact =
      let known : (f.data_size == 8 || f.data_size == 4 || f.data_size == 2 || f.data_size == 1)
          ≡ true =
        ground (arith, sized) in
      let same : (sign_extend (8 * f.data_size) sv == sv) ≡ true = ground (arith, exact) in
      rw (known, same) refl

  -- The memory holds bytes, the field has a size that the integer encoders know, and the place has
  -- room for ten bytes. What pb_enc_varint reads at `src`, pb_dec_varint stores at `dest`.
  pub varint_field_round_trip :
      (f : Field) (src dest : ℕ) (p : Place) (mem : Mem)
      → IsByteMemory env.mem
      → int_size f.data_size ≡ true
      → HasRoom p 10
      → Restores
          (pb_enc_varint env f src)
          (pb_dec_varint rd f dest)
          f.data_size
          dest
          (load f.data_size src env.mem)
          p
          mem
  unfolding pb_enc_varint pb_dec_varint on_stream
  varint_field_round_trip f src dest p mem bytes_in sized fits =
      let v = load f.data_size src env.mem in
      let lt : v < 256 ^ f.data_size = load-lt f.data_size src env.mem bytes_in in
      let sv = sign_extend (8 * f.data_size) v in
      let x = sign_extend-Extends f.data_size v sized lt in
      let (bytes, w, r) = varint_round_trip rd env.writer sv p x.in_64 fits in
      let taken : (if f.data_size == 8 then sv else sign_extend 32 sv) ≡ sv =
        elim (ℕ_discrete f.data_size 8) [
          | yes e ↦ ground (arith, e)
          | no ne ↦ ground (arith, x.in_32 (ground (arith, sized, ne)))
        ] in
      (
        bytes,
        rw sized w,
        store f.data_size dest sv mem,
        rw (r, taken)
            (store_signed-exact f dest sv
              (record { stream = reading p.rest p.left p.in_err; mem = mem }) sized x.clamped),
        load-store_extended f.data_size dest v sv mem lt x.same_bytes,
      )

  -- On the same conditions, what pb_enc_svarint reads at `src`, pb_dec_svarint stores at `dest`.
  pub svarint_field_round_trip :
      (f : Field) (src dest : ℕ) (p : Place) (mem : Mem)
      → IsByteMemory env.mem
      → int_size f.data_size ≡ true
      → HasRoom p 10
      → Restores
          (pb_enc_svarint env f src)
          (pb_dec_svarint rd f dest)
          f.data_size
          dest
          (load f.data_size src env.mem)
          p
          mem
  unfolding pb_enc_svarint pb_dec_svarint on_stream
  svarint_field_round_trip f src dest p mem bytes_in sized fits =
      let v = load f.data_size src env.mem in
      let lt : v < 256 ^ f.data_size = load-lt f.data_size src env.mem bytes_in in
      let sv = sign_extend (8 * f.data_size) v in
      let x = sign_extend-Extends f.data_size v sized lt in
      let (bytes, w, r) = svarint_round_trip rd env.writer sv p x.in_64 fits in
      (
        bytes,
        rw sized w,
        store f.data_size dest sv mem,
        rw r (
            store_signed-exact f dest sv
              (record { stream = reading p.rest p.left p.in_err; mem = mem }) sized x.clamped),
        load-store_extended f.data_size dest v sv mem lt x.same_bytes,
      )
