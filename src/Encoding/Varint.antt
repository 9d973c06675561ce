-- ===== src/Encoding/Varint.antt =====
-- pb_encode_varint of pb_encode.c beside the format of a varint.
use yum_quest.Base.{
  ℕ, zero, suc, ◌+◌, ◌/◌, ◌%◌, ◌^◌, ◌<◌, ◌≡◌, refl, some, List, [], ◌∷◌, arith, length, ltb,
  if◌then◌else◌, bit_and, bit_or, ap,
}
use native.Mathlib.Decide.{dec_lt}
use yum_quest.Base.Bits.{mask_127, set_80}
use yum_quest.Pb.{u8}
use yum_quest.Output.{Writer, pb_write}
use yum_quest.Encoding.{fill_groups, clear_last, pb_encode_varint}
use yum_quest.Varint.Format.{groups, varint_bytes}

-- What the loop leaves in the array: every group with its top bit set.
topped : ℕ → ℕ → List ℕ
topped zero v = (v + 128) ∷ []
topped (suc k) v =
    let rest = topped k (v / 128) in if ltb v 128 then (v + 128) ∷ [] else (v % 128 + 128) ∷ rest

top_group : (v : ℕ) → u8 (bit_or (bit_and v 0x7F) 0x80) ≡ v % 128 + 128
top_group v =
    omega (arith, set_80 (v % 128) (omega arith), ap (λ (t : ℕ). bit_or t 0x80) (mask_127 v))

fill_groups-zero : (room : ℕ) → fill_groups room 0 ≡ some []
unfolding fill_groups
fill_groups-zero zero = refl
fill_groups-zero (suc room) = ground (arith, fill_groups-zero room)

fill_groups-topped :
    (k room v : ℕ) → 0 < v → v < 128 ^ suc k → k < room → fill_groups room v ≡ some (topped k v)
unfolding fill_groups topped
fill_groups-topped k zero v hv h hr = absurd (omega arith)
fill_groups-topped zero (suc room) v hv h hr = ground (arith, top_group v, fill_groups-zero room)
fill_groups-topped (suc k) (suc room) v hv h hr = elim (dec_lt v 128) [
  | yes small ↦ ground (arith, top_group v, fill_groups-zero room)
  | no large ↦ ground (
    arith,
    top_group v,
    fill_groups-topped k room (v / 128) (omega arith) (omega arith) (omega arith),
  )
]

clear_last-cons : (b k v : ℕ) → clear_last (b ∷ topped k v) ≡ b ∷ clear_last (topped k v)
unfolding clear_last topped
clear_last-cons b zero v = refl
clear_last-cons b (suc k) v = ground arith

clear_last-topped : (k v : ℕ) → v < 128 ^ suc k → clear_last (topped k v) ≡ groups k v
unfolding topped groups
clear_last-topped zero v h = unfold clear_last in ground (arith, mask_127 (v + 128))
clear_last-topped (suc k) v h = elim (dec_lt v 128) [
  | yes small ↦ unfold clear_last in ground (arith, mask_127 (v + 128))
  | no large ↦
      ground (arith, clear_last-cons (v % 128 + 128) k (v / 128), clear_last-topped k (v / 128))
]

length-topped : (k v : ℕ) → length (topped k v) ≡ length (groups k v)
unfolding topped groups
length-topped zero v = refl
length-topped (suc k) v = ground (arith, length-topped k (v / 128))

module _ {T : Type 0} (cb : Writer T) where
  -- On any stream, pb_encode_varint is one pb_write of the canonical varint.
  pub pb_encode_varint-groups :
      (v : ℕ)
      → v < 2 ^ 64
      → pb_encode_varint cb v ≡ pb_write cb (varint_bytes v) (length (varint_bytes v))
  unfolding pb_encode_varint
  pb_encode_varint-groups v h = elim (dec_lt v 128) [
    | yes small ↦ unfold groups in ground arith
    | no large ↦ ground (
      arith,
      fill_groups-topped 9 10 v (omega arith) (omega arith) (omega arith),
      clear_last-topped 9 v (omega arith),
      length-topped 9 v,
    )
  ]
