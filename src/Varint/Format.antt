-- ===== src/Varint/Format.antt =====
-- The base-128 varint format in plain arithmetic, which the encoder and the decoder of
-- pb_encode.c and pb_decode.c are held against.
use yum_quest.Base.{
  ℕ, zero, suc, ◌+◌, ◌*◌, ◌/◌, ◌%◌, ◌^◌, ◌≤◌, ◌<◌, ◌≡◌, List, [], ◌∷◌, arith, ltb, if◌then◌else◌,
  length, All, ap, ◌∙◌, true, false,
}
use yum_quest.Base.Bits.{mask_7f, mask_80, bit_or_shifted}
use yum_quest.Varint.{has_more, add_group32, add_group64}
use native.Mathlib.Numerals.{towards_suc}
use native.Mathlib.Nat.{div-add-mod}

-- The groups of seven bits of `v`, lowest first, each but the last with the top bit set, for `v`
-- below 128 ^ (k + 1).
unfoldable pub groups : ℕ → ℕ → List ℕ
groups zero v = v ∷ []
groups (suc k) v =
    let rest = groups k (v / 128) in if ltb v 128 then v ∷ [] else (v % 128 + 128) ∷ rest

-- The canonical varint of a number below 2^64.
abbrev pub varint_bytes : ℕ → List ℕ
varint_bytes v = groups 9 v

pub length-groups : (k v : ℕ) → (1 ≤ length (groups k v)) × (length (groups k v) ≤ k + 1)
unfolding groups
length-groups zero v = omega arith
length-groups (suc k) v = ground (arith, length-groups k (v / 128))

pub groups-IsByte : (k v : ℕ) → v < 128 ^ suc k → All (λ b. b < 256) (groups k v)
unfolding groups
groups-IsByte zero v h = omega arith
groups-IsByte (suc k) v h = ground (arith, groups-IsByte k (v / 128) (omega arith))

pub has_more-true : (b : ℕ) → 128 ≤ b → b < 256 → has_more b ≡ true
has_more-true b h g = ground (arith, mask_80 b g)

pub has_more-false : (b : ℕ) → b < 128 → has_more b ≡ false
has_more-false b h = ground (arith, mask_80 b (omega arith))

-- The shifted group lands above the bits that are there, so `|` adds it.
pub add_group64_lem :
    (r b p : ℕ)
    → b < 256
    → r < 2 ^ p
    → b % 128 * 2 ^ p < 2 ^ 64
    → add_group64 r b p ≡ r + b % 128 * 2 ^ p
add_group64_lem r b p hb hr fits = ground (arith, mask_7f b hb, bit_or_shifted p r (b % 128) hr)

pub add_group32_lem :
    (r b p : ℕ)
    → b < 256
    → r < 2 ^ p
    → b % 128 * 2 ^ p < 2 ^ 32
    → add_group32 r b p ≡ r + b % 128 * 2 ^ p
add_group32_lem r b p hb hr fits = ground (arith, mask_7f b hb, bit_or_shifted p r (b % 128) hr)

pub pow_seven : (p : ℕ) → 2 ^ (p + 7) ≡ 128 * 2 ^ p
pow_seven p = simp towards_suc (omega arith)

-- The lowest group of `v` and the rest, both shifted by `p`.
pub split_group : (v p : ℕ) → v * 2 ^ p ≡ v % 128 * 2 ^ p + v / 128 * 2 ^ (p + 7)
split_group v p = omega (
  arith,
  ap (λ (t : ℕ). t * 2 ^ p) (div-add-mod v 128),
  ap (λ (t : ℕ). v / 128 * t) (pow_seven p),
)

-- A group of seven bits joins the bits below it.
pub group_bound : (r g p : ℕ) → r < 2 ^ p → g < 128 → r + g * 2 ^ p < 2 ^ (p + 7)
group_bound r g p hr hg = grind (arith, pow_seven p)

-- More groups allowed than needed change nothing.
groups-suc : (k v : ℕ) → v < 128 ^ suc k → groups (suc k) v ≡ groups k v
unfolding groups
groups-suc zero v h = ground arith
groups-suc (suc k) v h = ground (arith, groups-suc k (v / 128) (omega arith))

pub varint_bytes-u32 : (v : ℕ) → v < 2 ^ 32 → varint_bytes v ≡ groups 4 v
varint_bytes-u32 v h =
    groups-suc 8 v (omega arith)
    ∙ groups-suc 7 v (omega arith)
    ∙ groups-suc 6 v (omega arith)
    ∙ groups-suc 5 v (omega arith)
    ∙ groups-suc 4 v (omega arith)
