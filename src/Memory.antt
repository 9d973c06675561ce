-- ===== src/Memory.antt =====
-- The memory that message structs, descriptors' default values and the user's objects stand in: a
-- byte at each address, little-endian as on the targets of the application.
pub mod Laws
use yum_quest.Base.{
  ℕ, zero, suc, ◌+◌, ◌-◌, ◌*◌, ◌/◌, ◌%◌, ◌&&◌, List, [], ◌∷◌, ltb, leb, if◌then◌else◌, length,
  get_or,
}

abbrev pub Mem : Type 0
Mem = ℕ → ℕ

-- memcpy of a list of bytes to address `p`.
unfoldable pub store_bytes : ℕ → List ℕ → Mem → Mem
store_bytes p bs mem a = if leb p a && ltb a (p + length bs) then get_or bs (a - p) 0 else mem a

-- The `n` low bytes of a number, lowest first.
unfoldable pub le_bytes : ℕ → ℕ → List ℕ
le_bytes zero v = []
le_bytes (suc n) v = (v % 256) ∷ le_bytes n (v / 256)

-- *(uintN_t*)p = v
unfoldable pub store : ℕ → ℕ → ℕ → Mem → Mem
unfolding store_bytes le_bytes
store n p v mem = store_bytes p (le_bytes n v) mem

-- *(uintN_t*)p
unfoldable pub load : ℕ → ℕ → Mem → ℕ
load zero p mem = 0
load (suc n) p mem = mem p + 256 * load n (p + 1) mem

-- The `n` bytes from `p` on.
unfoldable pub load_bytes : ℕ → ℕ → Mem → List ℕ
load_bytes zero p mem = []
load_bytes (suc n) p mem = mem p ∷ load_bytes n (p + 1) mem

-- memset(p, 0, n)
unfoldable pub clear : ℕ → ℕ → Mem → Mem
clear p n mem a = if leb p a && ltb a (p + n) then 0 else mem a
