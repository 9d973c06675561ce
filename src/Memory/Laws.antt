-- ===== src/Memory/Laws.antt =====
-- What the accesses of Memory read and leave alone.
use yum_quest.Base.{
  ℕ, zero, suc, ◌+◌, ◌-◌, ◌/◌, ◌%◌, ◌^◌, ◌<◌, ◌≤◌, ◌≡◌, refl, ap, ◌∙◌, Bool, false, ◌&&◌, List,
  arith, ltb, leb, length, get_or,
}
use native.Mathlib.Nat.{pow-suc}
use yum_quest.Memory.{Mem, store_bytes, le_bytes, store, load, load_bytes, clear}

-- The address is one of the `n` from `p` on.
abbrev pub inside : ℕ → ℕ → ℕ → Bool
inside p n a = leb p a && ltb a (p + n)

-- Outside the `n` bytes from `p` on, the two memories are the same.
abbrev pub SameOutside : ℕ → ℕ → Mem → Mem → Type 0
SameOutside p n mem mem' = (a : ℕ) → inside p n a ≡ false → mem' a ≡ mem a

pub length-le_bytes : (n v : ℕ) → length (le_bytes n v) ≡ n
unfolding le_bytes
length-le_bytes zero v = refl
length-le_bytes (suc n) v = ap suc (length-le_bytes n (v / 256))

load_of_bytes :
    (n p v : ℕ) (mem : Mem)
    → v < 256 ^ n
    → ((i : ℕ) → i < n → mem (p + i) ≡ get_or (le_bytes n v) i 0)
    → load n p mem ≡ v
unfolding load le_bytes
load_of_bytes zero p v mem h same = omega arith
load_of_bytes (suc n) p v mem h same =
    omega (arith, here, load_of_bytes n (p + 1) (v / 256) mem small later)
  where
    here : mem p ≡ v % 256
    here = ap mem p_zero ∙ same 0 (omega arith)
      where
        p_zero : p ≡ p + 0
        p_zero = omega arith

    small : v / 256 < 256 ^ n
    small = omega (arith, pow-suc 256 n)

    later : (i : ℕ) → i < n → mem (p + 1 + i) ≡ get_or (le_bytes n (v / 256)) i 0
    later i lt = ap mem shift ∙ same (suc i) (omega arith)
      where
        shift : p + 1 + i ≡ p + suc i
        shift = omega arith

-- A number that fits `n` bytes is read back from where it was stored.
pub load-store : (n p v : ℕ) (mem : Mem) → v < 256 ^ n → load n p (store n p v mem) ≡ v
load-store n p v mem h = load_of_bytes n p v (store n p v mem) h stored
  where
    stored : (i : ℕ) → i < n → store n p v mem (p + i) ≡ get_or (le_bytes n v) i 0
    stored i lt =
        unfold store store_bytes in
        ground (arith, length-le_bytes n v, ap (λ k. get_or (le_bytes n v) k 0) back)
      where
        back : p + i - p ≡ i
        back = omega arith

pub store_bytes-SameOutside :
    (p n : ℕ) (bs : List ℕ) (mem : Mem) → length bs ≤ n → SameOutside p n mem (store_bytes p bs mem)
unfolding store_bytes
store_bytes-SameOutside p n bs mem h a out = ground arith

pub store-SameOutside : (p n v : ℕ) (mem : Mem) → SameOutside p n mem (store n p v mem)
unfolding store
store-SameOutside p n v mem =
    store_bytes-SameOutside p n (le_bytes n v) mem (omega (arith, length-le_bytes n v))

pub clear-SameOutside : (p n : ℕ) (mem : Mem) → SameOutside p n mem (clear p n mem)
unfolding clear
clear-SameOutside p n mem a out = ground arith

pub length-load_bytes : (n p : ℕ) (mem : Mem) → length (load_bytes n p mem) ≡ n
unfolding load_bytes
length-load_bytes zero p mem = refl
length-load_bytes (suc n) p mem = ap suc (length-load_bytes n (p + 1) mem)

-- A number depends on its bytes alone.
pub load-same :
    (n p : ℕ) (to to' : Mem)
    → ((i : ℕ) → i < n → to' (p + i) ≡ to (p + i))
    → load n p to' ≡ load n p to
unfolding load
load-same zero p to to' h = refl
load-same (suc n) p to to' h = omega (
  arith,
  first,
  load-same n (p + 1) to to'
      (λ i lt. let e : p + 1 + i ≡ p + suc i = omega arith in rw e (h (suc i) (omega arith))),
)
  where
    first : to' p ≡ to p
    first = let e : p + 0 ≡ p = omega arith in rw e at (h 0 (omega arith))
