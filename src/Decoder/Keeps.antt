-- ===== src/Decoder/Keeps.antt =====
-- Commands of the decoder of pb_decode.c that write to one part of the memory only, and the rules
-- by which a command is seen to be one.
use yum_quest.Base.{
  ℕ, ◌+◌, ◌≤◌, ◌≡◌, refl, ◌∙◌, Bool, true, false, List, arith, if◌then◌else◌, length,
}
use yum_quest.Command.{Outcome, ok, fail, fault, stuck, Cmd, and_then, ◌>>=◌, ◌>>◌, pure}
use yum_quest.Pb.{ErrMsg}
use yum_quest.Input.{IStream}
use yum_quest.Memory.{Mem, store, store_bytes, clear}
use yum_quest.Memory.Laws.{
  SameOutside, store-SameOutside, store_bytes-SameOutside, clear-SameOutside,
}
use yum_quest.Decoder.{Decoding, on_stream, after, write, return_error as error}

-- What a run leaves in the memory, whether it answers `true` or `false`, differs from `mem` at most
-- in the `n` bytes from `p` on.
abbrev pub Within : {S A : Type 0} → ℕ → ℕ → Mem → Outcome (Decoding S) A → Type 0
Within p n mem (ok _ d) = SameOutside p n mem d.mem
Within p n mem (fail d) = SameOutside p n mem d.mem
Within p n mem fault = Unit
Within p n mem stuck = Unit

-- A command that, started on a memory that differs from `mem` inside the `n` bytes from `p` on at
-- most, leaves such a memory.
pub record Keeps {S A : Type 0} (p n : ℕ) (m : Cmd (Decoding S) A) : Type 0 where
  pub at : (mem : Mem) (d : Decoding S) → SameOutside p n mem d.mem → Within p n mem (m d)

module _ {S A : Type 0} {p n : ℕ} where
  pub Keeps-pure : (a : A) → Keeps {S = S} p n (pure a)
  Keeps-pure a = record { at = λ mem d same. same }

  pub Keeps-fault : Keeps {S = S} {A = A} p n (λ d. fault)
  Keeps-fault = record { at = λ mem d same. tt }

  pub Keeps-error : (msg : ErrMsg) → Keeps {S = S} {A = A} p n (error msg)
  unfolding error
  Keeps-error msg = record { at = λ mem d same. same }

  pub Keeps-if :
      (b : Bool) {m k : Cmd (Decoding S) A}
      → Keeps p n m
      → Keeps p n k
      → Keeps p n (if b then m else k)
  Keeps-if true h g = h
  Keeps-if false h g = g

  pub Keeps-if_known :
      (b : Bool) {m k : Cmd (Decoding S) A}
      → (b ≡ true → Keeps p n m)
      → (b ≡ false → Keeps p n k)
      → Keeps p n (if b then m else k)
  Keeps-if_known true h g = h refl
  Keeps-if_known false h g = g refl

  pub Keeps-on_stream : (m : Cmd (IStream S) A) → Keeps p n (on_stream m)
  unfolding on_stream
  Keeps-on_stream m = record { at = λ mem d same. go mem d (m d.stream) same }
    where
      go :
          (mem : Mem) (d : Decoding S) (o : Outcome (IStream S) A)
          → SameOutside p n mem d.mem
          → Within p n mem (after d.mem o)
      go mem d (ok a s) same = same
      go mem d (fail s) same = same
      go mem d fault same = tt
      go mem d stuck same = tt

  pub Keeps-bind :
      {B : Type 0} {m : Cmd (Decoding S) B} {k : B → Cmd (Decoding S) A}
      → Keeps p n m
      → ((b : B) → Keeps p n (k b))
      → Keeps p n (m >>= k)
  Keeps-bind {B} {m} {k} h g = record { at = λ mem d same. go mem (m d) (h.at mem d same) }
    where
      go :
          (mem : Mem) (o : Outcome (Decoding S) B)
          → Within p n mem o
          → Within p n mem (and_then o k)
      go mem (ok b d) same = (g b).at mem d same
      go mem (fail d) same = same
      go mem fault same = tt
      go mem stuck same = tt

  -- A stream command whose answers are all good.
  pub Keeps-bind_stream :
      {B : Type 0} (Good : B → Type 0) (m : Cmd (IStream S) B) {k : B → Cmd (Decoding S) A}
      → ((s : IStream S) (b : B) (s' : IStream S) → m s ≡ ok b s' → Good b)
      → ((b : B) → Good b → Keeps p n (k b))
      → Keeps p n (on_stream m >>= k)
  unfolding on_stream
  Keeps-bind_stream {B} Good m {k} h g = record {
    at = λ mem d same. go mem d (m d.stream) (h d.stream) same;
  }
    where
      go :
          (mem : Mem) (d : Decoding S) (o : Outcome (IStream S) B)
          → ((b : B) (s' : IStream S) → o ≡ ok b s' → Good b)
          → SameOutside p n mem d.mem
          → Within p n mem (and_then (after d.mem o) k)
      go mem d (ok b s) good same =
          (g b (good b s refl)).at mem (record { stream = s; mem = d.mem }) same
      go mem d (fail s) good same = same
      go mem d fault good same = tt
      go mem d stuck good same = tt

module _ {S : Type 0} {p n : ℕ} where
  pub Keeps-write :
      (f : Mem → Mem)
      → ((mem mem' : Mem) → SameOutside p n mem mem' → SameOutside p n mem (f mem'))
      → Keeps {S = S} p n (write f)
  unfolding write
  Keeps-write f h = record { at = λ mem d same. h mem d.mem same }

  pub Keeps-then :
      {A : Type 0} {m : Cmd (Decoding S) (Unit {0})} {k : Cmd (Decoding S) A}
      → Keeps p n m
      → Keeps p n k
      → Keeps p n (m >> k)
  Keeps-then h g = Keeps-bind h (λ _. g)

  -- Stores inside the part of the memory.
  pub Keeps-store :
      (size q v : ℕ) → p ≤ q → q + size ≤ p + n → Keeps {S = S} p n (write (store size q v))
  Keeps-store size q v lo hi =
      Keeps-write (store size q v)
        λ mem mem' same a out. store-SameOutside q size v mem' a (ground arith) ∙ same a out

  pub Keeps-store_bytes :
      (q : ℕ) (bs : List ℕ)
      → p ≤ q
      → q + length bs ≤ p + n
      → Keeps {S = S} p n (write (store_bytes q bs))
  Keeps-store_bytes q bs lo hi = Keeps-write (store_bytes q bs) λ mem mem' same a out.
      store_bytes-SameOutside q (length bs) bs mem' (omega arith) a (ground arith) ∙ same a out

  pub Keeps-clear : Keeps {S = S} p n (write (clear p n))
  Keeps-clear =
      Keeps-write (clear p n) λ mem mem' same a out. clear-SameOutside p n mem' a out ∙ same a out
