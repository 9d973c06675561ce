-- ===== src/Input/Runs.antt =====
-- Runs of commands of pb_decode.c that cannot go wrong: what a stream has to have for that, and the
-- rules by which a command is seen to answer.
pub mod Read
use yum_quest.Base.{
  ℕ, suc, ◌+◌, ◌-◌, ◌≤◌, ◌<◌, ◌≡◌, refl, Bool, true, false, List, [], ◌∷◌, length, arith, All,
  if◌then◌else◌,
}
use yum_quest.Command.{Outcome, ok, fail, fault, stuck, Cmd, and_then, ◌>>=◌, ◌>>◌, pure}
use yum_quest.Pb.{ErrMsg}
use yum_quest.Input.{IStream, Source, buffer, user, return_error}

abbrev pub AreBytes : List ℕ → Type 0
AreBytes = All (λ b. b < 256)

-- An array of at least `n` bytes; what a callback of the user has to deliver is said of the callback.
abbrev pub Provides : {S : Type 0} → ℕ → Source S → Type 0
Provides n (buffer bs) = (n ≤ length bs) × AreBytes bs
Provides n (user u) = Unit

-- The array goes on for `c` bytes behind those that the stream has left.
abbrev pub Covers : {S : Type 0} → ℕ → IStream S → Type 0
Covers c s = Provides (s.bytes_left + c) s.source

module _ {S T : Type 0} (stream : T → IStream S) where
  -- An outcome on a state with a stream that had `left` bytes left: it is `true`, with a value that has
  -- the property `R` and `k` bytes read at least, or `false`. The array still goes on for `c` bytes.
  abbrev pub Answers : {A : Type 0} → ℕ → ℕ → ℕ → (A → Type 0) → Outcome T A → Type 0
  Answers c left k R (ok a t) = Covers c (stream t) × ((stream t).bytes_left + k ≤ left) × R a
  Answers c left k R (fail t) = Covers c (stream t) × ((stream t).bytes_left ≤ left)
  Answers c left k R fault = ⊥
  Answers c left k R stuck = ⊥

  pub Answers-weaken :
      {A : Type 0} {R Q : A → Type 0} (c left left' k k' : ℕ) (o : Outcome T A)
      → k' + left ≤ k + left'
      → left ≤ left'
      → ((a : A) → R a → Q a)
      → Answers c left k R o
      → Answers c left' k' Q o
  Answers-weaken c left left' k k' (ok a t) le more f h = (h.0, omega (arith, h.1), f a h.2)
  Answers-weaken c left left' k k' (fail t) le more f h = (h.0, omega (arith, h.1))
  Answers-weaken c left left' k k' fault le more f h = h
  Answers-weaken c left left' k k' stuck le more f h = h

  pub Answers-then :
      {A B : Type 0} {R : A → Type 0} (Q : B → Type 0) (f : A → Cmd T B) (c left k j i : ℕ)
      (o : Outcome T A)
      → i ≤ k + j
      → Answers c left k R o
      → ((a : A) (t : T)
          → Covers c (stream t)
          → (stream t).bytes_left + k ≤ left
          → R a
          → Answers c (stream t).bytes_left j Q (f a t))
      → Answers c left i Q (and_then o f)
  Answers-then Q f c left k j i (ok a t) le h g =
      Answers-weaken c (stream t).bytes_left left j i (f a t) (omega (arith, h.1))
        (omega (arith, h.1)) (λ b q. q) (g a t h.0 h.1 h.2)
  Answers-then Q f c left k j i (fail t) le h g = h
  Answers-then Q f c left k j i fault le h g = h
  Answers-then Q f c left k j i stuck le h g = h

  -- A command that answers on every state whose stream has an array as long as it says.
  pub record Runs {A : Type 0} (k : ℕ) (R : A → Type 0) (m : Cmd T A) : Type 0 where
    pub at : (c : ℕ) (t : T) → Covers c (stream t) → Answers c (stream t).bytes_left k R (m t)

-- Any value.
abbrev pub SomeValue : {A : Type 0} → A → Type 0
SomeValue a = Unit

module _ {S T : Type 0} {stream : T → IStream S} where
  pub Answers-bind :
      {A B : Type 0} {R : A → Type 0} {Q : B → Type 0} {f : A → Cmd T B} (c left k j i : ℕ)
      (o : Outcome T A)
      → i ≤ k + j
      → Answers stream c left k R o
      → ((a : A) → R a → Runs stream j Q (f a))
      → Answers stream c left i Q (and_then o f)
  Answers-bind {Q} {f} c left k j i o le h g =
      Answers-then stream Q f c left k j i o le h (λ a t cov less r. (g a r).at c t cov)

  pub Runs-weaken :
      {A : Type 0} {R Q : A → Type 0} {m : Cmd T A} (k k' : ℕ)
      → k' ≤ k
      → ((a : A) → R a → Q a)
      → Runs stream k R m
      → Runs stream k' Q m
  Runs-weaken {m} k k' le f h = record {
    at = λ c t cov.
        Answers-weaken stream c (stream t).bytes_left (stream t).bytes_left k k' (m t) (omega arith)
          (omega arith) f (h.at c t cov);
  }

  -- First a command that reads `k` bytes, then one that need not read any; and the other way round.
  pub Runs-bind :
      {A B : Type 0} {R : A → Type 0} {Q : B → Type 0} {m : Cmd T A} {f : A → Cmd T B} (k : ℕ)
      → Runs stream k R m
      → ((a : A) → R a → Runs stream 0 Q (f a))
      → Runs stream k Q (m >>= f)
  Runs-bind {m} k h g = record {
    at = λ c t cov. Answers-bind c (stream t).bytes_left k 0 k (m t) (omega arith) (h.at c t cov) g;
  }

  pub Runs-bind_last :
      {A B : Type 0} {R : A → Type 0} {Q : B → Type 0} {m : Cmd T A} {f : A → Cmd T B} (k : ℕ)
      → Runs stream 0 R m
      → ((a : A) → R a → Runs stream k Q (f a))
      → Runs stream k Q (m >>= f)
  Runs-bind_last {m} k h g = record {
    at = λ c t cov. Answers-bind c (stream t).bytes_left 0 k k (m t) (omega arith) (h.at c t cov) g;
  }

  pub Runs-pure : {A : Type 0} {R : A → Type 0} (a : A) → R a → Runs stream 0 R (pure a)
  Runs-pure a r = record { at = λ c t cov. (cov, omega arith, r) }

  pub Runs-if :
      {A : Type 0} {R : A → Type 0} {m f : Cmd T A} (k : ℕ) (b : Bool)
      → (b ≡ true → Runs stream k R m)
      → (b ≡ false → Runs stream k R f)
      → Runs stream k R (if b then m else f)
  Runs-if k true h g = h refl
  Runs-if k false h g = g refl

  pub Runs-either :
      {A : Type 0} {R : A → Type 0} {m f : Cmd T A} (k : ℕ) (b : Bool)
      → Runs stream k R m
      → Runs stream k R f
      → Runs stream k R (if b then m else f)
  Runs-either k true h g = h
  Runs-either k false h g = g

  -- The same where the branches are taken on the state.
  pub Runs-test :
      {A : Type 0} {R : A → Type 0} {m f : Cmd T A} (k : ℕ) (b : Bool)
      → (b ≡ true → Runs stream k R m)
      → (b ≡ false → Runs stream k R f)
      → Runs stream k R (λ t. if b then m t else f t)
  Runs-test k true h g = record { at = (h refl).at }
  Runs-test k false h g = record { at = (g refl).at }

  pub Runs-case :
      {A : Type 0} {R : A → Type 0} {m f : Cmd T A} (k : ℕ) (b : T → Bool)
      → Runs stream k R m
      → Runs stream k R f
      → Runs stream k R (λ t. if b t then m t else f t)
  Runs-case {R} {m} {f} k b h g = record { at = λ c t cov. go c t (b t) cov }
    where
      go :
          (c : ℕ) (t : T) (x : Bool)
          → Covers c (stream t)
          → Answers stream c (stream t).bytes_left k R (if x then m t else f t)
      go c t true cov = h.at c t cov
      go c t false cov = g.at c t cov

  -- A command that answers `false` and leaves the position of the stream alone reads as many bytes as
  -- one likes.
  pub Runs-fail :
      {A : Type 0} {R : A → Type 0} {m : Cmd T A} (k : ℕ)
      → ((t : T)
          → (u : T) × (m t ≡ fail u)
            × ((stream u).source ≡ (stream t).source)
            × ((stream u).bytes_left ≡ (stream t).bytes_left))
      → Runs stream k R m
  Runs-fail k h = record {
    at = λ c t cov. let (u, e, same, left) = h t in rw e (rw (same, left) cov, omega (arith, left));
  }
