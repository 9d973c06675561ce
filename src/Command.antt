-- ===== src/Command.antt =====
-- Stateful C functions that return `bool`: a command takes the state (a stream, or a stream and
-- the memory) and ends with `true` and a value, with `false`, with a fault, or out of fuel.

-- `ok` is `return true`, `fail` is `return false`; both keep the state that the caller then sees.
-- `fault` is undefined behaviour: an access outside an object. `stuck` means that a loop of the
-- model used up its fuel, which no run of the program does.
pub data Outcome (S A : Type 0) : Type 0 where
  ok : A → S → Outcome S A
  fail : S → Outcome S A
  fault : Outcome S A
  stuck : Outcome S A

abbrev pub Cmd : Type 0 → Type 0 → Type 0
Cmd S A = S → Outcome S A

abbrev pub pure : {S A : Type 0} → A → Cmd S A
pure a = λ s. ok a s

module _ {S A B : Type 0} where
  abbrev pub and_then : Outcome S A → (A → Cmd S B) → Outcome S B
  and_then (ok a s) k = k a s
  and_then (fail s) k = fail s
  and_then fault k = fault
  and_then stuck k = stuck

  infixl 5 ◌>>=◌ ◌>>◌
  abbrev pub ◌>>=◌ : Cmd S A → (A → Cmd S B) → Cmd S B
  m >>= k = λ s. and_then (m s) k

  abbrev pub ◌>>◌ : Cmd S A → Cmd S B → Cmd S B
  m >> k = λ s. and_then (m s) (λ _. k)
