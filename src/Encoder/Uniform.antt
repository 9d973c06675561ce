-- ===== src/Encoder/Uniform.antt =====
-- Commands of the encoder of pb_encode.c that do the same on the sizing stream and on a buffer, and
-- the rules by which a command is seen to be one.
pub mod Values
pub mod Arrays
pub mod Fields
pub mod Message
use yum_quest.Base.{
  ℕ, ◌+◌, ◌-◌, ◌≤◌, ◌<◌, ◌^◌, ◌≡◌, ap, ◌∙◌, Bool, true, false, none, List, [], ◌++◌, length, take,
  length-take, length-append, arith, if◌then◌else◌, ◌⊎◌, inl, inr, Bool-cases, ltb, leb,
}
use native.Mathlib.Decide.{dec_le}
use mathlib.Core.List.{append_assoc, append-nil}
use yum_quest.Command.{Outcome, ok, fail, fault, stuck, Cmd, and_then, ◌>>◌}
use yum_quest.Pb.{ErrMsg, u64}
use yum_quest.Output.{OStream, Writer, pb_write, call_sink, return_error}
use yum_quest.Output.Buffer.{writing, counting, pb_write-writing}

-- The run does not answer `true`.
abbrev pub Stops : {S A : Type 0} → Outcome S A → Type 0
Stops (ok _ _) = ⊥
Stops (fail _) = Unit
Stops fault = Unit
Stops stuck = Unit

-- A buffer has room for `n` bytes more, in its array and below its limit.
pub record HasSpace (n room max_size w : ℕ) : Type 0 where
  pub in_array : n ≤ room
  pub in_limit : w + n ≤ max_size

pub HasSpace-dec :
    (n room max_size w : ℕ) → HasSpace n room max_size w ⊎ (¬ HasSpace n room max_size w)
HasSpace-dec n room max_size w = elim (dec_le n room) [
  | yes i ↦ elim (dec_le (w + n) max_size) [
    | yes j ↦ inl (record { in_array = i; in_limit = j })
    | no j ↦ inr (λ h. j h.in_limit)
  ]
  | no i ↦ inr (λ h. i h.in_array)
]

pub Stops-then :
    {S A B : Type 0} (o : Outcome S A) (f : A → Cmd S B) → Stops o → Stops (and_then o f)
Stops-then (ok _ _) f h = absurd h
Stops-then (fail _) f h = tt
Stops-then fault f h = tt
Stops-then stuck f h = tt

module _ {T : Type 0} where
  -- The command writes `bytes`: the sizing stream counts them, a buffer with room for them has them
  -- appended, and on an array in memory that has no room for them the command does not succeed.
  pub record Emits (m : Cmd (OStream T) (Unit {0})) (bytes : List ℕ) : Type 0 where
    pub counts :
        (max_size w : ℕ)
        → w < 2 ^ 64
        → m (counting max_size w none) ≡ ok tt (counting max_size (u64 (w + length bytes)) none)
    pub writes :
        (out : List ℕ) (room max_size w : ℕ)
        → length bytes ≤ room
        → w + length bytes ≤ max_size
        → max_size < 2 ^ 64
        → m (writing out room max_size w none)
          ≡ ok tt (writing (out ++ bytes) (room - length bytes) max_size (w + length bytes) none)
    pub full :
        (out : List ℕ) (room max_size w : ℕ)
        → w + room < 2 ^ 64
        → w ≤ max_size
        → max_size < 2 ^ 64
        → ¬ HasSpace (length bytes) room max_size w
        → Stops (m (writing out room max_size w none))

  pub Emits-same :
      {m k : Cmd (OStream T) (Unit {0})} {bytes : List ℕ}
      → ((s : OStream T) → m s ≡ k s)
      → Emits k bytes
      → Emits m bytes
  Emits-same same e = record {
    counts = λ max_size w lt. same _ ∙ e.counts max_size w lt;
    writes = λ out room max_size w i j l. same _ ∙ e.writes out room max_size w i j l;
    full = λ out room max_size w i j l no_room.
        rw (same (writing out room max_size w none)) (e.full out room max_size w i j l no_room);
  }

  -- The command writes some bytes, or it does not succeed on the sizing stream.
  pub data Uniform (m : Cmd (OStream T) (Unit {0})) : Type 0 where
    emits : (bytes : List ℕ) → Emits m bytes → Uniform m
    stops : ((max_size w : ℕ) → w < 2 ^ 64 → Stops (m (counting max_size w none))) → Uniform m

  pub Emits-nil : Emits (λ s. ok tt s) []
  Emits-nil = record {
    counts = λ max_size w lt. ap (λ n. ok tt (counting max_size n none)) (omega arith);
    writes = λ out room max_size w i j l. ground (arith, append-nil out);
    full = λ out room max_size w i j l no_room.
        absurd (no_room (record { in_array = omega arith; in_limit = omega arith }));
  }

  pub Uniform-pure : Uniform (λ s. ok tt s)
  Uniform-pure = emits [] Emits-nil

  pub Uniform-error : (msg : ErrMsg) → Uniform (return_error msg)
  unfolding return_error
  Uniform-error msg = stops (λ m w lt. tt)

  pub Uniform-fault : Uniform (λ s. fault)
  Uniform-fault = stops (λ m w lt. tt)

  pub Uniform-stuck : Uniform (λ s. stuck)
  Uniform-stuck = stops (λ m w lt. tt)

  pub Uniform-if :
      (b : Bool) {m k : Cmd (OStream T) (Unit {0})}
      → Uniform m
      → Uniform k
      → Uniform (if b then m else k)
  Uniform-if true h g = h
  Uniform-if false h g = g

  -- The same for a test that stands behind the stream.
  pub Uniform-if_at :
      (b : Bool) {m k : Cmd (OStream T) (Unit {0})}
      → Uniform m
      → Uniform k
      → Uniform (λ s. if b then m s else k s)
  Uniform-if_at true h g = h
  Uniform-if_at false h g = g

  pub Emits-then :
      {m k : Cmd (OStream T) (Unit {0})} {bs cs : List ℕ}
      → Emits m bs
      → Emits k cs
      → Emits (m >> k) (bs ++ cs)
  Emits-then {m} {k} {bs} {cs} h g = record {
    counts = λ max_size w lt.
        rw (h.counts max_size w lt, g.counts max_size (u64 (w + length bs)) (omega arith))
          (ap (λ n. ok tt (counting max_size n none)) (omega (arith, length-append bs cs)));
    writes = λ out room max_size w i j l.
        rw
          (
            h.writes out room max_size w (omega (arith, length-append bs cs))
                (omega (arith, length-append bs cs)) l,
            g.writes (out ++ bs) (room - length bs) max_size (w + length bs)
                (omega (arith, length-append bs cs)) (omega (arith, length-append bs cs)) l,
          )
          (ground (arith, append_assoc out bs cs, length-append bs cs));
    full = λ out room max_size w i j l no_room. elim (HasSpace-dec (length bs) room max_size w) [
      | inl space ↦ rw (h.writes out room max_size w space.in_array space.in_limit l) (
          g.full (out ++ bs) (room - length bs) max_size (w + length bs)
            (omega (arith, space.in_array)) space.in_limit l
            (λ more. no_room (record {
              in_array = omega (arith, length-append bs cs, more.in_array, space.in_array);
              in_limit = omega (arith, length-append bs cs, more.in_limit);
            })))
      | inr no_space ↦
          Stops-then (m (writing out room max_size w none)) (λ _. k)
            (h.full out room max_size w i j l no_space)
    ];
  }

  pub Uniform-then : {m k : Cmd (OStream T) (Unit {0})} → Uniform m → Uniform k → Uniform (m >> k)
  Uniform-then (emits bs h) (emits cs g) = emits (bs ++ cs) (Emits-then h g)
  Uniform-then (emits bs h) (stops g) =
      stops λ max_size w lt.
        rw (h.counts max_size w lt) (g max_size (u64 (w + length bs)) (omega arith))
  Uniform-then {m} {k} (stops h) g =
      stops λ max_size w lt. Stops-then (m (counting max_size w none)) (λ _. k) (h max_size w lt)

  module _ (cb : Writer T) where
    refused :
        (bytes : List ℕ) (count : ℕ) (out : List ℕ) (room max_size w : ℕ)
        → w + room < 2 ^ 64
        → ¬ HasSpace count room max_size w
        → Stops (pb_write cb bytes count (writing out room max_size w none))
    unfolding pb_write call_sink return_error
    refused bytes count out room max_size w i no_space =
        elim (Bool-cases (ltb max_size (u64 (w + count)))) [
          | inl over ↦ rw over tt
          | inr below ↦ elim (Bool-cases (leb count room)) [
            | inl inside ↦ absurd (
                no_space (record {
                  in_array = ground (arith, inside);
                  in_limit = ground (arith, inside, below);
                }))
            | inr outside ↦ elim (Bool-cases (leb count (length bytes))) [
              | inl whole ↦ rw (below, whole, outside) tt
              | inr short ↦ rw (below, short) tt
            ]
          ]
        ]

    pub Emits-pb_write :
        (bytes : List ℕ) (count : ℕ)
        → count ≤ length bytes
        → Emits (pb_write cb bytes count) (take count bytes)
    Emits-pb_write bytes count h = record {
      counts = λ max_size w lt. unfold pb_write in ground (arith, length-take count bytes h);
      writes = λ out room max_size w i j l. rw (length-take count bytes h) (
          pb_write-writing cb bytes count out room max_size w none h
            (omega (arith, length-take count bytes h)) (omega (arith, length-take count bytes h))
            l);
      full = λ out room max_size w i j l no_room.
          refused bytes count out room max_size w i
            (λ space. no_room (rw (length-take count bytes h) space));
    }
