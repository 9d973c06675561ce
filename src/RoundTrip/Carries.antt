-- ===== src/RoundTrip/Carries.antt =====
-- What it is that a decoder of pb_decode.c stores the value that an encoder of pb_encode.c writes,
-- whatever follows the bytes: they depend on nothing else, and have a bound.
use yum_quest.Base.{
  ℕ, ◌+◌, ◌-◌, ◌≤◌, ◌≡◌, sym, ap, ◌∙◌, Option, List, [], ◌++◌, arith, length, drop,
  drop-length-append, length-append,
}
use mathlib.Core.List.{append-nil, append_assoc}
use native.Mathlib.Nat.{add_assoc, add-zero, sub-zero}
use yum_quest.Command.{pure, ◌>>◌, Outcome, ok, fail, fault, stuck, Cmd}
use yum_quest.Pb.{ErrMsg}
use yum_quest.Input.Buffer.{reading}
use yum_quest.Output.{OStream, sizing, buffer, user, Sink, Writer, pb_write}
use yum_quest.Output.Buffer.{writing, pb_write-writing}
use yum_quest.RoundTrip.Numbers.{take_all}
use yum_quest.Memory.{Mem, load}
use yum_quest.Decoder.{Decoding}
use yum_quest.RoundTrip.{Place, HasRoom}
use yum_quest.RoundTrip.Fields.{Restores}

same_tail : (out bs cs : List ℕ) → out ++ bs ≡ out ++ cs → bs ≡ cs
same_tail out bs cs e =
    sym (drop-length-append out bs) ∙ ap (drop (length out)) e ∙ drop-length-append out cs

module _ {T : Type 0} where
  -- The stream at a place, before and after the bytes are written.
  abbrev pub before : Place → OStream T
  before p = writing p.out p.room p.max_size p.written p.out_err

  abbrev pub behind : Place → List ℕ → OStream T
  behind p bytes =
      writing (p.out ++ bytes) (p.room - length bytes) p.max_size (p.written + length bytes)
        p.out_err

  abbrev pub Writes : Cmd (OStream T) (Unit {0}) → Place → List ℕ → Type 0
  Writes enc p bytes = enc (before p) ≡ ok tt (behind p bytes)

  bytes_of : Sink T → List ℕ
  bytes_of sizing = []
  bytes_of (buffer out room) = out
  bytes_of (user t) = []

  array_of : Outcome (OStream T) (Unit {0}) → List ℕ
  unfolding bytes_of
  array_of (ok _ s) = bytes_of s.sink
  array_of (fail s) = []
  array_of fault = []
  array_of stuck = []

  -- A command writes one list of bytes.
  pub same_written :
      (enc : Cmd (OStream T) (Unit {0})) (p : Place) (bs cs : List ℕ)
      → Writes enc p bs
      → Writes enc p cs
      → bs ≡ cs
  unfolding array_of
  same_written enc p bs cs w w' = same_tail p.out bs cs (ap array_of (sym w ∙ w'))

-- The place with another rest behind the value.
abbrev pub with_rest : Place → List ℕ → ℕ → Option ErrMsg → Place
with_rest p rest left err = record p { rest = rest; left = left; in_err = err }

module _ {S T : Type 0} where
  -- The encoder writes at most `most` bytes, and on these the decoder stores the value in the `n`
  -- bytes at `dest`, whatever follows them and whatever the memory.
  abbrev pub Carries :
      Cmd (OStream T) (Unit {0})
      → Cmd (Decoding S) (Unit {0})
      → (most n dest v : ℕ) → Place
      → Type 0
  Carries enc dec most n dest v p =
      (bytes : List ℕ) × Writes enc p bytes
      × (length bytes ≤ most)
      × ((rest : List ℕ) (left : ℕ) (err : Option ErrMsg) (mem : Mem)
          → (mem' : Mem) × (dec
                (record { stream = reading (bytes ++ rest) (length bytes + left) err; mem = mem })
              ≡ ok tt (record { stream = reading rest left err; mem = mem' }))
            × (load n dest mem' ≡ v))

  pub Restores-Carries :
      (enc : Cmd (OStream T) (Unit {0})) (dec : Cmd (Decoding S) (Unit {0})) (most n dest v : ℕ)
      (p : Place) (bytes : List ℕ)
      → HasRoom p most
      → Writes enc p bytes
      → length bytes ≤ most
      → ((q : Place) (mem : Mem) → HasRoom q most → Restores enc dec n dest v q mem)
      → Carries enc dec most n dest v p
  Restores-Carries enc dec most n dest v p bytes fits w short restores = (bytes, w, short, read)
    where
      read :
          (rest : List ℕ) (left : ℕ) (err : Option ErrMsg) (mem : Mem)
          → (mem' : Mem) × (dec
                (record { stream = reading (bytes ++ rest) (length bytes + left) err; mem = mem })
              ≡ ok tt (record { stream = reading rest left err; mem = mem' }))
            × (load n dest mem' ≡ v)
      read rest left err mem =
          let room : HasRoom (with_rest p rest left err) most = record {
            in_array = fits.in_array;
            in_limit = fits.in_limit;
            size_t = fits.size_t;
          } in
          let (found, w', mem', r, l) = restores (with_rest p rest left err) mem room in
          (mem', rw (same_written enc p bytes found w w') r, l)

pub less_room : (p : Place) (m n : ℕ) → m ≤ n → HasRoom p n → HasRoom p m
less_room p m n le fits = omega (arith, fits.in_array, fits.in_limit, fits.size_t)

module _ {T : Type 0} (wr : Writer T) where
  -- One pb_write of some bytes.
  pub wrote :
      (enc : Cmd (OStream T) (Unit {0})) (p : Place) (bytes : List ℕ)
      → enc ≡ pb_write wr bytes (length bytes)
      → HasRoom p (length bytes)
      → Writes enc p bytes
  wrote enc p bytes e fits = rw e (
      pb_write-writing wr bytes (length bytes) p.out p.room p.max_size p.written p.out_err
        (omega arith) fits.in_array fits.in_limit fits.size_t
      ∙ ap
          (λ t. ok tt (
            writing (p.out ++ t) (p.room - length bytes) p.max_size (p.written + length bytes)
              p.out_err))
          (take_all bytes))

-- The place behind some bytes.
abbrev pub moved : Place → List ℕ → Place
moved p bytes = record p {
  out = p.out ++ bytes;
  room = p.room - length bytes;
  written = p.written + length bytes;
}

pub moved-HasRoom :
    (p : Place) (bytes : List ℕ) (m n : ℕ)
    → HasRoom p (m + n)
    → length bytes ≤ m
    → HasRoom (moved p bytes) n
moved-HasRoom p bytes m n fits short = omega (arith, fits.in_array, fits.in_limit, fits.size_t)

sub_twice : (n a b : ℕ) → n - a - b ≡ n - (a + b)
sub_twice n a b = omega arith

module _ {T : Type 0} where
  behind-behind :
      (p : Place) (bs cs : List ℕ) → behind {T = T} (moved p bs) cs ≡ behind p (bs ++ cs)
  behind-behind p bs cs =
      simp (append_assoc, length-append, sub_twice p.room (length bs) (length cs), add_assoc)

  -- Two commands, one after the other.
  pub Writes-then :
      (a b : Cmd (OStream T) (Unit {0})) (p : Place) (bs cs : List ℕ)
      → Writes a p bs
      → Writes b (moved p bs) cs
      → Writes (a >> b) p (bs ++ cs)
  Writes-then a b p bs cs w w' = rw w (w' ∙ ap (ok tt) (behind-behind p bs cs))

  pub Writes-nothing : (p : Place) → Writes {T = T} (pure tt) p []
  Writes-nothing p = simp (append-nil, sub-zero, add-zero)
