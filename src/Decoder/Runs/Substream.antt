-- ===== src/Decoder/Runs/Substream.antt =====
-- The substreams that pb_decode.c cuts for a length-prefixed value always stay inside the array, and the
-- stream behind them too.
use yum_quest.Base.{ℕ, ◌+◌, ◌≤◌, Bool, true, false, arith}
use yum_quest.Command.{Outcome, ok, fail, fault, stuck, Cmd, and_then, ◌>>=◌, ◌>>◌}
use yum_quest.Input.{IStream, Reader}
use yum_quest.Input.Runs.{Covers, Answers, SomeValue, Answers-weaken, Answers-bind}
use yum_quest.Input.Runs.Read.{Delivers, Reads}
use yum_quest.Memory.{Mem}
use yum_quest.Decoding.{pb_make_string_substream, pb_close_string_substream}
use yum_quest.Decoding.Runs.{
  AnswersSubstream, pb_make_string_substream-Answers, pb_close_string_substream-Answers,
}
use yum_quest.Decoder.{Decoding, after, on_stream, in_substream, answer}
use yum_quest.Decoder.Runs.{Decodes, DecodedFrom, Answers-after}

module _ {S : Type 0} (cb : Reader S) (delivers : Delivers cb) where
  pub pb_make_string_substream-Reads : Reads 1 SomeValue (pb_make_string_substream cb)
  pb_make_string_substream-Reads = record {
    at = λ c s cov.
        go c s (pb_make_string_substream cb s)
          (pb_make_string_substream-Answers cb delivers c s cov);
  }
    where
      go :
          (c : ℕ) (s : IStream S) (o : Outcome (IStream S) (IStream S))
          → AnswersSubstream c s.bytes_left o
          → Answers (λ (s : IStream S). s) c s.bytes_left 1 SomeValue o
      go c s (ok sub t) h = (h.1, h.2, tt)
      go c s (fail t) h = h
      go c s fault h = h
      go c s stuck h = h

  -- A body that answers on the substream, and what is done with the substream that it leaves.
  pub Decodes-substream :
      (body : IStream S → Cmd (Decoding S) (Unit {0}))
      (finish : Bool × IStream S → Cmd (Decoding S) (Unit {0}))
      → ((c : ℕ) (sub : IStream S) (mem : Mem)
          → Covers c sub
          → DecodedFrom c sub.bytes_left 0 (body sub (record { stream = sub; mem = mem })))
      → ((c : ℕ) (r : Bool × IStream S) (d : Decoding S)
          → Covers c d.stream
          → Covers (c + d.stream.bytes_left) r.1
          → DecodedFrom c d.stream.bytes_left 0 (finish r d))
      → Decodes 1 (
          on_stream (pb_make_string_substream cb)
          >>= (λ sub. in_substream sub (body sub) >>= finish))
  unfolding on_stream in_substream
  Decodes-substream body finish h g = record {
    at = λ c d cov.
        made c d.stream.bytes_left d.mem (pb_make_string_substream cb d.stream)
          (pb_make_string_substream-Answers cb delivers c d.stream cov);
  }
    where
      left_by :
          (c left : ℕ) (s : IStream S) (n : ℕ) (o : Outcome (Decoding S) (Unit {0}))
          → Covers c s
          → s.bytes_left + 1 ≤ left
          → DecodedFrom (c + s.bytes_left) n 0 o
          → DecodedFrom c left 1 (
              and_then
                (elim o [
                  | ok _ d' ↦ ok (true, d'.stream) (record { stream = s; mem = d'.mem })
                  | fail d' ↦ ok (false, d'.stream) (record { stream = s; mem = d'.mem })
                  | fault ↦ fault
                  | stuck ↦ stuck
                ])
                finish)
      left_by c left s n (ok _ d) cov less r =
          Answers-weaken (λ (d : Decoding S). d.stream) c s.bytes_left left 0 1
            (finish (true, d.stream) (record { stream = s; mem = d.mem })) (omega arith)
            (omega arith) (λ _ t. t)
            (g c (true, d.stream) (record { stream = s; mem = d.mem }) cov r.0)
      left_by c left s n (fail d) cov less r =
          Answers-weaken (λ (d : Decoding S). d.stream) c s.bytes_left left 0 1
            (finish (false, d.stream) (record { stream = s; mem = d.mem })) (omega arith)
            (omega arith) (λ _ t. t)
            (g c (false, d.stream) (record { stream = s; mem = d.mem }) cov r.0)
      left_by c left s n fault cov less r = r
      left_by c left s n stuck cov less r = r

      made :
          (c left : ℕ) (mem : Mem) (o : Outcome (IStream S) (IStream S))
          → AnswersSubstream c left o
          → DecodedFrom c left 1
              (and_then (after mem o) (λ sub. in_substream sub (body sub) >>= finish))
      made c left mem (ok sub s) r =
          left_by c left s sub.bytes_left (body sub (record { stream = sub; mem = mem })) r.1 r.2
            (h (c + s.bytes_left) sub mem r.0)
      made c left mem (fail s) r = r
      made c left mem fault r = r
      made c left mem stuck r = r

  -- pb_close_string_substream, and then a command that need not read.
  pub close-Decodes :
      (rest : Cmd (Decoding S) (Unit {0})) (c : ℕ) (sub : IStream S) (d : Decoding S)
      → Decodes 0 rest
      → Covers c d.stream
      → Covers (c + d.stream.bytes_left) sub
      → DecodedFrom c d.stream.bytes_left 0
          ((on_stream (pb_close_string_substream cb sub) >> rest) d)
  unfolding on_stream
  close-Decodes rest c sub d h cov behind =
      Answers-bind c d.stream.bytes_left 0 0 0
        (after d.mem (pb_close_string_substream cb sub d.stream)) (omega arith)
        (Answers-after SomeValue c d.stream.bytes_left 0 d.mem
          (pb_close_string_substream cb sub d.stream)
          (pb_close_string_substream-Answers cb delivers c sub d.stream cov behind))
        (λ _ _. h)

  pub answer-Decodes : (status : Bool) → Decodes {S = S} 0 (answer status)
  unfolding answer
  answer-Decodes true = record { at = λ c d cov. (cov, omega arith, tt) }
  answer-Decodes false = record { at = λ c d cov. (cov, omega arith) }
