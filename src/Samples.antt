-- ===== src/Samples.antt =====
-- Streams, places and fields of YumQuest/Pods/nanopb that the tests use.
use yum_quest.Base.{false, none, [], ◌∷◌}
use yum_quest.Input.{Reader}
use yum_quest.Output.{Writer}
use yum_quest.Field.{Field}
use yum_quest.RoundTrip.{Place}

-- A callback that reads nothing, and one that takes nothing.
abbrev pub no_reader : Reader (Unit {0})
no_reader = λ u left count. record { done = false; bytes = []; state = u; bytes_left = left }

abbrev pub no_writer : Writer (Unit {0})
no_writer = λ t bytes. (false, t)

abbrev pub place : Place
place = record {
  out = 1 ∷ 2 ∷ [];
  room = 20;
  max_size = 30;
  written = 2;
  out_err = none;
  rest = 7 ∷ 8 ∷ [];
  left = 1;
  in_err = none;
}

-- A required string of 8 bytes.
abbrev pub name_field : Field
name_field = record {
  tag = 5;
  type = 0x06;
  data_offset = 0;
  size_offset = 0;
  data_size = 8;
  array_size = 0;
  ptr = 0;
}
