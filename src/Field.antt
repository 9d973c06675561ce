-- ===== src/Field.antt =====
-- Field descriptors of YumQuest/Pods/nanopb/pb.h (pb_field_t, the bits of pb_type_t), and the
-- field iterator of pb_common.c and pb_common.h.
pub mod Walk
pub mod Find
use yum_quest.Base.{
  ℕ, zero, suc, ◌+◌, ◌*◌, Bool, true, false, not, ◌&&◌, Option, none, some, List, bit_and, ◌==◌,
  if◌then◌else◌, length, get_or,
}
use yum_quest.Pb.{u64, pb_size_max}

-- pb_field_t. `size_offset` is signed in C; it is kept as its 64-bit two's complement pattern, which
-- pointer arithmetic adds modulo 2^64. `ptr` is an address, 0 for NULL.
pub record Field : Type 0 where
  pub tag : ℕ
  pub type : ℕ
  pub data_offset : ℕ
  pub size_offset : ℕ
  pub data_size : ℕ
  pub array_size : ℕ
  pub ptr : ℕ

-- PB_LAST_FIELD
abbrev pub pb_last_field : Field
pb_last_field = record {
  tag = 0;
  type = 0;
  data_offset = 0;
  size_offset = 0;
  data_size = 0;
  array_size = 0;
  ptr = 0;
}

-- PB_ATYPE, PB_HTYPE and PB_LTYPE, and their values.
abbrev pub atype : ℕ → ℕ
atype x = bit_and x 0xC0

abbrev pub htype : ℕ → ℕ
htype x = bit_and x 0x30

abbrev pub ltype : ℕ → ℕ
ltype x = bit_and x 0x0F

abbrev pub atype_static : ℕ
atype_static = 0x00

abbrev pub atype_callback : ℕ
atype_callback = 0x40

abbrev pub atype_pointer : ℕ
atype_pointer = 0x80

abbrev pub htype_required : ℕ
htype_required = 0x00

abbrev pub htype_optional : ℕ
htype_optional = 0x10

abbrev pub htype_repeated : ℕ
htype_repeated = 0x20

abbrev pub htype_oneof : ℕ
htype_oneof = 0x30

abbrev pub ltype_varint : ℕ
ltype_varint = 0x00

abbrev pub ltype_uvarint : ℕ
ltype_uvarint = 0x01

abbrev pub ltype_svarint : ℕ
ltype_svarint = 0x02

abbrev pub ltype_fixed32 : ℕ
ltype_fixed32 = 0x03

abbrev pub ltype_fixed64 : ℕ
ltype_fixed64 = 0x04

abbrev pub ltype_last_packable : ℕ
ltype_last_packable = 0x04

abbrev pub ltype_bytes : ℕ
ltype_bytes = 0x05

abbrev pub ltype_string : ℕ
ltype_string = 0x06

abbrev pub ltype_submessage : ℕ
ltype_submessage = 0x07

abbrev pub ltype_extension : ℕ
ltype_extension = 0x08

abbrev pub ltype_fixed_length_bytes : ℕ
ltype_fixed_length_bytes = 0x09

-- A constant array of descriptors is the list of its entries before PB_LAST_FIELD.
abbrev pub field_at : List Field → ℕ → Field
field_at fields i = get_or fields i pb_last_field

-- pb_field_iter_t. `start` is the array and `pos` the index of the entry that the C pointer is at.
pub record Iter : Type 0 where
  pub start : List Field
  pub pos : ℕ
  pub required_field_index : ℕ
  pub dest_struct : ℕ
  pub p_data : ℕ
  pub p_size : ℕ

-- *iter->pos
abbrev pub current : Iter → Field
current iter = field_at iter.start iter.pos

-- pb_field_iter_begin: the iterator, and whether the message type has a field.
unfoldable pub begin_iter : List Field → ℕ → Iter
begin_iter fields dest =
    let first = field_at fields 0 in
    let data_at = u64 (dest + first.data_offset) in
    record {
      start = fields;
      pos = 0;
      required_field_index = 0;
      dest_struct = dest;
      p_data = data_at;
      p_size = u64 (data_at + first.size_offset);
    }

unfoldable pub pb_field_iter_begin : List Field → ℕ → Iter × Bool
unfolding begin_iter
pb_field_iter_begin fields dest = (begin_iter fields dest, not ((field_at fields 0).tag == 0))

-- The bytes that a field takes in the message struct.
unfoldable pub struct_size : Field → ℕ
struct_size f =
    if atype f.type == atype_static && htype f.type == htype_repeated
    then f.data_size * f.array_size
    else if atype f.type == atype_pointer
    then 8
    else f.data_size

-- Whether two neighbouring entries are members of one union.
unfoldable pub same_union : Field → Field → Bool
same_union prev next =
    htype prev.type == htype_oneof
    && (htype next.type == htype_oneof && next.data_offset == pb_size_max)

-- The part of pb_field_iter_next that moves to the entry behind `prev`, lines 39 to 75.
unfoldable pub advance : Iter → Iter
unfolding struct_size same_union
advance iter =
    let prev = current iter in
    let next = field_at iter.start (iter.pos + 1) in
    let data_at = u64 (iter.p_data + struct_size prev + next.data_offset) in
    if same_union prev next then record iter { pos = iter.pos + 1 } else record iter {
      pos = iter.pos + 1;
      required_field_index =
          if htype prev.type == htype_required
          then iter.required_field_index + 1
          else iter.required_field_index;
      p_data = data_at;
      p_size = u64 (data_at + next.size_offset);
    }

unfoldable pub pb_field_iter_next : Iter → Iter × Bool
unfolding begin_iter advance
pb_field_iter_next iter =
    if (current iter).tag == 0
    then (iter, false)
    else if (field_at iter.start (iter.pos + 1)).tag == 0
    then (begin_iter iter.start iter.dest_struct, false)
    else (advance iter, true)

-- The entry that pb_field_iter_find looks for.
abbrev pub is_wanted : ℕ → Field → Bool
is_wanted tag f = f.tag == tag && not (ltype f.type == ltype_extension)

-- The do-while loop of pb_field_iter_find; `start` is the index at which it began. `none` means
-- that the rounds did not suffice.
unfoldable pub find_loop : ℕ → ℕ → ℕ → Iter → Option (Iter × Bool)
find_loop zero start tag iter = none
find_loop (suc fuel) start tag iter =
    let next = (pb_field_iter_next iter).0 in
    let more = find_loop fuel start tag next in
    if is_wanted tag (current iter)
    then some (iter, true)
    else if next.pos == start
    then some (next, false)
    else more

-- Each round moves to another entry, so a round for each entry and one more are enough.
unfoldable pub pb_field_iter_find : Iter → ℕ → Option (Iter × Bool)
unfolding find_loop
pb_field_iter_find iter tag = find_loop (length iter.start + 1) iter.pos tag iter
