-- ===== src/Lib.antt =====
-- A verification library for YumQuest: for the Protocol Buffers runtime that it is built with, nanopb,
-- which is the C code in YumQuest/Pods/nanopb (pb_decode.c, pb_encode.c, pb_common.c and their
-- headers), and for the state of the application's own views in YumQuest/YumQuest.
--
-- The parts and the files that model them:
--   * Pb: the wire types, error messages and integer sizes of pb.h. The build settings of the
--     application choose PB_FIELD_32BIT, so that pb_size_t is a uint32_t, and leave
--     PB_ENABLE_MALLOC out; the target has 64-bit pointers and little-endian memory.
--   * Command: a C function that returns bool is a command. It takes the state and ends with `ok`
--     (`return true`), `fail` (`return false`), `fault` (undefined behaviour) or `stuck` (the fuel
--     of a loop of the model is used up).
--   * Input: pb_istream_t with pb_read, pb_readbyte and buf_read of pb_decode.c. Output:
--     pb_ostream_t with pb_write and buf_write of pb_encode.c. The callbacks of the user are
--     parameters (Reader, Writer).
--   * Varint: pb_decode_varint32, pb_decode_varint, pb_skip_varint and pb_decode_svarint; its child
--     Format describes the wire format of a varint without the code. Encoding: the helpers of
--     pb_encode.c that write a number, a tag or a string. Decoding: the helpers of pb_decode.c that
--     read one, skip a field, or cut a substream. RoundTrip brings both sides together,
--     and RoundTrip/Flat whole messages of numbers.
--   * Field: pb_field_t and the iterator of pb_common.c (pb_field_iter_begin, pb_field_iter_next,
--     pb_field_iter_find). An array of descriptors is the list of its entries before PB_LAST_FIELD.
--   * Memory: the bytes of message structs, one for each address. The C pointers of an iterator or
--     a callback are addresses.
--   * Decoder: pb_decode.c from the value decoders (Values) by the defaults (Defaults) and the
--     dispatch on a field (Fields) to the message, its extensions and the check of the required
--     fields (Message, Required). Encoder: pb_encode.c in the same order (Encoder itself has the
--     value encoders).
--   * App: the application. Rating is View/RatingControl.swift; Menu is API Structs/Menu.swift,
--     CollapsibleTableCell/MenuTableSection.swift and View/MenuDetailsVC.swift; Details is
--     View/ItemDetailsVC.swift; Reviews is View/ReviewItemVC.swift; Venues is
--     View/NearbyLocationsVC.swift with API Structs/DetailFoodVenue.swift; Search is
--     Model/GetNearbyVenues.swift with the location updates and the selected row of
--     NearbyLocationsVC. Each has the variables of its view as a record and its actions as
--     functions; a trap of Swift is `none`. In Reviews each request to the database is a step, and
--     the calls on several devices take steps in the order of a schedule. In Search and in Menu/Cells,
--     which has the cells of MenuDetailsVC, a request and its answer are two events, and events come
--     in any order. App/Swift has optional chaining and array access.
--
-- The modules Field/Walk, Field/Find, Memory/Laws, Decoding/Tag, Decoder/Keeps, Decoder/Bounds,
-- Decoder/Required, Decoder/Runs (which stands on Input/Runs, Varint/Runs and Decoding/Runs),
-- Encoding/Varint, Encoder/Uniform, Encoder/Implicit, RoundTrip, and the children of the modules of
-- App hold the proofs; Decoder/Decodable says which message types Decoder/Runs is about. Base has
-- the lemmas on lists, bits and binary digits that they share. Samples has the streams and fields of
-- the modules named Tests.
--
-- The field level reaches the message level through a parameter (Messages in the decoder, a function
-- in the encoder), and what an address in a descriptor stands for is a record, Surroundings.
--
-- Fuel: a varint loop of the decoder has five or eleven rounds, after which its own test on
-- `bitpos` has ended it; the loops over descriptors have a round for each entry and one more; the
-- loops of a message, of a packed array and of pb_skip_varint have a round for each byte left and one
-- more, since every round reads a byte. The fuel that pb_decode and pb_encode take bounds how deep
-- messages nest and, with extensions and callbacks, how long a list of extensions is and how often a
-- callback is called. Decoder/Runs is about these rounds.
--
-- Not modelled: the parts under PB_ENABLE_MALLOC (allocate_field, pb_release), which the build
-- leaves out; the other pods; and of the application the login, the maps, images and drawing.
-- Of a request to Foursquare or to the database there is what its closure gets.
pub mod Base
pub mod Command
pub mod Pb
pub mod Input
pub mod Output
pub mod Varint
pub mod Encoding
pub mod Decoding
pub mod RoundTrip
pub mod Field
pub mod Memory
pub mod Decoder
pub mod Encoder
pub mod App
pub mod Samples
mod Tests
