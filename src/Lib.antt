-- ===== src/Lib.antt =====
-- A model of ruby-pg, the Ruby interface to PostgreSQL: its C extension under ext/.
--
-- The extension turns Ruby values into the formats of PostgreSQL and back. Coders do this for one
-- value; composite coders (COPY rows, arrays, records) ask a type map for the coder of each column
-- and put the pieces together in a Ruby String that grows as they write.
--
-- Common holds what the modules share: bytes are natural numbers, a memory is a function from
-- addresses to bytes, and Outcome is what a call gives: a value, a Ruby exception, or a fault, which
-- is a store outside a buffer or a loop that has used up its fuel.
-- Buffer is the growing String of ext/pg.h and ext/pg.c. Every store is checked against the
-- capacity; how much Ruby allocates is a parameter.
-- Escape has the two escaping loops, forwards and right to left in place, of ext/pg_copy_coder.c
-- and ext/pg_record_coder.c.
-- Coder is the interface to the type maps: what the first and the second pass of a coder give, and
-- which coder a column gets, are parameters.
-- Nbo has the byte order macros of ext/pg_util.h.
-- Base64 is ext/pg_util.c. The encoder runs over one memory with offsets for its pointers, and an
-- int overflow of its size is a fault. The
-- decoder reads its input from a list, so decoding in place is not covered. Base64/Coders has the
-- coders of ext/pg_text_encoder.c and ext/pg_text_decoder.c that wrap another one in base64.
-- Copy is ext/pg_copy_coder.c: Copy/Text and Copy/Decode have the text format, Copy/Binary the binary
-- format. Pointers into a line are the bytes from there to its end.
-- Record is ext/pg_record_coder.c, the text format of composite types.
-- Quote is the quoting of elements in ext/pg_text_encoder.c (`quote_array_buffer`,
-- `quote_literal_buffer`, `quote_string`), and `rbpg_strncasecmp` of ext/pg_util.c.
-- Literal is the quoted literal encoder, and Array the array encoder of ext/pg_text_encoder.c.
-- Array/Decode is the array decoder of ext/pg_text_decoder.c with its shared word buffer.
-- Identifier is the quoting of identifiers in ext/pg_text_encoder.c and ext/pg_text_decoder.c.
-- Result is PG::Result of ext/pg_result.c: its life cycle and caches. A libpq result is seen through
-- the accessors of libpq (Libpq), and `nfields` is none where the source has -1. Result/Rows has
-- the methods that read cells; a type map is a function that casts a cell (Typecast).
-- Tuple is PG::Tuple of ext/pg_tuple.c: a row that is cast column by column when it is read. A call
-- gives what it did with the object as it leaves it, so what an exception leaves behind is kept.
-- A block changes a state of the rest of the world. Tuple/Access has the other methods. Stream is `pgresult_stream_any` of ext/pg_result.c, over the list of
-- the libpq results that are still to come.
-- TypeMap is PG::TypeMapByOid of ext/pg_type_map_by_oid.c, TypeMap/ByOid with its cache of 256
-- entries. TypeMap/Fit is its fit_to_result, and the result_value of ext/pg_type_map_by_column.c for
-- the type map that it builds. What a decoder function makes of a value, and what the default type
-- map does, are parameters.
-- Binary has the binary coders of booleans and integers of ext/pg_binary_encoder.c and
-- ext/pg_binary_decoder.c; a long has 64 bits. Number has the text coders of booleans and integers
-- of ext/pg_text_encoder.c and ext/pg_text_decoder.c; what Ruby's own conversion reads is a
-- parameter. Bytea is the hexadecimal encoder of ext/pg_text_encoder.c.
--
-- Loops that are not structural run on fuel: the scan of a COPY line takes the length of the line
-- and one round more, the base64 decoder the length of its input, the array and record decoders
-- one round more than that; each round consumes a byte. The digits of an integer take 20 rounds, since
-- a number of 64 bits is below 10^20, and their reversal 22, more than there are characters.
--
-- Not modelled: garbage collection, encodings of Strings, libpq, blocks that use the object that
-- yields to them, and so far the other text coders, the binary coders of times and arrays, the
-- other type maps and connections.
pub mod Common
pub mod Buffer
pub mod Escape
pub mod Coder
pub mod Nbo
pub mod Base64
pub mod Copy
pub mod Record
pub mod Identifier
pub mod Quote
pub mod Literal
pub mod Array
pub mod Result
pub mod Tuple
pub mod Stream
pub mod TypeMap
pub mod Binary
pub mod Number
pub mod Bytea
