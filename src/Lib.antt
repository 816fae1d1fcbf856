-- ===== src/Lib.antt =====
-- The library nson reads and writes JSON and property lists into a tree of values. The values
-- (src/nson.h, src/array.c, src/object.c, src/buf.c, src/scalar.c) are built by the parser
-- (src/json.c) with the readers of numbers, hexadecimal digits, UTF-8 and base64 of src/util.c,
-- printed by the writer, ordered by `nson_cmp` of src/nson.c, and mapped, also by several
-- threads, by src/map_reduce.c.
--
-- Value models src/nson.h: `Nson` is the tagged union with one constructor per type, and an array
-- or the entries of an object are a sequence without its memory. The memory behind an array is in
-- Array/Capacity. A `double` is a number that only the record `Double` of Util/Number gives a
-- meaning: its operations are parameters.
-- Buf models src/buf.c: a buffer is its reference count and its bytes, and a freed one is none.
-- Buf/Order compares `__nson_buf_cmp` with the lexicographic order, Buf/Count is about the
-- reference counts.
-- Util models src/util.c: Util/Decimal is `__nson_parse_dev`, Util/Hex `__nson_parse_hex`,
-- Util/Utf8 `__nson_to_utf8`, Util/Number `__nson_parse_number`. `int64_t` is an integer, with
-- the tests against INT64_MAX written out.
-- Base64 models the encoder and decoder of src/map_reduce.c and `__nson_parse_b64` of src/util.c
-- on bytes below 256; `char` is signed, so that the shifts of the encoder widen the sign, and
-- what is stored is taken modulo 256.
-- Cmp is `nson_cmp`, Scalar src/scalar.c, Array the operations of src/array.c and Object those of
-- src/object.c. Object/Lookup is `nson_obj_get` with `cmp_stable`; `qsort` and `bsearch` of the C
-- library are parameters, and a record has what the C standard says of them.
-- Ini models src/ini.c, on documents in which a NUL may stand anywhere.
-- Json models src/json.c: Json/Text the strings, Json/Parser `nson_parse_json`, Json/Writer
-- `nson_json_write` with `__nson_arr_serialize` and `__nson_obj_serialize`. One step of the
-- parser is one round of the loop, on a state of the remaining bytes, the index and the stack of
-- open arrays. Json/Typed follows from round to round what the stack may hold, as
-- Plist/Typed does for property lists.
-- Plist models src/plist.c: Plist/Text `skip_tag`, `measure_string_len` and `parse_string`,
-- Plist/Parser `nson_parse_plist`, Plist/Writer `plist_escape` and `nson_plist_write`. The static
-- variable `string_tag` goes in and comes out of the parser. A call has its own outcome where a
-- header is missing, which leaves the element as it was, and where `parse_string` runs out of its
-- text, which has no defined meaning. Plist/Tags and Plist/Rounds have the rounds of the loop on
-- written values.
-- MapReduce models `nson_map`, `nson_reduce` and `nson_filter` of src/map_reduce.c, Threads
-- `nson_map_thread`, `nson_map_thread_ext` and `map_thread_wrapper`: a step is one call of the
-- mapper or one critical section of one worker, and a state is reached by any interleaving of
-- them. The mutex itself is not modelled: a critical section is taken whole. Threads/Finish has
-- the runs that end, and Threads/Settings the choice of the settings.
--
-- The loops of the two parsers run on fuel, one round for each byte and one more. Other loops are
-- structural recursion on the bytes. Sizes are below 2^31, so that the `int` and `off_t` indices
-- do not overflow, thread ids fit a `short`, and memory allocation succeeds but in
-- Array/Capacity, where `reallocarray` is a parameter.
--
-- Memory models what owns what, with the functions of src/data.c, src/nson.c, src/pointer.c,
-- src/array.c and src/object.c that allocate, retain, release and move. An element in memory has
-- the addresses of its buffer, its reference or its block; the elements in a block stand beside
-- its address, as no two arrays share a block. The heap has a counter for each buffer and
-- reference, 1 for a block, and 0 for what is free; an access to what is free gives none, and so
-- does an assertion that fails. Addresses are numbered as they are allocated, and a block that
-- grows is moved to a new one. Memory/Resources has the heap, Memory.antt `nson_clean` and
-- `nson_clone`, Memory/Build the constructors and the changes of arrays and objects, Memory/View
-- the value that an element stands for, and Memory/Program the programs that make such calls one
-- after the other, with the values of their variables in Memory/Program/Abstract. Where a counter
-- would wrap, or a text would not fit into a buffer, a program makes no step.
-- Walk models src/stack.c on values, with fuel of two calls for each value.
-- Files models `nson_load` of src/data.c: what the system calls return is a parameter, and the
-- calls made are a list of events. Files/Loads is the call of it with the parsers of JSON and
-- property lists, on the bytes that the mapping holds. Array/Sort is `nson_arr_sort`, with
-- `qsort` as a parameter.
--
-- Not modelled: `nson_load_ini`, whose parser reads up to a NUL and not to the length of the
-- mapping, the streams that values are written to, the command line in bin, and the
-- benchmarks, fuzzers and tests, which only call the library.
pub mod Prelude
pub mod Value
pub mod Buf
pub mod Util
pub mod Base64
pub mod Array
pub mod Scalar
pub mod Cmp
pub mod Json
pub mod Ini
pub mod MapReduce
pub mod Memory
pub mod Plist
pub mod Object
pub mod Threads
pub mod Walk
pub mod Files
pub mod Tests
