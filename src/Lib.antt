-- ===== src/Lib.antt =====
-- high-jump is a header-only C++ library: independent components under hj/, each a class or a set of
-- functions that a program includes. The modules here follow its folders, and a component's module
-- has the name of its header: Io/ChainBuffer.antt models hj/io/chain_buffer.hpp. In each of them the
-- file of that name holds the data and the operations, its children the proofs, and the child Tests
-- concrete runs. The operations keep the names of the source.
--
-- Algo/BloomFilter: hj/algo/bloom_filter.hpp. `DynamicBitset` is the words of 64 bits; `std::hash` and
--   the formulas with logarithms are parameters.
-- Algo/Crc: hj/algo/crc32.h and hj/algo/crc16.h (Crc32, Crc16), with the check sums computed bit by
--   bit (Serial, Xmodem) as the specification of the tables.
-- Algo/Skiplist: hj/algo/skiplist.hpp. A node is a number, `Skiplist` holds the links, spans and keys of
--   all of them, `Represents` says which sequence of nodes they stand for and `Holds` adds that it is
--   sorted. Walk and Level follow a search, Rank and Find the queries, InsertLevel to Refines `insert`,
--   and Delete `delete_node`. The random level and the order are parameters.
-- Algo/Uuid: hj/algo/uuid.hpp, the snowflake engine. The clock is a list of readings; `next_id` and
--   `wake_up` are the parts of a call before and after it sleeps without the lock. The
--   worker id is fixed while calls run.
-- Common: numbers, tests, lists, and the laws of bit operations.
-- Crypto/Base64: hj/crypto/base64.hpp, the checks of base64 text, whole and by chunks, and the
--   conversions around OpenSSL's, which is a parameter; `int_of` casts their lengths to `int`.
-- Db/ConnPool: hj/db/db_conn_pool.hpp. `Pool` is the shared state; `acquire`, `_release` and `close`
--   are cut where they give up the lock, `Phase` is where a call stands, and `System` is any number
--   of calls whose parts run in any order. What time, `_make` and `_check` do is an `Event`. The
--   notifications of the condition variable are left out, so waking up is not covered.
-- Encoding/Bytes: hj/encoding/bytes.hpp, with the number to the base 256 as its specification.
-- Encoding/Hex: hj/encoding/hex.hpp. Text and bytes are lists of numbers.
-- Encoding/Utf8: hj/encoding/utf8.hpp, the check of UTF-8 text, on as much fuel as bytes.
-- Io/ChainBuffer: hj/io/chain_buffer.hpp. `contents` is the queue of bytes that the chain stands for.
-- Io/DBuffer: hj/io/dbuffer.hpp, the calls of one thread, with the copy function as a parameter.
-- Sync/Counter: hj/sync/counter.hpp for unsigned types of at least 32 bits. `advance` is one access of a call to the atomic
--   value, and `threads_run` any number of calls whose accesses interleave in a given order.
--   Assignment, which writes the bounds without synchronisation, is not a call of a thread.
-- Sync/StripedMap: hj/sync/striped_map.hpp. `Call` is a call that changes the map; a plain function from
--   keys to values is its specification.
-- Util/StringUtil: hj/util/string_util.hpp, the functions on text that use no regular expression.
--
-- Machine words are natural numbers with their wrap-around written out. Loops recur on the list that
-- they walk, or on fuel: the length of the data in `append` and in the chunked checks, two rounds for
-- each block in `read`, 16 digits in the printing of 64 bits, the length of the list in a search of the skip list. A result `none` or `fault` stands for
-- fuel that ran out or for behaviour that C++ leaves undefined, and the theorems exclude it.
--
-- Not modelled: what only calls third-party code (OpenSSL, boost, zmq, spdlog, llama.cpp and others),
-- the hardware and operating system probes, and the components that PROJECT.json lists as such.
pub mod Algo
pub mod Common
pub mod Crypto
pub mod Db
pub mod Encoding
pub mod Io
pub mod Sync
pub mod Util
