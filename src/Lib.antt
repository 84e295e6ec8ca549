-- ===== src/Lib.antt =====
-- libubox, the utility library of OpenWrt: containers, data encodings and an event loop in C.
--
-- The parts modelled, and where:
-- - Base64 is base64.c: `b64_encode`, `b64_decode`. The target is the list of its bytes; a call gives
--   the returned int and the target as it leaves it, or none for a failed assertion or an access
--   outside the target. A text ends at its first NUL or at the end of its list.
-- - Avl is avl.c and avl.h: trees of nodes that are also threaded on a list in key order. The parent
--   pointers of a node are its `Way`, so a function that climbs recurs on the way; a node's address
--   is its `id`. Links are not written one by one: a rotation builds the new subtree.
-- - SafeList is safe_list.c: lists whose elements callbacks may delete while loops run over them, with
--   the element that each running loop visits next.
-- - RunQueue is runqueue.c on top of SafeList: one queue, its tasks in a table by address, its timers
--   as the wait last set. The callbacks of the user are a parameter that takes and gives the
--   queue. RunQueue/Calls has the calls of the interface, the expiry of a task's timer and that of the
--   queue's timer as an Event. The counter is an unbounded integer.
-- - Blob is blob.c and blob.h: an attribute is an offset in a list of bytes, and `blob_parse_untrusted`
--   fills a table of exactly `max` offsets; an access out of bounds is none. Blob/Build is the half that
--   builds attributes in a buffer, with the function that grows the buffer as an argument.
-- - Uloop is uloop.c: the timers, the processes that are waited for and the signal watchers, each a
--   list in order, and what the loop does with them. The clock, what `waitpid` reports, the bytes in
--   the signal pipe and `sigaction` are arguments; callbacks are functions on the state. Seconds and
--   milliseconds are unbounded integers.
-- - KvList is kvlist.c, and avl_strcmp of avl-cmp.c, on top of Avl: a tree of names and a table of the
--   values by address. `get_len` and `calloc_a` are arguments, the latter on the list's state.
-- - VList is vlist.c on top of Avl: the versions of the nodes are a table by address, the update
--   callback is an argument.
-- - Ustream is ustream.c: a direction of a stream is the buffers before `data_tail` and those from it
--   on, pointers into a buffer are offsets. Reader and Writer are the two sides; `malloc` and the
--   functions of the kind of stream and of its user are arguments, on the stream and a state of theirs.
--   Ustream/Descriptor is ustream-fd.c, with `read` and `write` of the kernel as arguments.
-- Prelude holds what they share: lists and integers over the native numbers, memory, bit tables.
--
-- Sizes are numbers with the wrap-around of size_t written where the code adds to them unchecked. The
-- `count` of a tree, the version of a VList, the counts and limits of a stream's buffers and the length
-- that kvlist_strlen gives, ints in the code, are unbounded numbers here.
-- The loops of Base64 and Avl are structural recursions. `safe_list_for_each` takes fuel, since a
-- callback may add elements, and so do the loops of the run queue, the loop over the
-- attributes of a buffer and those of the event loop; the theorems say how much is enough.
-- The loops of `ustream_read` and `ustream_write_buffered` have fuel for a byte a turn, those of
-- ustream-fd.c for the bytes and for the turns of the kernel.
--
-- Not modelled: the tasks that are processes,
-- blob_put_raw, avl_blobcmp, blobmsg, json_script, the event loop's descriptors, the polling and the
-- set-up of the event loop, md5, sockets and logging. The Lua binding, the shell helpers, the
-- examples and the tests are no part of the library's core.
pub mod Prelude
pub mod Base64
pub mod Avl
pub mod SafeList
pub mod RunQueue
pub mod Blob
pub mod Uloop
pub mod KvList
pub mod VList
pub mod Ustream
