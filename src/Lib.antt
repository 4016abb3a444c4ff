-- ===== src/Lib.antt =====
-- libBGPStream (CAIDA/bgpstream): a library that finds the BGP dump files of many collectors, opens
-- them together and delivers their entries as one stream of records, filtered and ordered by time,
-- with utilities on addresses and prefixes that its clients use.
--
-- The parts, and how they interact. A data source pushes inputs (one for each dump file) on the input
-- queue. When no reader is left, the stream takes a batch of inputs whose intervals of time overlap
-- from that queue and hands it to the reader manager, which opens a reader for each, reads its first
-- entry, and keeps the readers in a queue ordered by the time of that entry. Each request for a record
-- exports the entry of the first reader, lets this reader read on, and moves it to its new place. The
-- filter manager holds what the readers let pass; the filter parser fills it from a text.
--
-- The files, and the code that each models:
--   Base              Boolean tests, list functions, counting of numbers and masks of bits; no code
--   Addr              lib/utils/bgpstream_utils_addr.h and bgpstream_utils_pfx.h: the types
--   IpCounter         lib/utils/bgpstream_utils_ip_counter.c: the lists of disjoint intervals.
--                     Covers, Counting, Prefixes, Distinct, Six and Whole hold the proofs about
--                     insertion, the two counts, one prefix, many prefixes, the 128-bit lists and
--                     the whole address space
--   Filter            lib/bgpstream_filter.{h,c}: the time intervals, the RIB period, validate
--   FilterParser      lib/bgpstream_filter_parser.{h,c}: parse_filter_string and its state machine.
--                     Words is about strtok_r, Language, Clauses and RoundTrip are about the
--                     language, Quoted about quotes
--   Input             lib/bgpstream_input.{h,c}: push_sorted_input (its scan in Queue, the whole in
--                     Push), get_queue_to_process (Batch), and its calls in a row (Drain)
--   Reader            lib/bgpstream_reader.{h,c}: one reader (thread_producer, read_new_data).
--                     Opening is about the tries to open a dump
--   ReaderMgr         lib/bgpstream_reader.{h,c}: the manager (sorted_insert, mgr_add, export_record,
--                     get_next_record). Order, Consistent, Stream, Complete, Delivery, Fill and
--                     RibPeriod hold the proofs about the queue, its status, the order of the stream,
--                     what it delivers, and the RIBs that the period lets pass
--   DataSource        lib/bgpstream_datasource.c: the update of the input queue, with its waits in
--                     live mode. Updates and Blocking hold the proofs about one update
--   Stream            lib/bgpstream.c: the status and the calls that it admits (start, stop, the time
--                     filters, live mode); Status holds the proofs over sequences of calls. Next is
--                     get_next_record, which fills both queues, and Total that it returns
--   Patricia          lib/utils/bgpstream_utils_patricia.c: the tree of prefixes. The nodes, insert and
--                     search_exact are in Patricia itself, remove in Removal, the result sets, the
--                     specifics, a node's overlap and the subnets in Results, the tree of both versions,
--                     its overlap, merge and walk in Tree. Bits, Valid, Path and Entries are about addresses, the
--                     well-formed trees, the way to a node and the prefixes of a tree; Search,
--                     Descend, Climb, Below, Undo, Place and Insert about search and insert; Locate,
--                     Remove, RemoveNode and RoundTrip about remove; Covers, Specifics, Minimum,
--                     Looks, Overlap, Undone and OverlapInfo about the questions; Whole and Merge about the set of prefixes
--   Community         lib/utils/bgpstream_utils_community.c: the sets of communities. Hash is about the
--                     bits of their hash, Match about set_match and set_equal, Insert about insert.
--                     Parse is bgpstream_str2community and Print prints a community and a set; Printed
--                     and SetPrinted hold the proofs about the texts
--   Base.CString      atoi, strtoul and strchr as the code uses them, on lists of bytes
--   Addr.Parse        lib/utils/bgpstream_utils_addr.c, bgpstream_utils_pfx.c: str2addr, addr_mask, str2pfx
--   AsPath            lib/utils/bgpstream_utils_as_path.c: AS paths as arrays of bytes, their copy and
--                     the loop over their segments. Populate reads a path from a BGP message, Print
--                     prints it, Store is lib/utils/bgpstream_utils_as_path_store.c. Memory and Segments
--                     say what the bytes stand for; Message, Adds, Parts, Turns and Populated hold the
--                     proofs about populate, Walked about the loop over the segments; Digits, Appends,
--                     SegPrinted and Printed about the text; Shallow, Restored, Finding and Stored about
--                     the store
--   Elem              lib/bgpstream_record.c: the prefix filters of an element. Allowed, Listed,
--                     Matching and Matched hold the proofs about the tree, the result sets and the
--                     match. Filters is bgpstream_elem_check_filters, Adding bgpstream_filter_mgr_filter_add of
--                     lib/bgpstream_filter.c; Calls says what calls of the latter ask for, Masks,
--                     Effects, Steps, Expressions and Accepted hold the proofs about both together
-- The Examples files run the definitions on small inputs.
--
-- How state and operations correspond. A struct is a record, an enum a data type, a linked list
-- with its head and tail pointers a list, and an operation on a struct is a function from the old
-- record to the new one and the result. A hash map from names is a function. Texts are native
-- strings, compared as strcmp does. Numbers are natural numbers; where the C arithmetic wraps, `% 2
-- ^ 32` or `% 2 ^ 64` is written out, and the ends of an input's interval are ints of 32 bits that
-- wrap. An Option result is the failure of malloc in IpCounter (the argument `alloc`), and a null
-- pointer in Input and ReaderMgr. Addresses are in host byte order. The bytes of an AS path and of
-- a message are a function from offsets, a pointer into them is an offset, and a number of 32 bits
-- has its low byte first. The texts of AS paths, prefixes and communities are lists of bytes. A
-- pointer to a node of a tree is the node with the frames of its ancestors, and a function that
-- changes the tree returns the changed one. Debug output, logging and the release of memory are
-- left out.
--
-- Loops follow the list that they walk over. The loop over the tries to open a dump, the loop over at
-- most 200 inputs of a batch, and the runs of get_next_record and get_queue_to_process recur on a
-- number: 5 tries and 200 inputs are the code's own bounds, and the theorems on the runs state how
-- many calls are enough. The loop over the segments of an AS path has one turn more than the path has
-- bytes, the one over a message one more than the message; each turn of both takes at least one byte
-- of what is left. A printed AS number has at most 10 digits.
--
-- The environment. The answers of the data source are a list, and its end is a source that has no
-- more; the loops of get_next_record recur on a number of turns, and the theorem on it states how many
-- are enough. libbgpdump, bundled under lib/bgpdump, is a parameter of the model: the results of
-- the tries to open a dump, and the entries, gaps and corrupted reads that it holds, in their order.
-- The producer thread of a reader is the function of these tries that the reader waits for before its
-- first read, so no other interleaving of the two can be observed.
--
-- malloc and realloc, inet_pton, regcomp and regexec are parameters too, and so is the hash map of
-- khash, a function from keys.
--
-- Not modelled: the rest of lib/bgpstream.c (the options of a data source), how the elements of a record
-- are generated and printed, the rest of the functions on addresses and prefixes, the iteration over the
-- AS path store, the sets over khash (a submodule), the data sources,
-- BGPCorsaro, the tools and the Python bindings; of the IP counter, is_overlapping6.
pub mod Base
pub mod Addr
pub mod IpCounter
pub mod Filter
pub mod Input
pub mod Reader
pub mod ReaderMgr
pub mod FilterParser
pub mod Stream
pub mod AsPath
pub mod Community
pub mod DataSource
pub mod Elem
pub mod Patricia
