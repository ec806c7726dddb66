-- ===== src/Lib.antt =====
-- The programs of the repository run queries over files kept by a storage: query_control sends the
-- path of a query to the master, the master schedules it on a worker, and the worker fetches,
-- decodes and executes its instructions against a paged memory backed by the storage. They talk
-- through the packages of utils. This development models the parts named below and shows what it
-- lists at the end; sockets, allocation, the clock and the commons library enter as parameters.
--
-- Base (and Base/Tests, Base/Lists, Base/Lookup): Boolean tests, the conditional and lists over
-- native numbers.
--
-- Serialization (utils/src/connection/serialization.c and .h). Buffer has t_buffer, buffer_create,
-- buffer_create_dynamic, buffer_expand (the doubling loop is `grow`, the rest `resize_to`),
-- buffer_has_capacity and buffer_check_capacity; Fields has the buffer_write_* and buffer_read_*
-- functions; Packages has t_package, the package_add_* and package_read_* functions, package_send,
-- recv_all and package_receive; Message puts fields into lists, to state what a sender and a
-- receiver do; Sizes has calculate_string_size and calculate_data_size. Capacity, Writes, Reads,
-- Codec, Sequence, Wire, RoundTrip and Safety hold the proofs. An operation is a function of the
-- buffer that returns its result with the buffer after it. The loop of buffer_expand runs on a
-- fuel of 64 rounds, which is enough: a buffer is not empty and a doubling of one byte reaches 2 ^
-- 63 in 63 rounds. For targets above 2 ^ 63 the product of the source wraps and its loop does not
-- end; requests in the program are below 2 ^ 33. A socket is the list of the pieces that its calls
-- of recv deliver until the peer closes the connection.
--
-- Master (master/src). State has the control blocks and tables of query_control_manager.h,
-- worker_manager.h and init_master.h: a block is reached by its address in a store, so that lists
-- share it, and using a block that is not live is a fault. Commons is the interface of the list
-- operations of the commons library. Queries has create_query, generate_query_id and
-- insert_query_by_priority of query_control_manager.c; Arrivals has manage_query_handshake and
-- manage_query_file_path of that file and create_worker and manage_worker_handshake of
-- worker_manager.c; Dispatch has try_dispatch and send_query_to_worker of scheduler.c; Aging has a
-- round of aging_thread_func of aging.c. Ordering, Invariant, Dispatch/Outcomes, Dispatch/Keeps,
-- Dispatch/Preserves, Arrivals/Fresh, Arrivals/Answers, Arrivals/Queries, Arrivals/Workers,
-- Aging/Live and Aging/Queue hold the proofs. A function of the scheduler or of the aging holds
-- the mutexes of the tables it uses, so that it is one step; an arrival is several steps, taken
-- without another thread's in between.
--
-- Worker (worker/src). PageTable has memory/page_table.c, with its proofs in PageTable/Entries and
-- PageTable/Dirty; Decode has the decoding of query_interpreter/query_interpreter.c, with the
-- words of the operations in Decode/Words and the grammar of its lines in Decode/Grammar. Memory
-- has memory/memory_manager.c: State the manager and the calls on it, which fault, fail, run out
-- of the rounds granted to a loop, or give a value with the manager after it; Tables its creation
-- and page tables; Frames the frames and the steps of a replacement; Lru and Clock the two
-- replacements; Access the page faults and the loop that reads and writes; Flush the way of dirty
-- pages back. A pointer to a page table is the index of its entry. The requests to the storage are
-- the interface `Storage` of State, on a state of what answers them, and `Serves` of
-- Memory/Contents is what the proofs rely on: a read changes no block and gives that of the page,
-- a write changes at most that of the page, and sets it when it succeeds. Sizes of pages come from
-- the storage as a uint16_t, so that the uint32_t of mm_access_memory loses nothing of them. The
-- loop of mm_access_memory has as many rounds as bytes, which is enough, since each copies one at
-- least; the loop of mm_find_clockm_victim has two (`clock_fuel`), which is enough where every
-- frame holds a page. View, Outcomes, Bytes, Local, Replace, Keeps, Steps, Evict, Choice, Held,
-- Ring, Passes, Rounds, Allocate, Load, Extend, Marks, Fault, Round, Written, Loop, Reading,
-- Refinement, Create, Names, Grown, Opening, Flushed and Stuck hold the proofs: View sees the
-- manager as a map from entries and page numbers to pages, Contents as one from pages to their
-- bytes, and Refinement as a flat memory for every entry. mm_mark_all_clean, mm_flush_all_dirty,
-- mm_resize_page_table and mm_remove_page_table are modelled, and nothing is proved of them.
--
-- Storage (storage/src). Locks has the reference counts of file_locks.c, where each section of a
-- thread under the mutex of the dictionary is a step; Locks/Counts has the proofs. lock_file
-- returns nothing, so that a thread whose lock_file failed goes on to its unlock_file all the
-- same.
--
-- Loops over lists are structural recursions. Serialization/Tests, Master/Tests, Worker/Tests,
-- Worker/Memory/Tests and Storage/Locks/Tests run the model on small inputs.
--
-- Not modelled: the rest of the storage, query_control and the rest of the worker and of the
-- master (their handlers of messages and disconnections, preemption, the executor and the requests
-- to the storage), logs, configuration, threads, destructors, which only free, and the test
-- frameworks kept beside the code.
pub mod Base
pub mod Serialization
pub mod Master
pub mod Worker
pub mod Storage
