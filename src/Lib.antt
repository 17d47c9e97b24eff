-- ===== src/Lib.antt =====
-- eSalsa-MPI is an MPI library for an application that runs on several clusters at once. Inside a
-- cluster it calls the MPI library there; a message for another cluster goes to a gateway process of
-- the own cluster, from there over TCP sockets to a gateway of the other cluster, and from there over
-- MPI to the process that receives it. A server, which is not C code, gives out communicators.
--
-- The parts that are modelled, and where; paths are from the repository's root.
--
-- Pid (src/shared/settings.h): the macros SET_PID, GET_CLUSTER_RANK and GET_PROCESS_RANK, with the
-- bit operations of C on numbers below 2^32.
--
-- Queue (src/backend/message_queue.c): the linked list of messages in a heap. NULL is `none`, and a
-- function returns `none` where the C code would follow a pointer to nothing. malloc's result is an
-- argument of message_enqueue. The data_message_ functions are the same functions on the inner queue.
-- Queue/Spec holds the list that the queue stands for, Queue/Session whole sequences of calls. The
-- fuel bounds the rounds of a search; as many as there are messages are enough.
--
-- Messaging (src/backend/messaging.c, src/backend/communicator.c): the receive of a message from
-- another cluster, with the pending messages of each communicator. What the calls of MPI return in one
-- run of probe_mpi_data_message is a record, ProbeCalls, and a list of these records is what MPI
-- does; the receive waits when the list is at its end. The pending messages are lists, which is what
-- Queue shows of the C code. Copying the payload to the application is not modelled.
--
-- Sending (src/backend/messaging.c): messaging_send and messaging_bcast. What MPI and malloc give in one
-- run of do_send is a record; packing the data of the application is MPI's work.
--
-- Gateway (src/backend/gateway.c): the reading and the writing side of a gateway socket. The kernel is
-- a list of events (how many bytes it has or takes, EAGAIN, end of file, error) and, for reads, the
-- stream of the bytes to come. The messages of the queues are lists of bytes. The record Memory says
-- where malloc gives memory for a header and for a node of the queue, and realloc for a message. Gateway/Link puts a
-- sender and a receiver at the two ends of a stream of bytes, with the steps that the two gateways
-- make. ERROR in nonblock_write_message for a socket that epoll does not watch for writing only
-- reports. The number of rounds of nonblock_read_messages is the source's MAX_SOCKETS_READ_SEQUENCE; the
-- fuel is for the recursive call of nonblock_read_message,
-- which is made at most once for a well-formed message, so 2 is enough. The fuel of
-- nonblock_write_messages bounds its rounds; one more than there are unfinished messages is enough.
--
-- Routing (src/backend/gateway.c, from enqueue_data_message to process_mpi_messages): the traffic of a
-- gateway with MPI. What the calls of MPI and malloc give is part of the state, as a list for each
-- function that makes them; at the end of its list a receive function finds no message, and malloc
-- gives nothing for a send. The sends that MPI accepted are recorded in the order of the calls. Routing/Polling has the
-- list mpi_messages as nodes with pointers, and shows that poll_mpi_requests does on them what it does
-- on the list that the state holds. The
-- fuel of the first loop of process_mpi_messages bounds its rounds; one more than there are receives of
-- requests and replies to come is enough.
--
-- Groups (src/backend/group.c, and EMPI_Group_translate_ranks of src/backend/empi.c): the table of
-- groups and the operations on it. A group pointer is the index of its entry in the table. The loops
-- of get_range have one round more than the group has members, and that is enough, since every round
-- adds a member. An overflow of its index, which C leaves undefined, ends the model's run.
--
-- Communicator (src/backend/communicator.c): the table of communicators, its first three entries that
-- init_communicators makes, the arrays of EMPI_COMM_WORLD, the translation of ranks, and the tests that
-- tell whether a rank is in the own cluster.
--
-- Requests (src/backend/request.c, and messaging_probe_receive and messaging_finalize_receive of
-- src/backend/messaging.c): the table of requests, where a request pointer is the index of its entry,
-- and the receive of a message from another cluster by a request.
--
-- Operations (src/backend/operation.c): the table of reduction operations, with its initialization.
--
-- Reduce (src/backend/reduce_ops.c): the predefined reductions. Reduce/Cases and Reduce/LogicCases hold
-- the switches on the datatype, Reduce/Defs the macros and the loops, Reduce/Dispatch the functions
-- EMPI_REDUCE_MAX to EMPI_REDUCE_MINLOC. An array is a function of the index; an integer is its bit
-- pattern, which wraps around, of the widths of LP64; floating-point numbers and their operations are
-- arguments. How PMPI_Reduce calls the functions is not modelled: `gather` reduces the arrays of the
-- processes in the order of a list.
--
-- Completion (src/backend/empi.c from probe_request to EMPI_Status_set_cancelled, src/backend/status.c):
-- how a request completes, by MPI, by the gateway, or by whichever is first. The results of PMPI_Test
-- and PMPI_Wait are a list, as those of the probes are; a function that makes a call at the end of its
-- list waits for ever, which is an outcome of its own beside a bad pointer and the end of the program.
-- A pointer to a status is `none` for EMPI_STATUS_IGNORE, an array of them for EMPI_STATUSES_IGNORE. The fuel of EMPI_Waitall and EMPI_Waitany bounds
-- the rounds over the array; for sends to other clusters 2 is enough.
--
-- Calls (src/backend/empi.c): EMPI_Comm_split, EMPI_Comm_create and EMPI_Comm_dup put the messages of Wire
-- and the table of Communicator together. What MPI gives is a record of results for each function.
--
-- Tables (src/backend/info.c, file.c and datatype.c): the tables of infos, files and datatypes. Those of infos
-- and files are alike, so Tables/Slots has them once and Tables/Infos names their operations. A read
-- behind the table of datatypes is an outcome of its own.
--
-- Collective (src/backend/empi.c): get_count_sums, the sums of counts for each cluster. A sum that is no
-- int, which C leaves undefined, is `none`.
--
-- ERROR and IERROR end the program after their report in this configuration (ERRORS_ARE_FATAL); the
-- code that a function would return behind them is its result here.
--
-- Wire (the end of src/backend/messaging.c, and SplitReply, GroupReply, DupReply, the request classes
-- and receiveMessage of src/server/src/esalsa): the messages between a process and the server. A
-- message is the list of its 32-bit words as a little-endian host sees them, with ntohl as a swap of
-- bytes. An exception of the server, at the end of its stream or of an array, is `none`; a read behind
-- the end of a message in a process is an outcome of its own.
--
-- Codes holds the return codes and table sizes (src/backend/empi.h, src/shared/settings.h), Prelude
-- the names, tests, lists and integers that all modules share.
--
-- Not modelled: the wrappers for C and Fortran, the sends and receives of src/backend/empi.c themselves
-- (EMPI_Send to EMPI_Issend), the collective operations but for get_count_sums, the functions on
-- groups, datatypes, operations and files that only pass on to their tables, the connection set-up and
-- the main loop of the gateway, init_datatypes, logging, profiling and the
-- rest of the server. A signed C int is
-- an integer without bounds but in get_range and get_count_sums; a group's size and the counters of a queue stay far
-- below its limit, since they count memory blocks.
pub mod Prelude
pub mod Codes
pub mod Pid
pub mod Queue
pub mod Messaging
pub mod Gateway
pub mod Groups
pub mod Requests
pub mod Communicator
pub mod Operations
pub mod Wire
pub mod Routing
pub mod Sending
pub mod Reduce
pub mod Completion
pub mod Calls
pub mod Collective
pub mod Tables
