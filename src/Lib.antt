-- ===== src/Lib.antt =====
-- libcoio, a C++20 coroutine library over io_uring with an HTTP/1.0 client. Paths are from the root
-- of the repository.
--
-- - ResultType: include/common/result_type.hpp. The union of `result` is `Storage`; a read or a
--   destruction of the member that is not alive is `none`.
-- - Url: include/http/url.hpp. `parse`, with its three searches as separate steps.
-- - StreamBuffer: include/stream_buffer.hpp. The pointers are offsets into the vector, the sizes
--   64-bit words, and the argument of `gbump` and `pbump` a 32-bit word. Bounds has the pointers'
--   order, Contents and Characters what each call does to the text held, Fifo the queue that Refines
--   compares it with, Copies what the compiler's copy and move do to the pointers.
-- - Decimal: `std::to_string` and `std::stoi` in base ten, as the client and the parser use them.
-- - HttpParser: include/http/http_parser.hpp. picohttpparser is a parameter: a function of the text,
--   the capacity and the array of headers, which answers with a record.
-- - HttpClient: include/http/httpclient.hpp. Message has the text of a request, Socket what the kernel
--   and the peer promise, Reading the two reading loops (Body, UntilRounds and Until have their
--   theorems), and the file itself the whole of `request` over a `Network`, which stands for the
--   resolver, `connect`, `send` and what a freed text holds: the headers of a response are read from
--   one. Exchange and Lifecycle have its theorems, and Framing where the head of a request ends.
--
-- Fuel: `body_loop` is given one round for each byte it needs, since a round takes a byte or ends;
-- `read_until` takes its fuel as an argument and is proved to end with more fuel than the peer sends
-- bytes, and so does the session of PingPong; `to_digits` is given one more than the number.
--
-- Base has what the parts share: lists over the native numbers, tables, the search for a text in a
-- text, integers, and Outcome the exceptions.
--
-- Coroutines and input and output:
-- - Future: include/future.hpp. The promise, and the steps of the awaited coroutine and of the one who
--   waits, in any order. Race has the safety of the hand-over, Progress that it comes to an end;
--   VoidPromise the promise without a value.
-- - IoContext: include/io_context.hpp. Callables and coroutines are numbers with a `Code`, what they
--   do with the context. Each call is one step; completions and the calls of other threads come in
--   between two rounds. Token has `run` with a stop token and the guard of a binding. Effects has what
--   a piece of code does to the context, Rounds what a round runs, Fifo the order over rounds, Loop
--   the stop flag and the binding to a thread, Options the parameters of the ring, Rings its
--   constructor and destructor, Calls the difference between the own thread and others, Scope what a
--   stop token and a guard do. Threads has the loop in single steps, with other threads and the kernel
--   in between any two: Order and Serving what is run, Alone, Stages, Completions and Round its own
--   steps against those of a round, Served that nothing is left waiting. In these a push is one step;
--   Unlocked has it in its parts, with the mutex and the pushes that do not hold it, and Turns has
--   what the context has in fact run.
-- - AwaitCounter: include/details/await_counter.hpp, with the load and the store of the one who waits
--   as two steps.
-- - Task: include/details/task_with_callback.hpp, the promise of a task.
-- - WhenAll: include/when_all.hpp, the vector version, whose tasks end on the thread of the one who
--   waits, the results of the tuple version, and the version without values in VoidTasks.
-- - Generator: include/generator.hpp, for any body: a function from a point of suspension to what
--   comes next. Iteration has the range-based `for`.
-- - IoAwaiter: `io_awaiter` of include/io_context.hpp, with the operations of include/ioutils/tcp.hpp,
--   include/ioutils/file.hpp and include/time_delay.hpp in Operations. Delivery has the way of a
--   result to its coroutine, Room how many operations a round may start.
-- - Descriptor: include/ioutils/file_descriptor_base.hpp, the objects and the kernel's table. Owners
--   has what each call does, Session any session of calls.
-- - Handles: the owners of coroutine frames, `future`, `task_with_callback` and `generator`, seen as
--   owners of descriptors; Calls and Session as there. Oneway: include/details/oneway_task.hpp.
-- - Endian: include/ioutils/endian.hpp, with `htonl` and `ntohl` as parameters.
-- - Awaitable: include/just.hpp, include/fmap.hpp, include/flat_map.hpp and include/sync_wait.hpp, on
--   awaitables given by their three functions. Pipes has the pipe operators, and whether the function
--   that they pass on is alive, SyncWait the flag of `sync_wait` on two threads. Concepts:
--   include/awaitable.hpp and include/common/type_concepts.hpp, on types given by their category and
--   their operations, with the choice of `get_awaiter` in Choice.
--
-- The network:
-- - Protocol: include/ioutils/protocol.hpp, with `inet_pton` and `inet_ntop` as parameters. Addresses
--   has the IPv4 addresses and their texts, Local the paths of local sockets.
-- - Sockets: include/ioutils/socket_base.hpp and the calls of include/ioutils/tcp.hpp that do not
--   wait, over the answers of the kernel. Opening ties them to the owners of Descriptor, Addressing
--   has the local address.
-- - Datagram: include/ioutils/udp.hpp and include/buffer.hpp, the messages.
-- - Resolver: include/http/resolver.hpp, with c-ares as a parameter. The poll thread, the threads that
--   ask and the contexts take steps in any order; `asked` and `resumed` are histories. Weights has
--   sums over its lists, Once where each query is, Pending the count that the thread sleeps on,
--   Progress which step comes next, Ended what happens after the thread has ended, Shutdown the
--   destructor, AddressList and Listing the list of addresses.
-- - PingPong: example/pingpong, a session of the server (Echo), the client (Client) and the clients of
--   one thread (Total), over the socket of HttpClient; the accepted sockets (Accepting), and the
--   server with its acceptor and its sessions (Server, Objects, Serving).
--
-- Not modelled: the bodies of coroutines beyond the ones named, memory orders weaker than one order
-- of all steps, data races inside a call but those of the two queues of `io_context`, the threads,
-- arguments and the times of example/pingpong, picohttpparser and atomic_wait (copies of other
-- projects), and the templates of include/common without a state.
pub mod Base
pub mod AwaitCounter
pub mod Awaitable
pub mod Concepts
pub mod Datagram
pub mod Decimal
pub mod Descriptor
pub mod Endian
pub mod Future
pub mod Generator
pub mod Handles
pub mod HttpClient
pub mod HttpParser
pub mod IoAwaiter
pub mod IoContext
pub mod Outcome
pub mod PingPong
pub mod Protocol
pub mod Resolver
pub mod ResultType
pub mod Sockets
pub mod StreamBuffer
pub mod Task
pub mod Url
pub mod WhenAll
