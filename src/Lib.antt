-- ===== src/Lib.antt =====
-- cpp_tricks is a collection of small C++ programs, each in a directory of its own. This library
-- models those whose logic stands in the repository, one module per program:
--   Avl            data_structures/AVL/avl.cpp: `Avl.Node` is `AVL::Node` with its recursive `insert`
--                  and `remove`, `Avl.Container` is the class `AVL` with its two counters;
--                  `Avl.Rotation` and `Avl.Balance` treat depths and balance, `Avl.Sorted` and
--                  `Avl.Refine` the entries from left to right, `Avl.Totals` the counters,
--                  `Avl.Invariant` the class as its clients see it, and `Avl.Traverse` is `traverse`.
--   Elements       data_structures/tree/tree.cpp: `Elements.Node` is the struct `Element` with `add`,
--                  `parent`, `get` and `path`; `Elements.Shape` treats `add`, `Elements.Lookup` the
--                  lookup, `Elements.Traverse` is `dfs`, `Elements.Breadth` is `bfs`, and
--                  `Elements.Sample` the tree that `main` builds.
--   Autocomplete   autocomplete/autocomplete.cpp: completion of a command line, over `Elements`, since
--                  its struct `Element` is the same text as that of tree.cpp; `Autocomplete.Elements`
--                  has its names, and `Autocomplete.Options` treats what is printed.
--   Errors         error_stack/error.hpp and error.cpp: `Errors.Error` and `Errors.Stack`.
--   ErrorCode      error_code/error_code.cpp: the error category.
--   Factory        factory/factory.cpp: `Factory<Base, Types...>`.
--   BasicFactory   factory/basic_factory.cpp: the factory whose identifiers are integers.
--   Average        math/simple_moving_average.cpp: `SimpleMovingAverage`.
--   ThreadPool     thread_pool/thread_pool.hpp and thread_pool.cpp.
--   ProxyPool      PostgresProxy/thread_pool.hpp and thread_pool.cpp, which share all with `ThreadPool`
--                  but the waiting of `get`.
--   Sockets        PostgresProxy/socket.hpp and socket.cpp: `TcpSocket` over a `Link`, which stands for
--                  the kernel's end of a connection; `Sockets.Stream` says what a working one does.
--   Session        PostgresProxy/session.hpp and session.cpp: a session of the proxy. `Session.Steps` is
--                  the monad of its handlers, `Session.Stage` its state and the stages of a handler,
--                  `Session` the handlers and `process`; `Session.Buffer`, `Session.Relay`,
--                  `Session.Payload`, `Session.Forward`,
--                  `Session.Request` and `Session.Response` follow a message through the stages,
--                  `Session.Laws` treats the handlers, `Session.Process` a whole `process`, and
--                  `Session.ShortRead` a header that comes in parts.
--   Proxy          PostgresProxy/proxy.cpp: the thread that accepts connections and the worker, as steps on
--                  the flags, the mutex, the condition variable and the list of sessions; `Proxy.Scan`
--                  treats the worker's round, `Proxy.Laws` and `Proxy.Hold` the flags, `Proxy.Stuck` a
--                  wake-up that is lost.
--   Epoll          epoll/epoll.hpp and epoll.cpp: the dispatcher of events; `Epoll.Events` treats the flags,
--                  `Epoll.Dispatch` a call of `Wait`, and `Epoll.Handlers` the callbacks of descriptors.
--   Plugin         plugin/libplugin.hpp and libplugin.cpp: `Plugin.Version` and `Plugin.Identity`, whose orders
--                  `Plugin.Order` treats, the directory iterator `Plugin.Iterator`, and `Plugin.Loader`;
--                  `Plugin.Search` is the search of `import`, and `Plugin.Laws` treats `import`.
--   FileLock       global_lock/file_lock.cpp: a lock between processes over a file, with the calls on files as a
--                  parameter, which `IsFlock` describes.
--   GlobalLock     global_lock/semaphore.cpp: a lock between processes, over a record of the
--                  calls on the semaphore that they share, which `IsSemaphore` describes.
--   Led            LinuxGpioLedDriver/ledgpio.c and ledgpio.h: the driver of the LEDs, a state with the pointer
--                  to its array; `Led.Registration` is its start and end in the kernel, `Led.Ports`
--                  treats the masks, `Led.Laws` what is written to the ports, `Led.Memory` the pointer
--                  over any writes, and `Led.Opening` who has the device open. `Led.Client` is
--                  ledgpio_client.cpp; `Led.Client.Session` is the client on the driver.
--   Json           cjson++/cjson.hpp: `Json` over the cJSON library; `Json.Access` has the functions that read,
--                  `Json.Change` those that write. `Json.Library` says what the library does with objects,
--                  `Json.Refs` treats the sets of references, `Json.Synced` objects whose set fits their
--                  items, `Json.Keys` and `Json.Run` what a client sees of the keys.
--   Subprocess     subprocess_io/subprocess_io.cpp: a child process with pipes; `Subprocess.Start` is the constructor,
--                  `run` and the destructor, `Subprocess.Streams` says what pipes do, `Subprocess.Reading`
--                  treats `read` and `expect`, `Subprocess.Writing` `write`.
--   SerialDump     serial_dump/serialdump.c: `SerialDump.Options` treats the options as the usage text names
--                  them, `SerialDump.Flags` the flags that any options can set.
--   ScopeExit      scope_exit/scope_exit.hpp: the guards of a program; `ScopeExit.Laws` counts the runs.
--   Udp            ipc/udp_socket/udp_ttl.cpp: `UDP`, with the calls of the system as a parameter.
--   LocalSocket    ipc/unix_sockets/local_socket.cpp and local_socket.hpp: `LocalSocket`, with the calls of the system
--                  as a parameter; the loop of `send` is that of Sockets.
--   Concurrent     concurrent_read_write/concurrency.cpp: `ConcurrentContainer`.
-- `Prelude` holds the helpers that these share: tests on numbers, lists, integers and texts. `Order`
-- is the interface of a strict total order, `Less`, which the AVL tree takes as an instance, with the
-- orders of numbers and of texts that fill it.
--
-- Conventions. Numbers are the native naturals. The unsigned counters of the AVL tree and the
-- depth of the traversals wrap at 2^32, as in the source. The stored depth of an AVL node is
-- computed without wrap-around: it is at most the number of nodes, and a balanced tree of depth
-- 2^32 fits in no memory. Integers of C++ that can be negative are `ℤ`. Texts are lists of
-- character codes. A null pointer is `none`; a pointer to an `Element` is the way that the back
-- links give, from the element to the root. A callback is a function on a state of its own, which
-- also gives its result.
--
-- The calls of the operating system on a connection are the record `Link`, a parameter, and what
-- `socket`, `bind`, `listen`, `accept` and `connect` return comes as an argument. The record
-- `IsStream` holds what the manual promises of a working connection; `ReadsFields`, which one theorem
-- assumes, is more than it promises. A local variable that is read before it is written has an
-- arbitrary value, from the record `Junk`.
--
-- The dispatcher `Epoll` takes a record `Kernel` of its system calls, and a callback is a name whose
-- effect on the dispatcher is a parameter.
--
-- The driver `Led` takes a record of the calls of the kernel; a result `none` is a fault in it, an access
-- through a pointer that does not point to enough or a second release of memory. `Led.Client` takes
-- a record of the calls on the device, and `IsDevice` says that they end in the driver.
--
-- `Json` takes a record of the functions of the cJSON library; `IsLibrary` says what those on objects do.
-- The sets that copies of a value share stand in a store. Nodes of values are not deleted in the model, and
-- numbers are integers.
--
-- `Subprocess` takes a record of system calls; `IsPipes` says what pipes do while the process at the other
-- end is at rest. Its loops are on fuel; more fuel than there are bytes is enough for `read` and `write`,
-- and two rounds for `expect`.
--
-- The loader of plugins takes the file system, the dynamic linker and the container of its instances as
-- records of functions: its map is ordered by an `operator<` that is no order, so what the map does is
-- not settled by the standard. A directory and the libraries do not change while the loader looks.
--
-- Recursion is structural but for loops on fuel. The loops of `send` and of a session that reads
-- a payload have one round more than the bytes to come, since every round moves a byte at least;
-- `send` over a connection that takes no byte for ever is the result `spins` of a handler. The
-- fuel of `dfs`, `bfs` and `traverse` is counted from the tree, a round for every element and
-- every separator, and the digits of a number are fewer than the number and one. The search of a
-- plugin has a round for every entry of the directory and one for its end.
--
-- Waiting loops (`ThreadPool::get`, `Worker::join`, the locks of `ConcurrentContainer`) are not
-- run to their end: `none` stands for a call that still waits, and in `Concurrent` each atomic
-- operation is a step of one thread, with the steps of all threads in any order. The same holds
-- of `Proxy`, where a round over the sessions under the mutex is one step, as is `process` in a
-- thread of the pool, since a round does not touch the sessions that are being processed. The
-- sessions share one log, and each holds what it logged.
--
-- Not modelled: copying of these objects, which copies the fields; the averages that compute with
-- floating-point numbers; memory and exceptions (a callback of `Epoll` that removes its own
-- descriptor destroys the function that runs); the unlinking of a semaphore's name, and a round of
-- the proxy that waits for a worker of the pool; printing; and the programs that are calls of the
-- operating system or of another library (message queues, pipes).
pub mod Prelude
pub mod Order
pub mod Avl
pub mod Errors
pub mod Elements
pub mod Autocomplete
pub mod Concurrent
pub mod Sockets
pub mod SerialDump
pub mod ScopeExit
pub mod Session
pub mod Proxy
pub mod Epoll
pub mod Plugin
pub mod FileLock
pub mod LocalSocket
pub mod GlobalLock
pub mod Json
pub mod Led
pub mod Subprocess
pub mod ThreadPool
pub mod Udp
pub mod ProxyPool
pub mod Factory
pub mod BasicFactory
pub mod ErrorCode
pub mod Average
