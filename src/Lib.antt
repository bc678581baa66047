-- ===== src/Lib.antt =====
-- Correctness of the core of SimpleGoServer: its load balancers, its executor, its handler
-- pipeline, its wire protocol, and the key-value service over HTTP beside it.
--
-- The program is a TCP server in Go. Connections are spread over workers by a load balancer
-- (internal/balancer, behind the interface of pkg/balancer.go). On a connection, pkg/proto cuts the
-- byte stream into frames, joins fragments to messages, carries requests, responses and publishes;
-- a resilient client survives lost connections and asks the server to replay what it missed.
--
-- Common: what the modules share. Tests has Boolean tests and equality as an interface, Lists the list
-- functions over the native numbers, Dict Go's maps and sets as association lists, Int Go's signed
-- integers. A 64-bit int wraps where the source computes with one.
--
-- Balancer: pkg/balancer.go and internal/balancer. A backend is a reference, its id what `Id()`
-- answers. Contract has the membership half of the interface `Balancer` as a record of operations and
-- laws, and Contract.Plain fills it for the four balancers that keep one plain list.
--   RoundRobin: round_robin.go (Next, Register, Unregister, Size and Iterate are next, register,
--     unregister, size and visit, here and in the others).
--   Random: random.go. The answer of `rand.Intn` is an argument.
--   WeightedRoundRobin, WeightedRandom: weighted_round_robin.go and weighted_random.go. The weights are a
--     field of the references, since others hold the backends too. `sort.Search` is the first index
--     that passes its test, as documented for a test that fails on a prefix and passes behind it.
--   IpHashing: ip_hashing.go. The hash and the key of a replica are parameters; `sort.Search` as above.
--   LeastConnections: least_connections.go. The counts are a field of the references, since others
--     hold the backends too; `update_count` is updateCount.
--   Adaptive: adaptive.go. The loads that `Load()` answers and the draws of the tie-break are
--     arguments, since both are live; a load is a value of any type with the two comparisons used.
--
-- Executor: internal/executor. Submit, Do, cancelWithErr, the workers and Stop are cut into the steps that
--   other goroutines can see, and a list of actions is an interleaving. A task's outcome and whether a
--   timeout passes are arguments of the actions; a task that panics ends the program and is left out.
--   Only workers call Do here. Resolving has the invariant, Outcomes and Lasting what becomes of a future.
--
-- HttpService: http-service, the key-value service behind HTTP routes. Memory fills the interface of
--   stores with MemoryStore; Contract, Entries and Putting are over any store. json.Valid is a parameter, a body
--   is its bytes and whether it breaks off, and a reply its code and the value that it carries.
--
-- Pipeline: internal/handler and pkg/handler/handler.go. The nodes are a store with pointers as numbers,
--   a handler is its identity and the interfaces that its type implements. Linked and Shape say what a
--   linked pipeline is, Adding, Positions and Histories are about AddFirst, AddLast and AddHandler, Walks has
--   IndexOf, LastIndexOf and the events of NodeContext, Searching, Passing and Writing what they
--   reach. Each loop takes one node of the list in a round, so that the size is fuel enough. An index
--   is not wrapped: it counts nodes in memory. A handler's own code is not modelled, save whether its
--   HandleWrite panics.
--
-- Proto: pkg/proto. Its file has the frames of frame.go and the errors.
--   Reader: io.Reader as the bytes to come and how they end; io.ReadFull after its documentation.
--   Codec: codec.go (Encode, EncodeHeaderTo, DecodeHeader, decodeFrame) and newFrame of protocol.go.
--   Stream: stream.go (decodeStreamed, encodeMessage, encodeFrameInto) and the joining of buffers in
--     FrameCodec.HandleWrite of protocol.go. The loop of decodeStreamed takes a header off the stream
--     in each round, so that as many rounds as there are bytes are enough; the loop of encodeMessage
--     takes a byte of the payload at least. A reader has finitely many bytes, so that a peer that never
--     stops is not expressed; Endless is about fragments without a byte, as many as one likes.
--   Message: the envelope of json.go (EncodeJSON, envelope.bytes, jsonPlainASCII, DecodeJSONMessage) and
--     mustJSON of protocol.go. encoding/json is a parameter; Splice compares them with the struct that
--     it would marshal.
--   Resilient: the replay bookkeeping of resilient.go. The loop of acknowledgePublish takes a number
--     out of the accepted set in each round, so that as many rounds as the set has are enough. A frame
--     is handled in one step, though the code releases the mutex around the application's callback: a
--     client reads its frames one after the other, but the frames of an old and a new connection could
--     meet there.
--   Server: protocol.go. Cache is the replay cache (rememberPublish, enforceCacheBudgetLocked; each round
--     of the trimming deletes a topic, so that one round more than there are topics is enough),
--     Sessions attachSession, collectReplay, touchSession, reapExpiredSessions and the changes of
--     handleSubscribe, Publishing Publish, Handling HandleRead, handleHello, handleSubscribe,
--     handleRequestFrame and negotiate. Time, fresh tokens, the answers of writes and of the
--     application are arguments. A call of Publish is one step: publishes that overlap are not modelled.
--   Client: client.go. A call of roundTrip, the read loop and Close are cut into the steps that other
--     goroutines can see (a critical section, a write, a send, a receive), and `act` takes one step of
--     one of them, so that a list of actions is an interleaving. The writes of a fragmented request keep
--     the lock in the code; here they need not, which only adds interleavings. Whether a request
--     encodes, a write succeeds and a timeout passes are arguments of the actions. Runs, Own, Steps,
--     Waiting, Table and Releasing carry the invariants over the actions; Replies, Stranded and Ending apply them.
--   Reconnect: the connections of resilient.go (Connect, watch, reconnectLoop, dialAndHandshake, swap and
--     Close) as steps of goroutines, as in Client, and the waits of reconnectLoop, in int64 nanoseconds.
--     The watches are counted by where they are; one that waits does so on the connection it took, and
--     only `done` ends it or its reconnectLoop. CloseGracefully is the loss of a connection and a Close.
--     A second Close, which closes the same connection again, changes nothing here.
--   Pool: the size classes of pool.go (Classes) and what release puts back (Releases). The bytes in a
--     buffer do not depend on where it comes from, so that the other modules leave the pools out.
--
-- Elsewhere than in Executor, Proto.Client and Proto.Reconnect, Go's mutexes make each method one step:
-- the model's operations are pure functions of the state.
-- Not modelled: sync.Pool and the reuse of memory, the sockets and goroutines of pkg/reactor, a store
-- of http-service that fails a put, the commands and the examples.
pub mod Common
pub mod Balancer
pub mod Executor
pub mod HttpService
pub mod Pipeline
pub mod Proto
