-- ===== src/Lib.antt =====
-- LAppS, a WebSocket application server: its protocol engine.
--
-- The program reads bytes from a socket, cuts them into WebSocket frames (RFC 6455) with a parser
-- that keeps its state between reads, hands the messages to an application, and frames what the
-- application answers. The files and the parts of the code that they are about:
--
--   Protocol         include/WSProtocol.h, include/WSEvent.h and the enumerations and records of
--                    include/WSStreamProcessingCommon.h. Protocol.Length: the length field.
--   Parser           include/WSStreamParser.h: the state of both parsers as one record, and the
--                    operations of the base class, one function each. A function that returns
--                    a Result returns the new state beside it. The cases of a switch that fall
--                    through are functions that call the next one.
--   Parser.Machine   `parse`, whose text is the same in the two derived classes but for the
--                    members that it calls; these are a `Side`.
--   Parser.Copy      the loops of `processPayload` that unmask: single bytes up to a position
--                    that is a multiple of 4, words of 8 bytes, and single bytes again.
--   Parser.Utf8      `isValidUtf8`, where a read past the end of the memory is `none`.
--   Server           include/WSStreamServerParser.h; Client: include/WSStreamClientParser.h.
--                    In both, Receive follows one frame through the machine, and Progress
--                    bounds the calls. Server.Fragments follows the frames of one message.
--   ServerMessage    include/WSServerMessage.h: the frames that the server sends.
--   ClientSocket     include/ClientWebSocket.h: the frames that `send` and `closeSocket` make.
--   Socket           include/WebSocket.h: what the server's socket does with its input, the
--                    parser's client. Session and Fragmented follow whole reads.
--   Http             include/HTTPRequestParser.h: the request that opens a connection.
--   Registry         include/ServiceRegistry.h: services by name and by target. A call that
--                    throws is `none`; a call that moves the turn returns the new registry.
--   Handshake        include/Shakespeer.h: the answer to that request, a client of both.
--   Worker           include/IOWorker.h: the table of connections and the events of `poll`,
--                    a client of Handshake and Socket; `handleInput` of include/WebSocket.h.
--                    Worker.Execute: the inbound queue, and the passes of `execute`.
--   Stats            include/WorkerStats.h: the threads that share the statistics of the workers,
--                    one atomic operation or one access to the table a step.
--   Pool             include/WSWorkersPool.h and include/Balancer.h: whose turn it is to take an
--                    accepted socket. A client of Worker and Stats.
--   MessageQueue     include/MQRegistry.h: the queues that services exchange messages over. The
--                    queue itself, `itc::tsbqueue`, is an interface of three operations.
--   ClientHandshake  the request and the response in include/ClientWebSocket.h.
--                    ClientHandshake.Meeting: the client and the server together.
--   ClientInput      `handleInput` of include/ClientWebSocket.h, a client of the stream parser.
--   Broadcast        include/Broadcast.h and include/Broadcasts.h: the channels.
--   Random           include/PRNG.h: the generators that the client uses.
--   Common           lists, octets, words and bit operations over the native numbers.
--                    Common.Maps: the maps of the standard library, as association lists.
--
-- Bytes and machine words are natural numbers; a word in memory is the sum of its bytes, least
-- significant first, as on the x86 machines the program is built for. Offsets, lengths and
-- cursors are `size_t` in the source; they never pass the length of the input or of a buffer, so
-- their sums do not wrap. Buffers are lists, and a buffer that is passed on is replaced by the
-- one that `getBuffer` gives.
--
-- Fuel: a copying loop gets the bytes of input left, since each round takes one at least, and
-- the theorems on the loops say that they end with their condition false. `parse` and
-- `processInput` get two more than the bytes of input left; a further call of `parse` takes
-- a byte at least, unless it returns, and so does a further round of `processInput`. The
-- loop over the headers of a request gets the bytes left, and takes one at least, and so does
-- the one of a response. A call that runs out of fuel has an outcome of its own, which the
-- theorems on results exclude. `force_recv` and `force_send` go on while the system answers
-- EAGAIN: they run over the list of its answers, and a loop that still runs at the end of the list
-- has an outcome of its own too.
--
-- Not modelled: sockets, TLS and epoll, the mutexes, the Lua bindings, the configuration, the
-- filter of addresses, which is an argument of Handshake; and the copies of other libraries in
-- the repository. A worker is one thread, and its sockets are modelled without TLS. The digest
-- and the encoding of the handshake, which are wolfSSL's, and the upper-case function and the
-- queues of ITCLib are arguments, as are the answers of the system, the random masking key of the
-- client, the random bytes of its request, the hash of the queues' names and the weight of a
-- connection. A `send` to a full queue of ITCLib that waits is left out.
pub mod Common
pub mod Protocol
pub mod Parser
pub mod Server
pub mod Client
pub mod ServerMessage
pub mod ClientSocket
pub mod ClientInput
pub mod ClientHandshake
pub mod Socket
pub mod Http
pub mod Registry
pub mod Handshake
pub mod Worker
pub mod Stats
pub mod Pool
pub mod MessageQueue
pub mod Random
pub mod Broadcast
pub mod Tests
