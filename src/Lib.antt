-- ===== src/Lib.antt =====
-- KamaRPC-Go: an RPC framework over TCP. A client sends messages through a pool of connections,
-- guarded by a rate limiter, a circuit breaker per instance and a load balancer; a connection cuts
-- the byte stream into packets; a message is a fixed part of ten bytes, a header in one of two
-- formats and a body that may be compressed; an answer completes the future of its call.
--
-- Files, and the code that they are about:
--   Base                 helpers: lists over the native numbers, Boolean tests, association lists
--                        for Go's maps, and Go's (value, error) pairs as Result
--   Codec/Compress       internal/core/codec/compress.go: Compress, Decompress
--   Codec/Registry       internal/core/codec/codec.go: Register, Get, New, with Agreement
--   Protocol/Uvarint     encoding/binary's AppendUvarint and Uvarint, whose format
--                        internal/core/protocol/header_binary.go lays down
--   Protocol/Intern      internal/core/protocol/intern.go: internBytes; and the runs of a parser
--                        that passes the interning cache on
--   Protocol/Header      internal/core/protocol/header.go: Header and the constants
--   Protocol/HeaderBinary  internal/core/protocol/header_binary.go, with RoundTrip and Safety
--   Protocol/HeaderJson  internal/core/protocol/header_json.go: Encode for appendHeaderJSON, Scan
--                        for skipSpace, parseRawBytes and parseUint, Parse for parseHeaderFast and
--                        parseHeaderJSON; Scanning and RoundTrip hold the proofs
--   Protocol/Message     internal/core/protocol/message.go: appendEncoded, DecodeInto; Framing and
--                        RoundTrip hold the proofs
--   Transport/PacketBuffer  internal/core/transport/tcp_connection.go, PacketBuffer; Stream is the
--                        abstract view, a byte stream cut by its length fields, and Refinement
--                        relates the two
--   Transport/Connection the same file, ReadBorrowed, Read and flush; Reading and Flushing
--   Transport/Connection/GroupCommit  the same file, WriteRaw, as events of many goroutines; Shapes,
--                        Waiting, Order, Delivery and Draining hold the proofs; Messages is Write
--   Transport/Future     internal/core/transport/future.go, with Completion
--   Transport/Pending    internal/core/transport/pending.go; Table is the abstract view, one table
--   Transport/TcpClient  internal/core/transport/tcp_client.go, with Answers, Counting and Once;
--                        Batch and Numbering are SendAsyncBatch, ReadLoop is readLoop
--   Transport/Pool       internal/core/transport/tcp_connection_pool.go, with Acquiring
--   Limiter              internal/core/limiter/token_bucket.go, with Bounds
--   Metrics              internal/core/metrics/metrics.go, the histogram of one method, with
--                        Quantiles; Collector is the map of all methods and its snapshot, with
--                        Entries, Stats and Snapshots
--   Client/Breaker       internal/client/breaker/breaker.go, with Invariant and Transitions
--   Client/LoadBalance   internal/client/loadbalance, with Rotation; Weighted is weighted_rr.go, with
--                        Choosing, Balance and Shares
--   Client/Keys, Client/Invoke  internal/client/client.go: the keys of breakers, and InvokeAsync over
--                        the limiter, the breaker and the pool; Verdict is what it answers,
--                        Accounting and LostProbe what it tells the breakers; Waiting is Invoke
--   Registry             internal/core/registry/registry.go: the cache of instances; Prefixes is about
--                        keys, Changes about what servers do to etcd, Registering about Register,
--                        Cache about the cache
--   Client/Batch         internal/client/client.go, InvokeAsyncBatch
--   Client/Options       internal/client/options.go, NewClient and Close
--   Server/Registration  internal/server/server.go, NewServer, Register, the set of connections and
--                        Stop, and internal/server/options.go
--   Server/Service       internal/server/service.go: the table of a service's methods, with Table
--   Server/Handler       internal/server/handler.go: from a request to the response's bytes; Appending
--                        and Responses
--   Server/Loop          internal/server/server.go, Handle: the loop of one connection; Batching is
--                        about one round, InOrder about all, Writing about what is
--                        written before the loop waits; Receiving decodes its packets, and Goroutines
--                        is about Process and processAndRecord
--   Rpc                  calls from end to end, over the client, the connections and the server:
--                        Endings is what a request is answered with, Serving the server's side,
--                        Session both, and AnyOrder the answers of goroutines
--   Cmd/Console          cmd/console/main.go: lists of names, the topology and scraping
-- A file Runs has runs of the code on inputs, and the theorems at inputs.
--
-- A struct is a record, and a method a function that returns the struct after it. A lock makes
-- each method one step; concurrent calls are a list of steps in the order in which the lock serves
-- them. An error is a value of Error, by the place that makes it. The interning cache, a package
-- variable, is passed along by everything that reads a header.
--
-- Bounds and fuel: a uvarint has ten bytes at most, and a uint64 twenty digits. Each round of the
-- JSON reader takes a byte at least, so it has as many rounds as there are bytes. Each packet has
-- ten bytes at least, so a stream is cut in as many rounds as it has bytes, and a reader that is
-- called again and again is done after one call more than there are bytes. Each round of the
-- pool's loop drops a connection or ends it, so it has as many rounds as there are connections.
-- int has 64 bits and lengths are far below; where a length is cut to 32 bits the remainder is
-- written out, and so is the wrap of the round robin's counter.
--
-- Parameters, for code that is not in the repository: gzip (Gzip, IsGzip), encoding/json (Json),
-- the capacity that append chooses (grow), what a socket's calls return (SocketRead, SocketWrite),
-- the random generator (draw), what dialling returns and which connections are closed (dial,
-- dead), the breaker's comparison of floats (reaches), and the rank of a quantile (rank). Options
-- may be given negative numbers, which are refused; numbers that are kept and never negative, such
-- as a rate or a limit of connections, are natural numbers. A parameter is also what the server uses of reflect, of the codecs and of an
-- error's text (Runtime, whose codec types are assumed to be bytes), what each round
-- of a connection's loop meets (Round), and what the registry, the context, the codec, the
-- connection and the clock answer to a call of InvokeAsync or
-- InvokeAsyncBatch (World), and etcd's answers and events.
--
-- Not modelled: the sharing of arrays between slices and the borrowing of a packet's bytes, pools of
-- buffers, the listener of the server, the reconnection of a watch, what HTTP endpoints print, and
-- the programs under cmd but for the console.
pub mod Base
pub mod Codec
pub mod Protocol
pub mod Transport
pub mod Limiter
pub mod Client
pub mod Metrics
pub mod Server
pub mod Registry
pub mod Rpc
pub mod Cmd
