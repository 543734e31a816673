-- ===== src/Lib.antt =====
-- go-wirenet: named streams between peers over one multiplexed connection.
--
-- The program. A wire (wirenet.go) joins or accepts connections. Each connection becomes a
-- session (session.go) after a handshake of two frames (frame.go) that exchange names, identity
-- and token. A session opens streams by name: one side asks with a frame, the other looks the name
-- up among its handlers, or, on a hub, in an index of the sessions that offer the name. On an
-- open stream (stream.go) data moves in chunks, each behind its length. Errors (errors.go) tell
-- which step failed. The multiplexer underneath is github.com/hashicorp/yamux.
--
-- The files.
--   Base, Base/*      numbers, lists, octets (bytes as natural numbers below 256), Go's signed
--                     integers, association lists for Go's maps, and their lemmas.
--   Go                results of Go functions: `ok`, `err`, `panic`, and `stuck` for a loop whose
--                     fuel is spent; the monad of functions on a world; `Ensures`, a property of
--                     what is returned that holds of no panic and no spent fuel.
--   Io                package io as parameters: `Reader` and `Writer` over a world `S`, the laws of
--                     their documentation, io.CopyN (`copy_n`), and one concrete reader and writer.
--   Frame             frame.go. Format: constants and accessors; Encoder, Decoder: Encode and
--                     Decode; Exchange: sendFrame and recvFrame; the others are about them: Shape,
--                     RoundTrip, Fields, Written, Replies, Safety, Truncation (a body that
--                     is cut short), Apart (what a reader or a writer of another connection is left with).
--   Stream            stream.go. Defs: the state and its small operations; Transfer: WriteTo and
--                     ReadFrom; ReaderWriter: what Reader() and Writer() return; Pipe: pipe. Chunks,
--                     Chunking, Delivery and Crossing are about transfers, Boundaries about chunks and
--                     sources at their limits, Copying about pipe, Filling, Buffering, Reading, Keeping
--                     and Last about the reader, Parts and Messages about messages that are written
--                     part by part, Ready and Steady about the buffers that calls leave.
--   Errors            errors.go. Defs: OpError and ShutdownError. The plain errors are `Error` of Go.
--   Cert              cert.go.
--   Session           session.go. State: the session and its map and counter of streams (Counting);
--                     Shutdown: Close and the wait for streams; Dispatch: the checks and the routing
--                     of an incoming stream; Serve: dispatchStream, serve, serveHub and OpenStream,
--                     with what is logged (Handlers, Serving, Forwarding, Safety); Agreement: both ends of
--                     OpenStream; Open: the loop of open (Opening);
--                     Lifecycle: racing calls of Close, the goroutine of shutdown and the streams, as
--                     a step relation with its reachable states (Invariant, Answers, Progress).
--   Wire              wirenet.go and options.go. State: the wire and its constructors; Options: the
--                     options (Fresh); Registry: the sessions and the hub's index (Index, Offers);
--                     Close: Close (Closing, Order); Client: acceptClient (Retry, Ending); Server:
--                     acceptServer (Serving); Network: listen and dial; Connect: Connect; Backoff:
--                     DefaultRetryPolicy; Handshake: openSessionRequest and confirmSessionRequest
--                     (Refusal, Safety, Agreement); Control: openSession and confirmSession around them;
--                     Lifecycle: racing calls of Close, the goroutine of shutdown, the loop that
--                     accepts and the sessions that come and leave, as a step relation with its
--                     reachable states (Invariant, Registered, Answers, Progress, Late;
--                     Sequential: a call of Close on its own).
--   Examples          examples/*. Programs: the wires that the main functions set up (Peers: what they
--                     expect of each other); Transfer: transfer_files, its server and its client; Hub:
--                     the nodes of hub; Keyboard: keyboard; Payload: bytes; Auth: the validator of auth;
--                     Remote: shell, exchange and tls, which open streams of a session; Reconnect:
--                     reconnect; Handlers: what the other handlers write, and downloadFiles; Buffers:
--                     bytes.Buffer and bytes.Reader beside a connection.
--   Tests             runs on concrete data.
--
-- How code corresponds to definitions. A method takes the state that it changes as an argument and
-- returns it. A connection, a reader or a writer is a record of functions on a world `S`; what they
-- may do is stated by `IsReader`, `IsWriter` and `Delivers`, each with a concrete instance.
-- The protobuf library, uuid, net and time are parameters. A map is an association list. An integer
-- read off the wire is the native ℕ that its four bytes give; one written keeps its wrap-around.
--
-- A panic of a handler is a value that the handler returns.
--
-- Concurrency. An operation that holds a lock is one step, but for ReadFrom and WriteTo, which hold
-- their stream's lock while they run: the Close of a stream waits for it, in the wait for streams
-- (`held` of a round) and in the step relation of a session's end (`held` of its state). What other goroutines do between two steps
-- of a loop is part of the loop's list of rounds (the wait for streams, open, the client's and the
-- server's loop). The calls of a session's Close and its shutdown goroutine are a step relation, in
-- which they interleave freely at each access to the shared fields and channels, and time passes at
-- any rate; so are the calls of a wire's Close, its shutdown goroutine, its loop that accepts and its
-- sessions, where a session's Close is one step, and a client's wire is followed for one connection.
--
-- Fuel. Loops that wait on a reader or writer run on fuel. `decode` takes one round more than the
-- length that the header tells, since every round but the last reads a byte; `copy_n` takes a round
-- for each byte. WriteTo, ReadFrom, the reader's loops and pipe take their fuel as an argument,
-- which the theorems about WriteTo, ReadFrom and pipe bound; so do the examples' loops over them. A loop
-- that ends only when its stream is closed is cut after a number of rounds. The wait for streams and the loops that
-- accept and dial take a list of rounds, which is what the clock, the other goroutines and the
-- network do in turn.
--
-- Not modelled: deadlines of connections and TLS itself (the wire keeps its configuration and hands it
-- to the dial), what hooks do (a hook, the error handler and the log writer are values that the wire
-- keeps), the generated code of pb. Of the examples: signals, goroutines of a main function, pauses, the
-- log, HTTP profiling and flags; os, os/exec, encoding/json and standard output are parameters there.
pub mod Base
pub mod Go
pub mod Io
pub mod Frame
pub mod Stream
pub mod Errors
pub mod Cert
pub mod Session
pub mod Wire
pub mod Examples
pub mod Tests
