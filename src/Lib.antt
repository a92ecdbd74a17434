-- ===== src/Lib.antt =====
-- ninep, a Go library for the 9P2000.L and 9P2000.u network file system protocols.
--
-- The program is a wire codec (proto/, with the dialects proto/p9l/ and proto/p9u/), a server
-- (server/) and a client (client/) over it. A peer writes frames, size[4] type[1] tag[2] body, on a
-- byte stream; the other reads a frame, picks the message type by its byte, and decodes the body.
--
-- Proto.Base, Proto.Types, Proto.MessageType: the constants and structs of proto/constants.go,
--   proto/types.go and proto/message.go, and the bytes, errors and results that the codec works with.
-- Proto.Encode, Proto.Decode: the helpers WriteUint8 to WriteQID and ReadUint8 to ReadQID of
--   proto/encode.go and proto/decode.go, as write_uint8 to write_qid and read_uint8 to read_qid.
-- Proto.Session, Proto.Walk, Proto.Transfer: the messages of proto/messages.go. A message T is a
--   record T; its methods EncodeTo and DecodeFrom are encode_t and decode_t.
-- P9l.Open, P9l.Make, P9l.Rename, P9l.Attributes, P9l.Xattr, P9l.Lock: the messages of
--   proto/p9l/messages.go, in the same way.
-- Proto.Messages, P9l.Messages: NewBaseMessage of proto/frame.go and newMessage of
--   proto/p9l/codec.go, as switches on the type byte.
-- Proto.Frame: EncodeFrame and DecodeFrame of proto/frame.go. P9l.Codec: Encode and Decode of
--   proto/p9l/codec.go.
-- Proto.Dirent: proto/dirent.go.
-- Proto.Laws and the modules RoundTrip, Canonical and Streams hold the proofs. Proto.Laws.Reads and
--   Proto.Laws.Recodes have two relations between a writer and a reader, with one rule for each
--   way to build them; each message is an instance of the rules.
-- Client.FidAlloc, Client.Tags: the allocators of client/fidalloc.go and client/tags.go.
-- Server.Fid, Server.FidTable: the state of a fid and the table of fids, server/fid.go. Its methods
--   are single steps, so a history is a list of calls or a sequence of steps. Server.FidTable
--   has its lemmas in Cases and Lookup.
-- P9u.Stat: the stat structure of 9P2000.u with Rstat and Twstat, proto/p9u/messages.go.
-- Server.Inflight: the map of requests in flight, server/flush.go.
-- Server.Conn: the state that the handlers of server/dispatch.go and server/bridge.go share, the code
--   behind the interfaces of server/node.go and server/filehandle.go, as a record of functions over an
--   unknown state, and the monad that a handler is written in. Server.Conn.Run has the helpers.
-- Server.Handlers: the handlers, one module for a group of them, and dispatch. A handler handleX is
--   handle_x. A request runs from its start to its end as one step.
-- Server.Conn.Calm, Server.Conn.Sound, Server.Conn.Refuses, Server.Conn.Keeps: relations on handlers
--   with one rule for each way to build one; Server.Handlers.References and Server.Handlers.Dispatch
--   apply them to each handler.
-- Server.Inode, Server.Names, Server.Errno: server/inode.go, the tests on names, and error numbers.
-- Server.Session: negotiation and renegotiation of the version in server/conn.go, server/cleanup.go, and
--   the requests that a connection serves, one after the other.
-- Path: Go's path.Clean and path.Base, as their documentation says, for the paths of fids.
-- P9u.Open: the other messages of proto/p9u/messages.go.
-- Memfs.File, Memfs.Dir: the files and the directories of server/memfs/, with the QID generator of
--   server/qid.go. Memfs.Served: such a file as the server behind a client.
-- Client.File: the chunked and sequential reads and writes of client/file.go, over a connection that is
--   a record of functions. Client.File.Store has what a File relies on. Client.ReadDir: the loop of
--   client/readdir.go, and Seek. Client.Walk: how Files come by their fids, over Client.FidAlloc.
--
-- A byte, an integer and a character of a string are native numbers; a Go integer type is a range
-- predicate, IsU8 to IsU64, and a writer keeps only the low bytes of a number, as Go's conversions
-- do. A []byte and a string are lists of bytes. A writer is the bytes that it appends, or its
-- error; a reader takes the bytes that are left on a *bytes.Reader and returns its value and what it
-- leaves, or its error. The text of Go's errors is left out, and so is what a failed EncodeTo has
-- already put into a buffer that is then thrown away, and the fields that a failed DecodeFrom has
-- already set. The field Data of a message is called payload.
--
-- Fuel: the loop of ParseDirents takes as many rounds as there are bytes, and each round takes 24
-- bytes or more. The client of Server.Handlers.Readdir.Pages takes one round for each entry at most.
-- The loops of ReadAt and WriteAt take a round for each byte at most, and the loop of ReadDir 2^64 less
-- its cursor, which each round moves on. All other loops are on lists or on a count that was read.
--
-- Not modelled: the choice of a dialect and newMessage of proto/p9u/, the worker goroutines of the
-- server, and the connection and sessions of the client (concurrency over sockets and timers); pools
-- of buffers and structs, tracing and logging (they change no value), and the host file system (pure
-- I/O).
pub mod Prelude
pub mod Proto
pub mod P9l
pub mod P9u
pub mod Client
pub mod Server
pub mod Memfs
pub mod Path
pub mod Tests
