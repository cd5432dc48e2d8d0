-- ===== src/Lib.antt =====
-- A verification of the core of the Unix labs: lab34, a tunnel that carries the connections of
-- many clients over one TCP connection, and the buffers that lab33's proxy shares with it; the
-- line tables of lab5, lab6 and lab7; the line editor of lab17; lab33's proxy; and lab31's server
-- for many clients.
--
-- The program of lab34. `lab34/lab34-sender.c` polls a listener, the tunnel and up to 255 clients.
-- What a client sends goes into its CyclicBuffer; its bytes are then framed, with the number of
-- the client and with escapes for the edge byte 0x7E, into the ring of the tunnel, and written
-- out. The other end takes the bytes in an IOBuffer and reads the frames back. The table of
-- clients gives each client a number that stays while its place in the array of poll(2) moves.
--
-- The files.
--   Common      tests, lists as C arrays, size_t arithmetic, signed char, arrays as functions,
--               and the lemmas that the components share.
--   Cyclic      lab34/cyclic_buffer.c. `CyclicBuffer` is the struct; `contents` (Cyclic/Contents) is
--               the queue it stands for; Cyclic/Refine runs the operations beside a queue.
--   IoBuffer    lab34/iobuffer.c, which lab33/iobuffer.c repeats. `items` is the queue it stands
--               for; IoBuffer/Reserve is about the growth of the array.
--   Protocol    lab34/protocol.c: byte stuffing.
--   Receiver    lab34/message_receiver.c: the reader of frames, a state machine over an IOBuffer.
--   Message     lab34/message_buffer.c: the writer of frames, a state machine over an IOBuffer.
--   Server      lab34/server_management.c: the table of clients.
--   Lines       lab5, lab6 and lab7: the tables of line offsets. Lines/Text says what lines are;
--               Lines/Lengths is lab5.c, Lines/Offsets lab6.c, Lines/Mapped lab7.c.
--   Editor      lab17/lab17.c: the line editor. Editor/Screen is a terminal, and Editor/Session runs
--               it on what the editor writes.
--   Proxy       lab33/lab33-proxy.c and lab33/server_management.c. Proxy/Table is the table of
--               clients, each with a server; Proxy/Transfer the transfer of bytes; Proxy the list of
--               clients, which `commit_remove` makes compact; Proxy/Turn the main loop.
--   Readers     lab31/lab31-server.c: the server that prints what its clients send. Readers/Visit says
--               what is to be printed and kept.
--   Sender      lab34/lab34-sender.c: the sender. Sender itself is the choice of the next
--               client to send; Sender/Tunnel the clients and their announcement; Sender/Rounds the
--               filling of the tunnel's buffer and the main loop.
--   TpBuffer    lab34/transport_protocol_buffer.c: the bytes for the tunnel with their marks.
--
-- The representation. Each C function is a function of the same name. One that changes `*this`
-- returns the new struct beside its result. A size_t is a number with its sums and differences
-- taken modulo 2^64 (`add_size`, `sub_size`). A byte is a number, a plain char read as an int is
-- signed (`int_of_char`), and an array of bytes is a list that a write out of range leaves alone,
-- which the well-formedness records exclude. -1 and NULL are `none`. What malloc, realloc, read,
-- write, mmap, poll, socket, connect, isspace and isgraph do is an argument of the function that
-- calls them; that read(2) returns no more than it was asked for is the hypothesis `ReadsAtMost`.
-- `cb_puts`, `cb_gets`, the loop of `skip` and that of `next_message_client` run on fuel, and
-- their theorems say how much is enough: one round more than the free places or than the stored
-- bytes, and one for each client. The walk of lab6, the mapping loop of lab7 and `commit_remove`
-- run on fuel too, with one round more than the bytes, or the clients, there are. The sender's
-- process_empty_removed has one round more than clients, process_added one more than clients wait,
-- and the loop of fill_message two more than bytes wait. All other loops are structural recursions
-- on the number of their rounds. `message_length` has no return statement, and what its caller
-- gets is an argument. A read of the sender's outside a client's array, which a freed buffer does
-- not have, ends the run as `overrun`.
--
-- Not modelled: the descriptors' input and output around these parts, the set-up of sockets,
-- lab33's server for plain clients, the servers of lab30 and lab32, lab31's server with threads,
-- and the other labs, most of which are single calls of the system.
pub mod Common
pub mod Cyclic
pub mod IoBuffer
pub mod Protocol
pub mod Receiver
pub mod Server
pub mod Message
pub mod Sender
pub mod Lines
pub mod Editor
pub mod Proxy
pub mod Readers
pub mod TpBuffer
