-- ===== src/Lib.antt =====
-- ihslib, a client library for Steam Remote Play: the packet layer, the reliable retransmission
-- list with its feedback, the windows of received and of unreliable packets, the encrypted control
-- channel, the reports of input devices, the tracking of video frames, the network statistics and the
-- lifecycle of the connection, as functions, with the theorems that state what they keep.
--
-- The program. A packet (src/session/packet.c) is a 13-byte header, a body and, where the host
-- asks for it, a CRC32C (src/crc32c.c); it lives in a growable buffer (src/ihs_buffer.c) that
-- reserves room for header and CRC around the body. What is sent reliably is kept in a list until
-- the host acknowledges it (src/session/retransmission.c); a worker scans the list for packets
-- that are due, while the receiving thread delivers acknowledgements and loss reports. What is
-- received goes into a ring (src/session/window.c), from which frames are put together and loss
-- feedback is taken. The connection's life runs from the connect packet to the disconnect packet,
-- with a pause while the application is in the background (src/session/lifecycle.c, shutdown.c).
-- Control messages go over a reliable channel, encrypted under a number that both sides count
-- (src/session/frame_crypto.c, channels/ch_control.c). Of an input device, the client sends the
-- state in full or as a delta from the one before, several in a message (src/hid/report.c). Of a
-- video frame, a tracker gives out tickets (src/session/frame_tracker.c), on which the decoder and
-- the renderer, each in its own thread, leave their times and the frame's outcome, until the tracker
-- reports the frame as settled; tickets are used again for later frames.
--
-- The files.
-- - Common: Boolean tests on native numbers, lists with indices, slices of byte lists, C words.
--   A w-bit word is a native number, and a sum or difference wraps by `% 2 ^ w`.
-- - Buffer (src/ihs_buffer.c, src/ihs_buffer.h, include/ihslib/buffer.h): Buffer/Defs has the
--   struct and one function per IHS_Buffer function, under its name without the prefix; Laws and
--   Writes have the theorems.
-- - Crc32c (src/crc32c.c): the table, the loop, and the bitwise division that the table stands for.
-- - Packet (src/session/packet.c, packet.h, src/endianness.h): Header has the header, Codec its
--   bytes (IHS_SessionPacketHeaderParse and Serialize), Wire the datagram (`parse`, `populate`,
--   `body_initialize`, `pad_to`, `packet_size`), RoundTrip and Populate the theorems.
-- - Retransmission (src/session/retransmission.c, retransmission.h): State has the list, Feedback
--   the acknowledgements and loss reports, Scan the function Process; `track` is
--   IHS_RetransmissionTrack, `nack_before` is IHS_RetransmissionNackBefore, and so on. The other
--   files are named for what they prove.
-- - Window (src/session/window.c, window.h): State has the ring and its size, Insert
--   IHS_SessionPacketsWindowAddEx, Poll IHS_SessionPacketsWindowPoll and DiscardEx, Feedback the
--   bitmap, the contiguous ID and the two feedback snapshots; Bitmap, Stamps and Ring have theorems.
-- - Transport (src/session/lifecycle.c, shutdown.c, client_shutdown.c, session_pri.h): State has
--   the fields of `transport` with those of the session that the lifecycle reads, Shutdown and
--   Lifecycle the functions; Calls, Foreground and Update have the theorems.
-- - Crypto (src/crypto/impl_mbedtls.c, src/session/frame_crypto.c): Library has the functions of
--   mbedTLS as parameters with their laws, Cbc the block mode with its padding, Frame the messages
--   under a sequence number; Blocks, Padding and Sequence have the theorems.
-- - Control (src/session/channels/ch_control.c, control_receive.c): State has the channel, Receive
--   the encryption, the handoff and the queue (`send_body` is the part of ControlSendLocked that
--   fills the frame's body, `drain` is IHS_SessionChannelControlDrainIncoming); Delivery, Desync
--   and Incoming have the theorems. What the handlers of the messages do is a parameter.
-- - Reliable (src/session/reliable.c): Nack applies a host's loss report to the list of
--   Retransmission, Received puts a packet into a Window and sends the feedback; Kept and Held say
--   what a loss report leaves alone, Feedback what becomes of an acknowledgement.
-- - Outgoing (src/session/outgoing.c): Cache has the ring of unreliable packets, Reports the loss
--   report on it; Cells, Copies, Growth, Put and Retained lead to the theorem on the ring.
-- - Channel (src/session/channels/channel.c): Fragments has the splitting of a frame into packets,
--   Split the theorem on it.
-- - Stats (src/session/network_stats.c): Samples has the ring of samples, Collectors the four
--   collectors; Ring, Growth, Expiry, Sums and Packets have the theorems.
-- - Video (src/session/channels/video/frame_nal.c): Nal has the emulation prevention, Escaping and
--   Append the theorems.
-- - Hid (src/hid/report.c, src/crc32.c): Report has the holder of reports with one function per
--   IHS_HIDReportHolder function, Delta the deltas, Crc32 their checksum. What the host does with a
--   report is a specification: `apply_delta` in Patch, `receive` in Chain. Calls has batches of a
--   device's reports; Bits, Marks and Patch are about one delta, Room, Staged, Message and Sync
--   lead to the theorem on batches.
-- - Tracker (src/session/frame_tracker.c): State has the tracker and its tickets, Ticket the calls
--   on one ticket, Begin the function begin_frame, Epoch the calls that walk over all tickets (of
--   IHS_FrameTrackerSettle, `settle_ticket` is one round), Calls all of them as steps. Held, Unheld,
--   Walks, Steps and Runs are about a held ticket, Reports, Lighter, Accounts and Once about reports.
-- - Queue (src/ihs_queue.c): Defs has the linked queue, Order the order of its items.
-- - ConnectionId (src/session/connection_id.c): the process-wide connection IDs.
-- - Tests: runs on concrete inputs, and the theorems applied to them.
--
-- How code becomes a function. A function that changes an object returns the object. A failed
-- assertion is the value none. Allocation is a Boolean parameter where the code handles its
-- failure, and succeeds where the code asserts it; `junk` is the value of fresh memory. Locks are
-- left out: a function that holds a lock from end to end is one step. Process gives up its lock
-- while the socket sends, so it takes for every packet a turn: the calls of other threads before
-- and during the send, and the socket's answer. A pending packet has an address that stands for
-- its pointer, and an unlinked one stays readable in `retired`, as its reference count keeps it.
-- Transport collects what the code hands to the sender, to a channel or to the application in the
-- list `sent`. A ticket's pointer is its place in the tracker's list of tickets, as a block is never
-- moved; the calls that change a ticket without the tracker's lock are single atomic operations, and
-- the calls of all threads are a list of steps in the order in which they take effect. An array list
-- is the list of its items. The socket's answers, the clock's values, fresh connection IDs and the
-- round-trip estimate are parameters.
--
-- Fuel. `double_to` (the doubling of a capacity) has the wanted capacity as fuel, which is enough
-- by `double_to_lem`, since a capacity above 0 grows in each round. The loops over a window have
-- the number of slots left as their argument. `drain` and `clear_loop` have the number of waiting
-- messages as fuel, which is enough by `drain-Drained`, and `expire` the number of samples; the
-- loops over the bits of a byte stop after its 8 bits. `queue_fragments` has the number of bytes,
-- which is enough by `queue_fragments-Split`. `apply_edges` has the 32 rounds of the code's own
-- bound. All other recursion is on lists.
--
-- What is not modelled: floating-point results (the means and rates of the statistics), the sending
-- loop and the rate shaping of unreliable packets, the drain of complete reliable frames, the rest
-- of src/session (FEC, clock, frame statistics, data channels, dispatch), discovery and
-- authorization (src/client), the input devices themselves (src/hid but for its reports), timers,
-- sockets and threads (src/platforms), the rest of src/crypto, which calls libraries, the priority
-- sort (src/session/outgoing_sort.c, a copy of libc++), and the generated protobuf code with the
-- handlers over it.
pub mod Common
pub mod Packet
pub mod Retransmission
pub mod Buffer
pub mod Crc32c
pub mod Tests
pub mod Transport
pub mod Window
pub mod Queue
pub mod ConnectionId
pub mod Video
pub mod Stats
pub mod Crypto
pub mod Control
pub mod Reliable
pub mod Outgoing
pub mod Channel
pub mod Hid
pub mod Tracker
