-- ===== src/Lib.antt =====
-- HQQ moves messages between processes through rings in shared memory. This library models the
-- parts of the Go implementation that carry its logic, and proves them correct.
--
-- Mpmc models internal/mpmc/mpmc.go. Mpmc/Layout.antt has the memory (`_mring`, `_melem`), the sizes
-- (`validRingSize`, `stride`, `SizeMPMCRing`), `FormatGuarded` and a round of `Attach`. Mpmc/Ring.antt
-- has every atomic access of `claimProducer`, `claimConsumer`, `publish`, `release`, `publishSlot`,
-- `releaseSlot` and of the notification as a function on that memory, and Mpmc/Ring/Slots.antt the
-- claims that callers hold (`ProducerSlot`, `ConsumerSlot`). Mpmc/Threads.antt composes the accesses
-- to threads: each step is one atomic access of one thread, in any order, for any number of threads.
-- Sequence numbers are 64-bit words and wrap; the theorems on threads hold for k moves with
-- k + size <= 2^63, which is what it takes for a position not to reach the sign bit of the
-- differences that the code compares.
--
-- Protocol models internal/protocol/protocol.go: the packet is its 64 bytes.
--
-- Advanced models the receive path of advanced_io.go with message.go and the metadata of
-- advanced_request.go. Advanced/Assembly/State.antt has the receiver's fields of `AdvancedLink`, and
-- Advanced/Assembly/Chunk.antt `consumeAdvancedChunk`, which takes the frames that the ring delivers.
-- The map of assemblies is an association list; what a recycled buffer holds is a parameter.
--
-- Advanced/Dispatch.antt models the routes of received messages to calls, to the queue of requests and
-- to streams, and Advanced/Dispatch/Loop.antt a round of the dispatcher: while it waits for a full
-- queue the others take messages, and close and drain streams, in any sequence.
-- Advanced/Meta.antt models the block of metadata of a request, both ways.
-- Advanced/Sender.antt models sendAdvancedPayload and sendAdvancedChunk (advanced_io.go); the ring is
-- a parameter that may refuse a chunk, and whose slots hold anything behind the bytes copied into them.
-- Advanced/Negotiation.antt models the negotiation of advanced.go, an attempt at a time, on packets of
-- Protocol; the attempt reads a list of arrivals, at whose end it still waits.
-- Advanced/Calls.antt models the critical sections of `pendingMu` in advanced_dispatch.go, and
-- Advanced/Calls/Steps.antt interleaves them with the accesses to the channels of calls.
-- Advanced/Streams.antt models the opening of streams by the peer (advanced_stream.go,
-- advanced_control.go), one handler a function.
--
-- Superblock models superblock.go: Superblock.antt the sizes and offsets, with the page size as a
-- parameter; Superblock/Segment.antt the words of the superblock; Superblock/Claim.antt
-- `claimSuperblock`, a turn of its loop at a time, on three views of the segment, with what
-- the others do before and after the load of `initToken`, and on the times that it reads;
-- Superblock/Publish.antt `publishSuperblock` and `commitInit`, a step at a time between
-- the changes of other endpoints, and `zeroInChunks`; and Superblock/Peer.antt `endpointAliveAtOpen`
-- and `checkPeer`. A write step of a publication is one step, though it may store several words.
-- Superblock/Session.antt composes the publication with the claims that follow it.
--
-- Standard/Remainder.antt models `recvRemainder` of standard.go, with its buffers in a heap, so that a
-- buffer that is used again is seen; Standard/Remainder/Queue.antt is the queue that it stands for.
--
-- Bindgen models the runtime under bindgen/rt: pool.go (Bindgen/Pool.antt, with one step for every
-- critical section), wire.go and handle.go (Bindgen/Wire.antt), and the strings of codec.go
-- (Bindgen/Codec.antt); bindgen/idl/lex.go (Bindgen/Lexer.antt, its loops in Bindgen/Lexer/Loop.antt)
-- and bindgen/idl/parse.go: the raw tree in
-- Bindgen/Parser/Syntax.antt, the parser's state and its failures in Bindgen/Parser/Monad.antt, and one
-- action for every method in Bindgen/Parser/Grammar.antt and Bindgen/Parser/Decls.antt. The messages of
-- errors are data, with the token found for the text that describes it. Bindgen/Parser/Sentences.antt
-- states the grammar of structs independently, as trees of tokens. Bindgen/Types.antt models
-- bindgen/idl/types.go on types without cycles, and Bindgen/Types/Encoding.antt states
-- where the parts of an encoding stand, part by part; it takes the sizes of scalars, the alignments and
-- which types are fixed from the definitions of Bindgen/Types.antt.
--
-- Common holds the shared names, and lemmas on lists, bits and bytes.
--
-- Loops recur on the structure of a list or on a count of the rounds left. The loops of the lexer
-- are given one round more than there are bytes left, which is enough since each takes a byte or
-- more; those of the parser as many as there are tokens left; the arguments of annotations one level
-- more than their bound; `zeroInChunks` one round for each byte. The claim of a segment ends with the
-- views it is given: it may go on for as long as the other endpoints do. Not modelled: the running of
-- clocks, the backoff of waiting operations, futexes and mappings, which are system calls; the set-up of
-- links; listeners; code generation; the implementations in other languages.
pub mod Common
pub mod Advanced
pub mod Bindgen
pub mod Mpmc
pub mod Protocol
pub mod Standard
pub mod Superblock
