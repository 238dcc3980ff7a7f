-- ===== src/Lib.antt =====
-- A verification library for gearkit, a small C++ toolkit for network servers and clients.
--
-- The toolkit's containers (base/), its core (kit/) and its network layer (network/) stand on one
-- another in this order. A module stands for a part of the program:
--
-- Base: names that all modules share, lists as C arrays, pieces of a block (Base.Slices), bit
--   operations as arithmetic (Base.Bits), arrays as functions of the index (Base.Table), runs that may leave their block (Base.Run) and 64-bit
--   sizes (Base.Words).
-- Queue: base/Queue.h, class Queue. The record has the class's members, and `push`, `pop`, `front`
--   and `rest` are its methods; Queue.Fifo is the bounded queue that it promises. Queue.MinQueue has
--   the priority queues of the same file, with `compare` as an argument; its loops run on fuel `count`
--   and one or two more, which is enough.
-- LinkedList: base/List.h, class List, with its nodes on a heap of options, `none` for a node that
--   is deleted. A read through a pointer to no node is a fault, and so is
--   `++count_` of an `int` that is as great as it can be.
-- QList: base/QList.h, class QList, over Queue and LinkedList. QList.Refine has the unbounded queue
--   that it promises, for fewer than 2 ^ 31 values.
-- Singleton: base/Singleton.h, class Singleton. The state is its one static member.
-- Map: base/Map.h, class Map. A map is the array of its chains, and Map.Items has the loops of the
--   methods over one chain. Keys are numbers: those of an unsigned key type, and of a signed one the
--   ones that are not negative.
-- Array: base/Array.h, class Array, with its iterator. `none` is the index -1, and a place outside
--   the array is a fault. Array.Entries has the entries by themselves, Array.Cells what the slots
--   hold for given entries. The iterator's loop runs on fuel `count`, which is enough.
-- Buffer: kit/Buffer.h, kit/Buffer.cpp and kit/impl/BufferImpl.h, class Buffer. The pointers are
--   distances from `head_` into a list of bytes, and an access outside the list is a fault. The
--   allocator is a parameter (Buffer.Memory) with what the C standard says of it as hypotheses.
--   Sizes wrap at 2 ^ 64; pointers themselves are taken not to wrap. Buffer.Varint has the unsigned
--   varints: the room of `stack_buf` and the bytes before `tail_` are the bounds of the two loops.
--   Buffer.Varint.Signed has the signed ones, over two's complement bits.
--   Buffer.Stream has the operators `<<` and `>>`, strings and vectors: a value of a plain type is
--   the list of its bytes, and a vector takes its element's pair of operators as a parameter, with
--   Buffer.Stream.Codec.IsCodec for what they promise.
--
-- BufferPool: kit/BufferPool.h and kit/BufferPool.cpp, class BufferPool, over Queue and Buffer. A
--   buffer in a queue is kept by value, since nothing else refers to it. The loops run on fuel 64,
--   one round for each bit of a size, and come to an end within it for sizes up to 2 ^ 63.
-- Text: kit/Functions.cpp, `split`. A position in the text is what is left of it from there on, and
--   the loop runs on fuel one above the text's length, since every round passes a
--   character.
-- Protocol: network/Protocol.h and network/Protocol.cpp, the data types of a protocol over Buffer. A
--   virtual method is a function by clauses over the subclasses of PTData. What `create` leaves
--   unset is a parameter, Protocol.Fresh. `unserialize` runs on fuel for the depth of the value,
--   and its height is enough.
-- Packet: network/Packet.h and network/Packet.cpp, class Packet. The numbers of the header stand in
--   memory with their low byte first.
-- Socket: network/Socket.h and network/Socket.cpp, class ISocket, over Buffer, BufferPool, Packet and
--   QList: the receiving side, with its members in the record Socket, and in Socket.Send the
--   sending side, with its own in the record Sender. `doRecv` and `doSend` are cut at their
--   comments into one function for each part. Socket.Partial has the states in which a call finds a packet. What `recvClear` drops
--   stands behind a system call, and the socket's members do not depend on it. Socket.Flush has
--   `flushSend` with `sendBuffer`: `send` of the system is a parameter over a state of its own, and the
--   bytes that it took are written down. The loop of `sendBuffer` has fuel for a round for each byte.
-- Session: network/Session.h and network/Session.cpp, class Session, over QList. The socket is a
--   parameter: what its `sendPacket` and `valid` do to a state of its own. `flush` runs on fuel one
--   above the number of packets.
-- Terminal: network/Terminal.h and network/Terminal.cpp, class Terminal, over Map and Session. The
--   sessions stand at their addresses, and what the protocols do is a parameter, which may be a fault.
--   Protocol numbers are the bits of an `int32_t`, and one with a negative index in the map is a fault. The loop of
--   `handleOutSession` runs on fuel one above the number of sessions in the vector.
-- State: kit/State.h and kit/State.cpp, class StateMgr, over Map. A state is its address, and what is
--   called on it stands in a list. `state_id_` is the bits of an `int`, and the numbers in the map
--   are not negative. State.Reach has the step relation.
-- Emitter: kit/Emitter.h, class Emitter. What a handler does is a parameter over a state of its own.
--   The loop of `emit` runs on fuel one above the number of items.
-- Timer: kit/Timer.h and kit/Timer.cpp, class Timer, over Map. A chain of nodes is a list with a flag
--   for a last pointer that nobody set, and the four wheels are a function of the index. What a handler
--   does is a parameter over a state of its own, and Timer.Grow says of a state what calls made it.
--   `wheeling` calls itself for the next wheel, three times at most.
-- Gear: Gear.h and Gear.cpp, class Gear: the frame clock. The time after `logic()` and the method
--   `spareLogic` are arguments, and the times are 32-bit words.
--
-- Not modelled: kit/Ref.h and the pools of references, the loops of class ISocket around `recv`,
-- clients and servers, and the two methods of class Terminal that make a packet of a protocol; and
-- operating-system calls, threads, logging, the Windows port, the script bindings and the vendored Lua
-- interpreter, which are not this program's own logic.
pub mod Base
pub mod Queue
pub mod LinkedList
pub mod QList
pub mod Singleton
pub mod Map
pub mod Array
pub mod Buffer
pub mod BufferPool
pub mod Text
pub mod Protocol
pub mod Packet
pub mod Socket
pub mod Session
pub mod Terminal
pub mod State
pub mod Emitter
pub mod Timer
pub mod Gear
