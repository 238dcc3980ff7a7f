-- ===== src/Socket/Fixtures.antt =====
-- Queues of packets for the tests.
use gearkit.Base.{refl, arith, List, [], ◌∷◌, none, replicate, length-replicate}
use gearkit.LinkedList
use gearkit.LinkedList.{Heap}
use gearkit.LinkedList.Refine.{new_represents}
use gearkit.Packet.{Packet}
use gearkit.QList
use gearkit.QList.{QList}
use gearkit.QList.Refine.{Holds, new-Holds}
use gearkit.Queue
use gearkit.Queue.Fifo
use gearkit.Queue.Refine as RingRefine

abbrev pub blank_packet : Packet
blank_packet = record { header = record { pid = 0; seed = 0; length = 0 }; buf = none }

abbrev slots : List Packet
slots = replicate 200 blank_packet

abbrev heap : Heap Packet
heap = []

abbrev pub no_packets : QList Packet
no_packets = QList.new slots heap

pub no_packets-Holds : Holds 200 no_packets []
no_packets-Holds =
    new-Holds 200 slots heap (omega arith) (length-replicate {A = Packet} 200 blank_packet)

-- A packet with the number 7 waits.
abbrev pub seventh : Packet
seventh = record { header = record { pid = 7; seed = 0; length = 0 }; buf = none }

abbrev pub one_packet : QList Packet
one_packet = record {
  count = 1;
  que = (Queue.push 200 seventh (Queue.new slots)).1;
  list = LinkedList.new heap;
}

pub one_packet-Holds : Holds 200 one_packet (seventh ∷ [])
one_packet-Holds = record {
  old = seventh ∷ [];
  late = [];
  ring =
      unfold Fifo.push in
      (RingRefine.push_refines {len = 200} seventh (
        RingRefine.new-Holds slots (omega arith)
          (length-replicate {A = Packet} 200 blank_packet))).1;
  rest = new_represents heap;
  whole = refl;
  counted = refl;
}
