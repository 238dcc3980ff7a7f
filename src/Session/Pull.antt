-- ===== src/Session/Pull.antt =====
-- `setSocket`, with the packets that the socket has received before.
use mathlib.Core.List.{append_assoc, append-nil}
use gearkit.Base.{
  ◌+◌, ◌<◌, ◌^◌, arith, length-append, ℕ, suc, ◌≡◌, refl, sym, ap, ◌∙◌, subst, List, [], ◌∷◌, ◌++◌,
  Option, some, Bool, length,
}
use gearkit.Base.Run.{done, Returns, ◌>>=◌}
use gearkit.Packet.{Packet}
use gearkit.QList.{QList}
use gearkit.QList
use gearkit.QList.Refine.{push_refines}
use gearkit.Session.{Session, pull, set_socket}
use gearkit.Session.Flush.{Queued, Next, pop-Next}
use gearkit.Socket.{packet_queue_length}

-- The packets of the first queue stand behind those of the second one.
abbrev Pulled : List Packet → List Packet → QList Packet × QList Packet → Type 0
Pulled ps qs r = Queued r.0 [] × Queued r.1 (qs ++ ps)

pull_run :
    (n : ℕ) (p : Packet) (ps : List Packet) (from to to' : QList Packet)
    (r : Bool × Option Packet × QList Packet)
    → QList.pop packet_queue_length from ≡ done r
    → Next p ps r
    → QList.push packet_queue_length p to ≡ done to'
    → pull (suc n) from to ≡ pull n r.2 to'
unfolding pull
pull_run n p ps from to to' r run next pushed =
    rw (pull, run, ◌>>=◌, next.answer, next.out, pushed) refl

pull-Pulled :
    (ps qs : List Packet) (from to : QList Packet)
    → Queued from ps
    → Queued to qs
    → length qs + length ps < 2 ^ 31
    → Returns (pull (length ps) from to) (Pulled ps qs)
unfolding pull
pull-Pulled [] qs from to h k few =
    ((from, to), refl, (h, subst (Queued to) (sym (append-nil qs)) k))
pull-Pulled (p ∷ ps) qs from to h k few =
    let (r, run, next) = pop-Next p ps from h in
    let (to', pushed, k') = push_refines packet_queue_length to qs p k (omega (arith, few)) in
    let (u, rest, (left, all)) =
      pull-Pulled ps (qs ++ (p ∷ [])) r.2 to' next.left k'
        (omega (arith, few, length-append qs (p ∷ []))) in
    (
      u,
      pull_run (length ps) p ps from to to' r run next pushed ∙ rest,
      (left, subst (Queued u.1) (append_assoc qs (p ∷ []) ps) all),
    )

module _ {S : Type 0} where
  set_run :
      (sock : S) (from : QList Packet) (s : Session S) (r : QList Packet × QList Packet)
      → pull from.count from s.recv_packets ≡ done r
      → set_socket sock from s ≡ done (r.0, record s { socket = some sock; recv_packets = r.1 })
  unfolding set_socket
  set_run sock from s r run = rw (set_socket, run) refl

  -- `setSocket` with a socket whose queue and the session's hold fewer than 2 ^ 31 packets
  -- together comes to its end: the session has the
  -- socket, the packets stand behind those that the session had received, in their order, and the
  -- socket's queue is empty.
  pub set_socket_lem :
      (sock : S) (from : QList Packet) (s : Session S) (ps qs : List Packet)
      → Queued from ps
      → Queued s.recv_packets qs
      → length qs + length ps < 2 ^ 31
      → Returns
          (set_socket sock from s)
          (λ r. Queued r.0 [] × (r.1.socket ≡ some sock) × Queued r.1.recv_packets (qs ++ ps))
  set_socket_lem sock from s ps qs h k few =
      let (r, run, (empty, all)) = pull-Pulled ps qs from s.recv_packets h k few in
      let size = ap (λ n. pull n from s.recv_packets) h.counted in
      (_, set_run sock from s r (size ∙ run), (empty, refl, all))
