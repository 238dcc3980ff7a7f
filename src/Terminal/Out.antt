-- ===== src/Terminal/Out.antt =====
-- `handleOutSession`, where a session leaves.
use gearkit.Base.{
  ℕ, zero, suc, ◌≡◌, inl, inr, refl, ap, ◌∙◌, List, [], ◌∷◌, Option, none, some, Bool, true, false,
  length, get_elem?, Bool-cases, Option-cases, ◌==◌, arith, ◌⊎◌,
}
use gearkit.Base.Run.{Run, done, fault, Run-cases, ◌>>=◌}
use gearkit.Packet.{Packet}
use gearkit.QList.{QList}
use gearkit.QList
use gearkit.Session.{Session, is_zero, send_popped, popped, flush_loop, flush}
use gearkit.Socket.{packet_queue_length}
use gearkit.Socket.Flush.{Flushed}
use gearkit.Base.Table.{put, put_self}
use gearkit.Terminal.{Terminal, handle_session_send, out_loop, handle_out_session}

get_elem?-end : {A : Type 0} (l : List A) → get_elem? l (length l) ≡ none
get_elem?-end [] = refl
get_elem?-end (x ∷ l) = get_elem?-end l

module _ {S : Type 0} (send : Packet → S → Run (Flushed × S)) (valid : S → Bool) where
  -- A run that is a fault, or leaves the mark as it is.
  Marked : Bool → Run (Bool × Session S) → Type 0
  Marked dirty run =
      (run ≡ fault) ⊎ ((r : Bool × Session S) × (run ≡ done r) × (r.1.out_dirty ≡ dirty))

  send_popped-Marked :
      (again : Session S → Run (Bool × Session S)) (p : Packet) (s : Session S)
      → ((u : Session S) → Marked u.out_dirty (again u))
      → Marked s.out_dirty (send_popped send valid again p s)
  unfolding send_popped Marked
  send_popped-Marked again p s next = elim (Option-cases s.socket) [
    | inl e ↦ rw (send_popped, e) (inl refl)
    | inr (k, e) ↦ elim (Run-cases (send p k)) [
      | inl f ↦ inl (rw (send_popped, e, f) refl)
      | inr (r, f) ↦ elim (Bool-cases (is_zero r.0)) [
        | inl z ↦ rw (send_popped, e, f, ◌>>=◌, z) (next (record s { socket = some r.1 }))
        | inr z ↦
            inr
              ((false, record s { socket = some r.1 }), rw (send_popped, e, f, ◌>>=◌, z) refl, refl)
      ]
    ]
  ]

  popped-Marked :
      (again : Session S → Run (Bool × Session S)) (r : Bool × Option Packet × QList Packet)
      (s : Session S)
      → ((u : Session S) → Marked u.out_dirty (again u))
      → Marked s.out_dirty (popped send valid again r s)
  unfolding popped Marked
  popped-Marked again (true, some p, que) s next =
      send_popped-Marked again p (record s { send_packets = que }) next
  popped-Marked again (true, none, que) s next = inl refl
  popped-Marked again (false, out, que) s next =
      inr ((true, record s { send_packets = que }), refl, refl)

  flush_loop-Marked : (fuel : ℕ) (s : Session S) → Marked s.out_dirty (flush_loop send valid fuel s)
  unfolding flush_loop Marked
  flush_loop-Marked zero s = inl refl
  flush_loop-Marked (suc fuel) s = elim (Run-cases (QList.pop packet_queue_length s.send_packets)) [
    | inl f ↦ inl (rw (flush_loop, f) refl)
    | inr (r, f) ↦
        rw (flush_loop, f) (popped-Marked (flush_loop send valid fuel) r s (flush_loop-Marked fuel))
  ]

  flush-Marked : (s : Session S) → Marked s.out_dirty (flush send valid s)
  unfolding flush
  flush-Marked s = flush_loop-Marked (suc s.send_packets.count) s

  -- A session that is not marked is not marked after `handleSessionSend`.
  Unmarked : ℕ → Run (ℕ → Session S) → Type 0
  Unmarked session run =
      (run ≡ fault)
      ⊎ ((sessions : ℕ → Session S) × (run ≡ done sessions)
          × ((sessions session).out_dirty ≡ false))

  send_run :
      (session : ℕ) (sessions : ℕ → Session S) (r : Bool × Session S)
      → flush send valid (sessions session) ≡ done r
      → r.1.out_dirty ≡ false
      → Unmarked session (handle_session_send send valid session sessions)
  unfolding handle_session_send Unmarked
  send_run session sessions (true, s) run clean = inr (
    put session s sessions,
    rw (handle_session_send, run) refl,
    ap (λ u. u.out_dirty) (put_self session s sessions) ∙ clean,
  )
  send_run session sessions (false, s) run clean =
      let s' : Session S = record s { out_dirty = false } in
      inr (
        put session s' sessions,
        rw (handle_session_send, run) refl,
        ap (λ u. u.out_dirty) (put_self session s' sessions),
      )

  send-Unmarked :
      (session : ℕ) (sessions : ℕ → Session S)
      → (sessions session).out_dirty ≡ false
      → Unmarked session (handle_session_send send valid session sessions)
  unfolding handle_session_send Unmarked Marked
  send-Unmarked session sessions clean = elim (flush-Marked (sessions session)) [
    | inl f ↦ inl (rw (handle_session_send, f) refl)
    | inr (r, run, e) ↦ send_run session sessions r run (e ∙ clean)
  ]

  loop_faults :
      (fuel session : ℕ) (rest : List ℕ) (sessions : ℕ → Session S)
      → (sessions session).out_dirty ≡ false
      → out_loop send valid (suc fuel) 0 (suc (length rest)) (session ∷ rest) sessions ≡ fault
  unfolding out_loop Unmarked
  loop_faults fuel session rest sessions clean =
      let more : (0 == suc (length rest)) ≡ false = ground arith in
      let end = get_elem?-end (session ∷ rest) in
      elim (send-Unmarked session sessions clean) [
        | inl f ↦ rw (out_loop, more, f) refl
        | inr (sessions', run, e) ↦ rw (out_loop, more, run, ◌>>=◌, e, end) refl
      ]

  -- Where a session waits in the vector, and the first one is not marked, `handleOutSession` reads behind
  -- the end of the vector, or goes outside before that, whatever the sockets do. No method marks a
  -- session.
  pub handle_out_session_faults :
      {W : Type 0} (t : Terminal S W) (session : ℕ) (rest : List ℕ)
      → t.out_vec ≡ session ∷ rest
      → (t.sessions session).out_dirty ≡ false
      → handle_out_session send valid t ≡ fault
  unfolding handle_out_session
  handle_out_session_faults t session rest is clean =
      let some_wait : (length t.out_vec == 0) ≡ false =
        ap (λ l. length l == 0) is ∙ (ground arith) in
      let outside =
        ap (λ l. out_loop send valid (suc (length l)) 0 (length l) l t.sessions) is
        ∙ loop_faults (suc (length rest)) session rest t.sessions clean in
      rw (handle_out_session, some_wait, outside) refl
