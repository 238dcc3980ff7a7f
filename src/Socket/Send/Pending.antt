-- ===== src/Socket/Send/Pending.antt =====
-- What waits to be sent.
use gearkit.Base.{
  ℕ, zero, suc, ◌+◌, ◌/◌, ◌^◌, ◌≤◌, ◌<◌, ◌≡◌, inl, inr, refl, arith, List, [], ◌∷◌, ◌++◌, Option,
  none, some, Bool, ◌==◌, Bool-cases, true,
}
use native.Mathlib.Nat.{pow-suc}
use gearkit.Base.Run.{done}
use gearkit.Buffer.{Buffer}
use gearkit.Buffer.Inv.{IsValid, content}
use gearkit.BufferPool.{BufferPool, rounds, shrink_class, keep_at, destroy_buffer}
use gearkit.Packet.{Packet}
use gearkit.Packet.Header.{header_bytes}
use gearkit.Socket.Send.{Sender, Sent, count, destroy_send_buf}

abbrev pub body_of : Option Buffer → List ℕ
body_of none = []
body_of (some b) = content b

-- What is left to send of a packet.
abbrev pub unsent : Option Packet → Buffer → Option Buffer → List ℕ
unsent none head body = []
unsent (some p) head body = content head ++ body_of body

-- The packets of the queue as they will be sent.
abbrev pub frames : ℕ → List Packet → List ℕ
frames seed [] = []
frames seed (p ∷ ps) =
    (header_bytes (record p.header { seed = seed }) ++ body_of p.buf) ++ frames seed ps

-- A valid buffer whose sizes a `uint32_t` holds.
pub record IsSized (b : Buffer) : Type 0 where
  pub valid : IsValid b
  pub small : b.capacity < 2 ^ 32

abbrev pub IsBody : Option Buffer → Type 0
IsBody none = Unit {0}
IsBody (some b) = IsSized b

-- The buffers are valid, a header fits, and between two packets there is no body.
pub record IsReady (s : Sender) : Type 0 where
  pub head : IsSized s.send_head_buf
  pub head_room : 8 ≤ s.send_head_buf.capacity
  pub bufs : IsSized s.send_bufs
  pub body : IsBody s.send_buf
  pub between : s.send_packet ≡ none → s.send_buf ≡ none

pub never_blocked : {A : Type 0} (n : ℕ) → 0 < n → ◌≡◌ {A = Sent} (count 0) (count n) → A
never_blocked n pos e = let zero_bytes : 0 ≡ n = cc in absurd (omega (arith, zero_bytes, pos))

-- A call that had `pending` to send: what is in the buffer and what is left are the same bytes.
pub record Moved (s : Sender) (pending : List ℕ) (r : Sent × Sender) : Type 0 where
  pub answer : (n : ℕ) × (r.0 ≡ count n)
  -- A result above 0 says that the packet is through.
  pub finished : (n : ℕ) → 0 < n → r.0 ≡ count n → r.1.send_packet ≡ none
  pub bytes :
      content r.1.send_bufs ++ unsent r.1.send_packet r.1.send_head_buf r.1.send_buf
      ≡ content s.send_bufs ++ pending
  pub ready : IsReady r.1
  pub queue : r.1.send_que ≡ s.send_que
  pub seed : r.1.packet_seed ≡ s.packet_seed

-- The loop of `destroyBuffer` comes to its end.
shrink_class_ends :
    (fuel size index : ℕ)
    → size < 2 ^ suc fuel
    → (i : ℕ) × (shrink_class (suc fuel) size index ≡ some i)
unfolding shrink_class
shrink_class_ends zero size index h =
    let last : (size / 2 == 0) ≡ true = ground arith in (index + 1, rw last refl)
shrink_class_ends (suc fuel) size index h = elim (Bool-cases (size / 2 == 0)) [
  | inl last ↦ (index + 1, rw last refl)
  | inr more ↦
      let (i, e) =
        shrink_class_ends fuel (size / 2) (index + 1) (omega (arith, h, pow-suc 2 (suc fuel))) in
      (i, rw more e)
]

destroyed :
    (b : Buffer) (pool : BufferPool) (i : ℕ)
    → shrink_class rounds b.capacity 3 ≡ some i
    → destroy_buffer b pool ≡ some (keep_at i b pool)
unfolding destroy_buffer
destroyed b pool i e = rw (destroy_buffer, e) refl

-- `destroyBuffer` of a valid buffer comes to its end.
pub destroy_buffer_ends :
    (b : Buffer) (pool : BufferPool)
    → IsSized b
    → (r : Bool × BufferPool) × (destroy_buffer b pool ≡ some r)
destroy_buffer_ends b pool v =
    let (i, e) = shrink_class_ends 63 b.capacity 3 (omega (arith, v.small)) in
    (keep_at i b pool, destroyed b pool i e)

given_back :
    (s : Sender) (b : Buffer) (r : Bool × BufferPool)
    → s.send_buf ≡ some b
    → destroy_buffer b s.pool ≡ some r
    → destroy_send_buf s ≡ done (record s { send_buf = none; pool = r.1 })
unfolding destroy_send_buf
given_back s b r is e = rw (destroy_send_buf, is, e) refl

-- The body's buffer is given back.
pub destroy_send_buf_lem :
    (s : Sender) (b : Buffer)
    → s.send_buf ≡ some b
    → IsSized b
    → (pool : BufferPool) × (destroy_send_buf s ≡ done (record s { send_buf = none; pool = pool }))
destroy_send_buf_lem s b is v =
    let (r, e) = destroy_buffer_ends b s.pool v in (r.1, given_back s b r is e)
