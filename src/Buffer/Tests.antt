-- ===== src/Buffer/Tests.antt =====
-- An allocator, runs of the buffer, and the theorems at concrete inputs.
use Prim.Native.Nat.{min}
use gearkit.Base.{
  ℕ, zero, suc, ◌+◌, ◌-◌, ◌/◌, ◌^◌, ◌≤◌, ◌<◌, ◌≡◌, refl, sym, ap, ◌∙◌, arith, List, [], ◌∷◌, ◌++◌,
  some, none, true, false, leb, if◌then◌else◌, length, take, replicate, length-append, length-take,
  length-replicate,
}
use gearkit.Base.Run.{done, Returns}
use gearkit.Base.Slices.{take-take}
use gearkit.Buffer.{
  Buffer, create, expand_buffer, reserve_buffer, write_buffer, read_buffer, compact,
  get_readable_size, get_read_size, get_written_size, get_writable_size, get_size,
}
use gearkit.Buffer.Memory.{Allocator, IsAllocator, max_block, copy_in, copy_out}
use gearkit.Buffer.Inv.{IsValid, content, sizes}
use gearkit.Buffer.Reserve.{Reserved, reserve_buffer-Reserved}
use gearkit.Buffer.Write.{Written, write_buffer-Written}
use gearkit.Buffer.Read.{read_buffer_over}
use gearkit.Buffer.Varint.{
  u8, u32, u64, bits, groups, end_last, write_varuint, read_varuint, read_groups, add_group,
  next_shift,
}
use gearkit.Buffer.Varint.Leb.{Encodes}
use gearkit.Buffer.Varint.Encode.{write_varuint_lem}
use gearkit.Buffer.Varint.RoundTrip.{read_varuint-write_varuint}

-- An allocator that clears its blocks, and refuses only what no object can have.
abbrev zeroed : Allocator
zeroed = record {
  malloc = λ n. if leb n max_block then some (replicate n 0) else none;
  realloc =
      λ old n. if leb n max_block then some (take n old ++ replicate (n - length old) 0) else none;
}

take-append_le : (n : ℕ) (xs ys : List ℕ) → n ≤ length xs → take n (xs ++ ys) ≡ take n xs
take-append_le zero xs ys h = refl
take-append_le (suc n) [] ys h = elim h [ ]
take-append_le (suc n) (x ∷ xs) ys h = ap (λ l. x ∷ l) (take-append_le n xs ys (omega arith))

granted :
    (n : ℕ) (block : List ℕ) {m : List ℕ}
    → (if leb n max_block then some block else none) ≡ some m
    → (n ≤ max_block) × (block ≡ m)
granted n block e = ground arith

zeroed-IsAllocator : IsAllocator zeroed
zeroed-IsAllocator = record {
  malloc-length = λ n e. sym (ap length (granted n _ e).1) ∙ length-replicate {A = ℕ} n 0;
  malloc-le = λ n e. (granted n _ e).0;
  realloc-length = λ old n e.
      sym (ap length (granted n _ e).1)
      ∙ length-append (take n old) (replicate (n - length old) 0)
      ∙ omega (arith, length-take n old, length-replicate {A = ℕ} (n - length old) 0);
  realloc-le = λ old n e. (granted n _ e).0;
  realloc-take = λ old n e.
      sym (ap (take (min (length old) n)) (granted n _ e).1)
      ∙ take-append_le (min (length old) n) (take n old) _ (omega (arith, length-take n old))
      ∙ take-take (min (length old) n) n old (omega arith);
}

-- Eight bytes, of which three were read and two wait.
abbrev used : Buffer
used = record {
  capacity = 8;
  mem = 1 ∷ 2 ∷ 3 ∷ 4 ∷ 5 ∷ 0 ∷ 0 ∷ 0 ∷ [];
  tail = 8;
  write_cur = 5;
  read_cur = 3;
}

used-IsValid : IsValid used
used-IsValid = omega arith

-- A line for what a test of the buffer unfolds.
program : Unit {0}
unfolding create expand_buffer reserve_buffer write_buffer read_buffer compact copy_in copy_out
    groups end_last read_groups add_group next_shift
program = tt

-- Six bytes fit only after the two that wait have moved to the front; nine go to a larger block.
runs :
    (write_buffer zeroed (6 ∷ 7 ∷ []) used
      ≡ done (true, record used { mem = 1 ∷ 2 ∷ 3 ∷ 4 ∷ 5 ∷ 6 ∷ 7 ∷ 0 ∷ []; write_cur = 7 }))
    × (write_buffer zeroed (6 ∷ 7 ∷ 8 ∷ 9 ∷ 10 ∷ 11 ∷ []) used
        ≡ done (
          true,
          record used { mem = 4 ∷ 5 ∷ 6 ∷ 7 ∷ 8 ∷ 9 ∷ 10 ∷ 11 ∷ []; write_cur = 8; read_cur = 0 },
        ))
    × (read_buffer 2 used ≡ done (true, 4 ∷ 5 ∷ [], record used { read_cur = 5 }))
    × (read_buffer 3 used ≡ done (true, 4 ∷ 5 ∷ 0 ∷ [], record used { read_cur = 6 }))
    × (read_buffer 6 used ≡ done (false, [], used))
unfolding program
runs = (refl, refl, refl, refl, refl)

varint_runs :
    (groups 5 300 ≡ done (0xac ∷ 0x82 ∷ []))
    × (end_last (0xac ∷ 0x82 ∷ []) ≡ 0xac ∷ 0x02 ∷ [])
    × (read_groups u32 (0xac ∷ 0x02 ∷ []) 2 0 0 0 ≡ done (true, 300, 2))
    × (read_groups u8 (0xac ∷ 0x02 ∷ []) 2 0 0 0 ≡ done (true, 44, 2))
    × (read_groups u32 (0xac ∷ []) 1 0 0 0 ≡ done (false, 44, 1))
unfolding program
varint_runs = (refl, refl, refl, refl, refl)

sizes_example :
    (get_readable_size used ≡ 2)
    × (get_read_size used + get_readable_size used ≡ get_written_size used)
    × (get_written_size used + get_writable_size used ≡ get_size used)
sizes_example = sizes used-IsValid

reserve_buffer-Reserved_example : Returns (reserve_buffer zeroed 6 used) (Reserved 6 used)
reserve_buffer-Reserved_example =
    reserve_buffer-Reserved zeroed zeroed-IsAllocator 6 used-IsValid (omega arith)

write_buffer-Written_example :
    Returns (write_buffer zeroed (6 ∷ 7 ∷ []) used) (Written (6 ∷ 7 ∷ []) used)
write_buffer-Written_example =
    write_buffer-Written zeroed zeroed-IsAllocator (6 ∷ 7 ∷ []) used-IsValid (omega arith)

read_buffer_over_example :
    Returns
      (read_buffer 3 used)
      λ r. (r.0 ≡ true) × (r.2.write_cur < r.2.read_cur) × (2 ^ 63 ≤ get_readable_size r.2)
read_buffer_over_example = read_buffer_over 3 used-IsValid (omega arith) (omega arith)

abbrev over_read : Buffer
over_read = record used { read_cur = 6 }

write_varuint_lem_example : Returns (write_varuint zeroed u32 300 used) λ r.
    (bytes : List ℕ) × Encodes bytes 300
    × (length bytes ≤ bits u32 / 7 + 1)
    × Written bytes used r
    × (5 + 10 ≤ 8 → r.0 ≡ true)
write_varuint_lem_example =
    write_varuint_lem zeroed u32 300 zeroed-IsAllocator used-IsValid (omega arith) (omega arith)

-- 300 and then a byte that belongs to something else.
abbrev encoded : Buffer
encoded = record used { mem = 1 ∷ 2 ∷ 0xac ∷ 0x02 ∷ 5 ∷ 0 ∷ 0 ∷ 0 ∷ []; read_cur = 2 }

abbrev drained : Buffer
drained = record used { read_cur = 5 }

read_varuint-write_varuint_example : Returns (write_varuint zeroed u64 300 drained) λ r.
    (5 + 10 ≤ 8 → r.0 ≡ true)
    × (r.0 ≡ true
        → Returns
            (read_varuint u64 r.1)
            λ s. (s.0 ≡ true) × (s.1 ≡ 300) × IsValid s.2 × (content s.2 ≡ []))
read_varuint-write_varuint_example =
    read_varuint-write_varuint zeroed u64 300 zeroed-IsAllocator (omega arith) refl (omega arith)
      (omega arith)
