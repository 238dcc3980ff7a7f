-- ===== src/Buffer/Memory.antt =====
-- The C library's allocator, and copies into and out of a block.
use Prim.Native.Nat.{min}
use gearkit.Base.{
  ℕ, ◌+◌, ◌-◌, ◌^◌, ◌≤◌, ◌≡◌, List, ◌++◌, Option, some, leb, if◌then◌else◌, length, take, drop,
}
use gearkit.Base.Run.{Run, done, fault}

-- `malloc` and `realloc`; `none` is NULL. What the bytes of a new block are is up to them.
pub record Allocator : Type 0 where
  pub malloc : ℕ → Option (List ℕ)
  pub realloc : List ℕ → ℕ → Option (List ℕ)

-- No object is larger than PTRDIFF_MAX.
abbrev pub max_block : ℕ
max_block = 2 ^ 63 - 1

-- What the C standard says of them: a block has the size that was asked for, and `realloc` keeps
-- the bytes up to the lesser of the two sizes.
pub record IsAllocator (alloc : Allocator) : Type 0 where
  pub malloc-length : (n : ℕ) {m : List ℕ} → alloc.malloc n ≡ some m → length m ≡ n
  pub malloc-le : (n : ℕ) {m : List ℕ} → alloc.malloc n ≡ some m → n ≤ max_block
  pub realloc-length :
      (old : List ℕ) (n : ℕ) {m : List ℕ} → alloc.realloc old n ≡ some m → length m ≡ n
  pub realloc-le :
      (old : List ℕ) (n : ℕ) {m : List ℕ} → alloc.realloc old n ≡ some m → n ≤ max_block
  pub realloc-take :
      (old : List ℕ) (n : ℕ) {m : List ℕ}
      → alloc.realloc old n ≡ some m
      → take (min (length old) n) m ≡ take (min (length old) n) old

-- `memcpy(block + at, bytes, length bytes)`
unfoldable pub copy_in : List ℕ → ℕ → List ℕ → Run (List ℕ)
copy_in block at bytes =
    if leb (at + length bytes) (length block)
    then done (take at block ++ (bytes ++ drop (at + length bytes) block))
    else fault

-- The bytes that `memcpy(buf, block + at, n)` copies.
unfoldable pub copy_out : List ℕ → ℕ → ℕ → Run (List ℕ)
copy_out block at n = if leb (at + n) (length block) then done (take n (drop at block)) else fault
