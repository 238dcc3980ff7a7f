-- ===== src/Buffer/Fixtures.antt =====
-- An allocator and a buffer for the tests.
use gearkit.Base.{refl, arith, none, replicate}
use gearkit.Buffer.{Buffer}
use gearkit.Buffer.Inv.{IsValid}
use gearkit.Buffer.Memory.{Allocator, IsAllocator}

-- An allocator that never grants a block.
abbrev pub refusing : Allocator
refusing = record { malloc = λ n. none; realloc = λ old n. none }

pub refusing-IsAllocator : IsAllocator refusing
refusing-IsAllocator = record {
  malloc-length = λ n e. cc;
  malloc-le = λ n e. cc;
  realloc-length = λ old n e. cc;
  realloc-le = λ old n e. cc;
  realloc-take = λ old n e. cc;
}

-- A buffer of 64 bytes with nothing in it.
abbrev pub sixty_four : Buffer
sixty_four = record { mem = replicate 64 0; capacity = 64; tail = 64; write_cur = 0; read_cur = 0 }

pub sixty_four-IsValid : IsValid sixty_four
sixty_four-IsValid = record {
  read_in = omega arith;
  write_in = omega arith;
  tail_in = omega arith;
  block = refl;
  small = omega arith;
}
