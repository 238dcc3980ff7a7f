-- ===== src/Array.antt =====
-- base/Array.h, class Array: slots by index, with the occupied ones linked in the order in which they
-- were filled.
pub mod Cells
pub mod Removed
pub mod Entries
pub mod Ops
pub mod Set
pub mod Del
pub mod Each
mod Tests
use gearkit.Base.{
  ℕ, zero, suc, ◌+◌, ◌-◌, List, [], ◌∷◌, Option, none, some, Bool, true, false, ◌==◌, ◌&&◌,
  if◌then◌else◌, get_elem?, replicate,
}
use gearkit.Base.{set as set_at}
use gearkit.Base.Run.{Run, done, fault, ◌>>=◌}

-- The indices in `next` and `prev` are from 0 up, and `none` is -1.
pub record Item {ℓ} (A : Type ℓ) : Type ℓ where
  pub next : Option ℕ
  pub prev : Option ℕ
  pub value : A

-- The members; `pos_` is not used. A place outside `array_` is a fault.
pub record Array {ℓ} (A : Type ℓ) : Type ℓ where
  pub count : ℕ
  pub head : Option ℕ
  pub tail : Option ℕ
  pub array : List (Item A)

abbrev pub is_zero : Option ℕ → Bool
is_zero none = false
is_zero (some i) = i == 0

-- `p == index`
abbrev pub is_at : Option ℕ → ℕ → Bool
is_at none index = false
is_at (some p) index = p == index

-- `if (head_ == -1) head_ = index`
abbrev pub or_index : Option ℕ → ℕ → Option ℕ
or_index none index = some index
or_index (some h) index = some h

module _ {ℓ} {A : Type ℓ} where
  abbrev pub item_empty : Item A → Bool
  item_empty item = is_zero item.next && is_zero item.prev

  abbrev pub empty_item : Item A → Item A
  empty_item item = record item { next = some 0; prev = some 0 }

  abbrev pub load : Option (Item A) → Run (Item A)
  load none = fault
  load (some item) = done item

  -- `if (p != -1) array_[p].next = n`
  unfoldable pub set_next : Option ℕ → Option ℕ → List (Item A) → Run (List (Item A))
  set_next none n arr = done arr
  set_next (some p) n arr =
      load (get_elem? arr p) >>= λ item. done (set_at arr p (record item { next = n }))

  -- `if (p != -1) array_[p].prev = n`
  unfoldable pub set_prev : Option ℕ → Option ℕ → List (Item A) → Run (List (Item A))
  set_prev none n arr = done arr
  set_prev (some p) n arr =
      load (get_elem? arr p) >>= λ item. done (set_at arr p (record item { prev = n }))

  -- `memset` of the whole array; `blank` is the value whose bytes are all 0.
  unfoldable pub clear : ℕ → A → Array A → Array A
  clear len blank a = record {
    count = 0;
    head = none;
    tail = none;
    array = replicate len (record { next = some 0; prev = some 0; value = blank });
  }

  -- `none` is the result `false`.
  unfoldable pub get : ℕ → Array A → Run (Option A)
  get index a = load (get_elem? a.array index) >>= λ item.
      done (if item_empty item then none else some item.value)

  -- The branch of `set` for an empty slot.
  unfoldable pub append : ℕ → A → Array A → Run (Array A)
  append index v a =
      let arr = set_at a.array index (record { next = none; prev = a.tail; value = v }) in
      set_next a.tail (some index) arr >>= λ arr'. done (record {
        count = a.count + 1;
        head = or_index a.head index;
        tail = some index;
        array = arr';
      })

  unfoldable pub set : ℕ → A → Array A → Run (Array A)
  set index v a = load (get_elem? a.array index) >>= λ item.
      if item_empty item
      then append index v a
      else done (record a { array = set_at a.array index (record item { value = v }) })

  -- `del` after its guard, with the item's `next` and `prev`.
  unfoldable pub unlink : ℕ → Option ℕ → Option ℕ → Array A → Run (Array A)
  unlink index next prev a = set_next prev next a.array >>= λ arr.
      set_prev next prev arr >>= λ arr'. load (get_elem? arr' index) >>= λ item. done (record {
        count = a.count - 1;
        head = if is_at a.head index then next else a.head;
        tail = if is_at a.tail index then prev else a.tail;
        array = set_at arr' index (empty_item item);
      })

  unfoldable pub del : ℕ → Array A → Run (Array A)
  del index a = load (get_elem? a.array index) >>= λ item.
      if item_empty item then done a else unlink index item.next item.prev a

  -- The loop from `begin()` to `end()`: the indices and values that it visits.
  unfoldable pub visit : ℕ → Option ℕ → List (Item A) → Run (List (ℕ × A))
  visit fuel none arr = done []
  visit zero (some index) arr = fault
  visit (suc fuel) (some index) arr = load (get_elem? arr index) >>= λ item.
      visit fuel item.next arr >>= λ rest. done ((index, item.value) ∷ rest)
