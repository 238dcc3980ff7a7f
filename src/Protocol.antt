-- ===== src/Protocol.antt =====
-- network/Protocol.h and network/Protocol.cpp: the values that a protocol is made of, how they are
-- written to a buffer and read from one.
pub mod Shape
pub mod Cost
pub mod Write
pub mod Read
pub mod Resend
mod Tests
use gearkit.Base.{
  ℕ, zero, suc, length, replicate, ◌+◌, ◌^◌, List, [], ◌∷◌, Option, none, some, Bool, true, false,
  ltb, if◌then◌else◌,
}
use gearkit.Base.Run.{Run, done, fault, ◌>>=◌}
use gearkit.Buffer.{Buffer}
use gearkit.Buffer.Memory.{Allocator}
use gearkit.Buffer.Stream.{write_plain, read_plain, write_string, read_string}
use gearkit.Buffer.Varint.{u32, u64, write_varuint, read_varuint}

-- PTType; the constructors are those that a value has, and the source's NONE and MAX.
pub data PtType : Type 0 where
  none_type int8 uint8 int16 uint16 int32 uint32 int64 uint64 : PtType
  varint_type string_type array_type table_type max_type : PtType

-- The subclasses of PTData, each with its members. `value` is PTValue<T> of a plain type with the
-- bytes of `value_`, `text` is PTValue<std::string>, and an array has a template or is `bare`.
-- Pointers are not shared here: a value is held by value, and the reference counts and the keys
-- are left out.
mutual
  pub data PtData : Type 0 where
    value : PtType → List ℕ → PtData
    text : List ℕ → PtData
    varint : ℕ → PtData
    bare : PtDataVec → PtData
    array : PtData → PtDataVec → PtData
    table : PtDataVec → PtData

  -- PTDataVec; `null` is a null pointer in front of the others.
  pub data PtDataVec : Type 0 where
    nil : PtDataVec
    null : PtDataVec → PtDataVec
    item : PtData → PtDataVec → PtDataVec

-- `sizeof(T)`
abbrev pub size_of : PtType → ℕ
size_of int8 = 1
size_of uint8 = 1
size_of int16 = 2
size_of uint16 = 2
size_of int32 = 4
size_of uint32 = 4
size_of int64 = 8
size_of uint64 = 8
size_of other = 0

abbrev pub size : PtDataVec → ℕ
size nil = 0
size (null ds) = suc (size ds)
size (item d ds) = suc (size ds)

-- `push_back`
abbrev pub add_data : PtData → PtDataVec → PtDataVec
add_data d nil = item d nil
add_data d (null ds) = null (add_data d ds)
add_data d (item e ds) = item e (add_data d ds)

-- `resize` of an empty vector
abbrev pub nulls : ℕ → PtDataVec
nulls zero = nil
nulls (suc n) = null (nulls n)

-- What a value holds that is created and not set: the bytes of a plain one, and the number of a
-- varint.
pub record Fresh : Type 0 where
  pub bytes : ℕ → List ℕ
  pub number : ℕ

-- PTValue::clone and PTVarint::clone, whose values stay unset.
abbrev pub clone_value : Fresh → PtType → Option PtData
clone_value fresh t = some (value t (fresh.bytes (size_of t)))

abbrev pub clone_varint : Fresh → Option PtData
clone_varint fresh = some (varint fresh.number)

-- `clone`; `none` is NULL.
unfoldable pub clone : Fresh → PtData → Option PtData
clone fresh (value t bytes) = clone_value fresh t
clone fresh (text s) = some (text [])
clone fresh (varint v) = clone_varint fresh
clone fresh (bare ds) = some (bare nil)
clone fresh (array d ds) = elim (clone fresh d) [
  | none ↦ some (bare nil)
  | some e ↦ some (array e nil)
]
clone fresh (table ds) = none

-- `createPTData`; a type without an entry in the table of functions is none.
unfoldable pub create_pt_data : Fresh → PtType → Option PtData
create_pt_data fresh none_type = none
create_pt_data fresh max_type = none
create_pt_data fresh varint_type = some (varint fresh.number)
create_pt_data fresh string_type = some (text [])
create_pt_data fresh array_type = some (bare nil)
create_pt_data fresh table_type = some (table nil)
create_pt_data fresh t = some (value t (fresh.bytes (size_of t)))

-- `setTemplate`; a null pointer takes the template away.
pub set_template : Option PtData → PtData → PtData
set_template none (array d ds) = bare ds
set_template none d = d
set_template (some e) (array d ds) = array e ds
set_template (some e) (bare ds) = array e ds
set_template (some e) d = d

-- PTValue::resetValue
abbrev pub reset_plain : PtType → PtData
reset_plain t = value t (replicate (size_of t) 0)

-- `resetValue`: a plain value becomes 0. A null pointer in a table is a fault.
unfoldable mutual
  pub reset_value : PtData → Run PtData
  reset_value (value t bytes) = done (reset_plain t)
  reset_value (text s) = done (text [])
  reset_value (varint v) = done (varint 0)
  reset_value (bare ds) = done (bare nil)
  reset_value (array d ds) = done (array d nil)
  reset_value (table ds) = reset_all ds >>= λ ds'. done (table ds')

  pub reset_all : PtDataVec → Run PtDataVec
  reset_all nil = done nil
  reset_all (null ds) = fault
  reset_all (item d ds) = reset_value d >>= λ d'. reset_all ds >>= λ ds'. done (item d' ds')

-- `addData` and `delData` of a table; `same` compares pointers.
pub add_to_table : PtData → PtData → PtData
add_to_table d (table ds) = table (add_data d ds)
add_to_table d (array e ds) = array e (add_data d ds)
add_to_table d (bare ds) = bare (add_data d ds)
add_to_table d other = other

pub del_data : (PtData → Bool) → PtDataVec → PtDataVec
del_data same nil = nil
del_data same (null ds) = null (del_data same ds)
del_data same (item d ds) = let rest = del_data same ds in if same d then ds else item d rest

-- PTValue::serialize and PTVarint::serialize
abbrev pub serialize_value : Allocator → List ℕ → Buffer → Run (Bool × Buffer)
serialize_value alloc bytes b = write_plain alloc bytes b

abbrev pub serialize_varint : Allocator → ℕ → Buffer → Run (Bool × Buffer)
serialize_varint alloc v b = write_varuint alloc u32 v b

-- `serialize`; a null pointer is a fault.
unfoldable mutual
  pub serialize : Allocator → PtData → Buffer → Run (Bool × Buffer)
  serialize alloc (value t bytes) b = serialize_value alloc bytes b
  serialize alloc (text s) b = write_string alloc s b
  serialize alloc (varint v) b = serialize_varint alloc v b
  serialize alloc (bare ds) b = write_varuint alloc u64 (size ds) b >>= λ r. elim r.0 [
    | true ↦ serialize_all alloc ds r.1
    | false ↦ done (false, r.1)
  ]
  serialize alloc (array d ds) b = write_varuint alloc u64 (size ds) b >>= λ r. elim r.0 [
    | true ↦ serialize_all alloc ds r.1
    | false ↦ done (false, r.1)
  ]
  serialize alloc (table ds) b = serialize_all alloc ds b

  pub serialize_all : Allocator → PtDataVec → Buffer → Run (Bool × Buffer)
  serialize_all alloc nil b = done (true, b)
  serialize_all alloc (null ds) b = fault
  serialize_all alloc (item d ds) b = serialize alloc d b >>= λ r. elim r.0 [
    | true ↦ serialize_all alloc ds r.1
    | false ↦ done (false, r.1)
  ]

-- `unserialize` of something in one of these is passed to the loops.
abbrev pub Reader : Type 0
Reader = PtData → Buffer → Run (Bool × PtData × Buffer)

-- The loop of PTTable::unserialize.
unfoldable pub read_each : Reader → PtDataVec → Buffer → Run (Bool × PtDataVec × Buffer)
read_each read nil b = done (true, nil, b)
read_each read (null ds) b = fault
read_each read (item d ds) b = read d b >>= λ r. elim r.0 [
  | true ↦ read_each read ds r.2 >>= λ s. done (s.0, item r.1 s.1, s.2)
  | false ↦ done (false, item r.1 ds, r.2)
]

-- The loop of PTArray::unserialize: `left` rounds, each with a clone of the template.
unfoldable pub read_items :
    Reader → Option PtData → ℕ → PtDataVec → Buffer → Run (Bool × PtDataVec × Buffer)
read_items read template zero ds b = done (true, ds, b)
read_items read none (suc left) ds b = done (false, ds, b)
read_items read (some d) (suc left) ds b = read d b >>= λ r. elim r.0 [
  | true ↦ read_items read (some d) left (add_data r.1 ds) r.2
  | false ↦ done (false, ds, r.2)
]

-- PTArray::unserialize after the length is read: `clear`, `resize` and the loop. The counter has 32
-- bits: it never meets a length from 2 ^ 32 on, and the memory runs out.
unfoldable pub read_array :
    Reader → Option PtData → PtData → Bool × ℕ × Buffer → PtDataVec → Run (Bool × PtData × Buffer)
read_array read template d (false, len, b) ds = done (false, array d ds, b)
read_array read template d (true, len, b) ds =
    if ltb len (2 ^ 32)
    then (read_items read template len (nulls len) b >>= λ r. done (r.0, array d r.1, r.2))
    else fault

-- What a read leaves of the value: plain values and texts keep theirs where it fails.
abbrev pub value_read : PtType → List ℕ → Bool × List ℕ × Buffer → Bool × PtData × Buffer
value_read t bytes (true, out, b) = (true, value t out, b)
value_read t bytes (false, out, b) = (false, value t bytes, b)

abbrev pub text_read : List ℕ → Bool × List ℕ × Buffer → Bool × PtData × Buffer
text_read s (true, out, b) = (true, text out, b)
text_read s (false, out, b) = (false, text s, b)

-- PTValue::unserialize and PTVarint::unserialize
abbrev pub unserialize_value : PtType → List ℕ → Buffer → Run (Bool × PtData × Buffer)
unserialize_value t bytes b = read_plain (size_of t) b >>= λ r. done (value_read t bytes r)

abbrev pub unserialize_varint : Buffer → Run (Bool × PtData × Buffer)
unserialize_varint b = read_varuint u32 b >>= λ r. done (r.0, varint r.1, r.2)

-- `unserialize`, with fuel for the depth of the templates; out of fuel is a fault too.
unfoldable pub unserialize : Fresh → ℕ → PtData → Buffer → Run (Bool × PtData × Buffer)
unserialize fresh zero d b = fault
unserialize fresh (suc fuel) (value t bytes) b = unserialize_value t bytes b
unserialize fresh (suc fuel) (text s) b = read_string b >>= λ r. done (text_read s r)
unserialize fresh (suc fuel) (varint v) b = unserialize_varint b
unserialize fresh (suc fuel) (bare ds) b = done (false, bare ds, b)
unserialize fresh (suc fuel) (array d ds) b =
    read_varuint u64 b >>= λ r. read_array (unserialize fresh fuel) (clone fresh d) d r ds
unserialize fresh (suc fuel) (table ds) b =
    read_each (unserialize fresh fuel) ds b >>= λ r. done (r.0, table r.1, r.2)
