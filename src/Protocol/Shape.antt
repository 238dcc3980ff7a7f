-- ===== src/Protocol/Shape.antt =====
-- Which values can be sent, what they look like on the wire, and what a receiver makes of them.
use gearkit.Base.{
  ℕ, suc, ◌+◌, ◌/◌, ◌^◌, ◌≤◌, ◌<◌, ◌≡◌, ◌≢◌, List, [], ◌++◌, Option, none, some, length, All,
}
use Prim.Native.Nat.{max}
use gearkit.Buffer.Varint.{u32, u64, bits}
use gearkit.Buffer.Varint.Leb.{Encodes}
use gearkit.Protocol.{
  PtData, PtDataVec, value, text, varint, bare, array, table, nil, null, item, size, size_of,
  add_data, nulls, clone, Fresh,
}

-- Values as their types allow them, texts without a zero, and no null pointer.
abbrev mutual
  pub IsSendable : PtData → Type 0
  IsSendable (value t x) = length x ≡ size_of t
  IsSendable (text s) = All (λ c. c ≢ 0) s × (length s < 2 ^ 62)
  IsSendable (varint v) = v < 2 ^ 32
  IsSendable (bare ds) = (size ds < 2 ^ 32) × AreSendable ds
  IsSendable (array d ds) = (size ds < 2 ^ 32) × AreSendable ds
  IsSendable (table ds) = AreSendable ds

  pub AreSendable : PtDataVec → Type 0
  AreSendable nil = Unit {0}
  AreSendable (null ds) = ⊥
  AreSendable (item d ds) = IsSendable d × AreSendable ds

-- A number of items or characters in front of their bytes.
abbrev pub Counted : ℕ → (List ℕ → Type 0) → List ℕ → Type 0
Counted n Body bytes =
    (count body : List ℕ) × Encodes count n
    × (length count ≤ bits u64 / 7 + 1)
    × Body body
    × (bytes ≡ count ++ body)

-- The bytes of a value.
abbrev mutual
  pub Coded : PtData → List ℕ → Type 0
  Coded (value t x) bytes = bytes ≡ x
  Coded (text s) bytes = Counted (length s) (λ body. body ≡ s) bytes
  Coded (varint v) bytes = Encodes bytes v × (length bytes ≤ bits u32 / 7 + 1)
  Coded (bare ds) bytes = Counted (size ds) (CodedAll ds) bytes
  Coded (array d ds) bytes = Counted (size ds) (CodedAll ds) bytes
  Coded (table ds) bytes = CodedAll ds bytes

  pub CodedAll : PtDataVec → List ℕ → Type 0
  CodedAll nil bytes = bytes ≡ []
  CodedAll (null ds) bytes = ⊥
  CodedAll (item d ds) bytes =
      (front back : List ℕ) × Coded d front × CodedAll ds back × (bytes ≡ front ++ back)

abbrev mutual
  pub height : PtData → ℕ
  height (value t x) = 1
  height (text s) = 1
  height (varint v) = 1
  height (bare ds) = suc (height_all ds)
  height (array d ds) = suc (height_all ds)
  height (table ds) = suc (height_all ds)

  pub height_all : PtDataVec → ℕ
  height_all nil = 0
  height_all (null ds) = height_all ds
  height_all (item d ds) = max (height d) (height_all ds)

module _ (fresh : Fresh) where
  -- The receiver `e` has a place for all of `d`: the same types, as many entries in each table, and
  -- in an array a template whose clone has a place for each item.
  abbrev mutual
    pub Fits : PtData → PtData → Type 0
    Fits (value t x) (value u y) = t ≡ u
    Fits (text x) (text y) = Unit {0}
    Fits (varint x) (varint y) = Unit {0}
    Fits (array e es) (bare ds) = (c : PtData) × (clone fresh e ≡ some c) × FitsItems c ds
    Fits (array e es) (array d ds) = (c : PtData) × (clone fresh e ≡ some c) × FitsItems c ds
    Fits (table es) (table ds) = FitsEach es ds
    Fits other d = ⊥

    pub FitsItems : PtData → PtDataVec → Type 0
    FitsItems c nil = Unit {0}
    FitsItems c (null ds) = ⊥
    FitsItems c (item d ds) = Fits c d × FitsItems c ds

    pub FitsEach : PtDataVec → PtDataVec → Type 0
    FitsEach nil nil = Unit {0}
    FitsEach (item e es) (item d ds) = Fits e d × FitsEach es ds
    FitsEach es ds = ⊥

  -- What the receiver holds afterwards. An array that received n items has n null pointers in front
  -- of them.
  abbrev mutual
    pub received : PtData → PtData → PtData
    received (value t x) (value u y) = value t y
    received (text x) (text y) = text y
    received (varint x) (varint y) = varint y
    received (array e es) (bare ds) = array e (received_onto (clone fresh e) (nulls (size ds)) ds)
    received (array e es) (array d ds) =
        array e (received_onto (clone fresh e) (nulls (size ds)) ds)
    received (table es) (table ds) = table (received_each es ds)
    received e d = e

    pub received_onto : Option PtData → PtDataVec → PtDataVec → PtDataVec
    received_onto none got ds = got
    received_onto (some c) got nil = got
    received_onto (some c) got (null ds) = got
    received_onto (some c) got (item d ds) = received_onto (some c) (add_data (received c d) got) ds

    pub received_each : PtDataVec → PtDataVec → PtDataVec
    received_each (item e es) (item d ds) = item (received e d) (received_each es ds)
    received_each es ds = es
