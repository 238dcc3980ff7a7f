-- ===== src/Protocol/Cost.antt =====
-- How many bytes a value takes at most.
use gearkit.Base.{ℕ, ◌+◌, length}
use gearkit.Protocol.{PtData, PtDataVec, value, text, varint, bare, array, table, nil, null, item}

abbrev mutual
  pub cost : PtData → ℕ
  cost (value t x) = length x
  cost (text s) = 10 + length s
  cost (varint v) = 10
  cost (bare ds) = 10 + cost_all ds
  cost (array d ds) = 10 + cost_all ds
  cost (table ds) = cost_all ds

  pub cost_all : PtDataVec → ℕ
  cost_all nil = 0
  cost_all (null ds) = cost_all ds
  cost_all (item d ds) = cost d + cost_all ds
