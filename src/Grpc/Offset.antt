-- ===== src/Grpc/Offset.antt =====
-- Offsets of a ledger, daml-grpc/src/data/offset.rs.
use rust_daml_bindings.Base.{Bool}
use rust_daml_bindings.Base.Int.{ℤ, pos, int_eq}

pub record DamlLedgerOffset : Type 0 where
  pub value : ℤ

abbrev pub new_offset : ℤ → DamlLedgerOffset
new_offset offset = record { value = offset }

-- `DamlLedgerOffset::BEGIN`.
abbrev pub begin : DamlLedgerOffset
begin = record { value = pos 0 }

abbrev pub is_begin : DamlLedgerOffset → Bool
is_begin o = int_eq o.value (pos 0)

pub data DamlLedgerOffsetType : Type 0 where
  unbounded : DamlLedgerOffsetType
  bounded : DamlLedgerOffset → DamlLedgerOffsetType
