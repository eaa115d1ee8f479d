-- ===== src/Art.antt =====
-- src/kvspace.c, the adaptive radix tree from keys to boxes.
pub mod Node
pub mod Tree
pub mod Scan
pub mod ScanOrder
pub mod ScanLaws
pub mod ScanFuel
pub mod Children
