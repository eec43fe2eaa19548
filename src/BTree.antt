-- ===== src/BTree.antt =====
-- src/BTree/BTree.h and src/BTree/BTreePlus.h.
pub mod Node
pub mod Layout
pub mod Bytes
pub mod Tree
pub mod Search
pub mod Formats
pub mod Split
pub mod Plus
pub mod Root
pub mod Visit
pub mod Values
pub mod Shape
pub mod Pick
pub mod Lookup
pub mod Traversal
pub mod Manager
pub mod Written
pub mod Examples
