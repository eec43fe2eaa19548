-- ===== src/Record.antt =====
-- src/RecordManage/RecordManager.cpp: the record manager over the pages of a table file.
pub mod Page
pub mod Table
pub mod Scan
