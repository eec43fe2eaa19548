-- ===== src/Lib.antt =====
-- tinydbpp, a small SQL database in C++: its storage engine and the conditions of its statements.
--
-- A table is a file of pages of 4096 bytes. The pager (src/Pager) keeps some pages in buffers and
-- evicts the ones that nobody uses. The record manager (src/RecordManage/RecordManager.cpp) keeps
-- records of variable length in pages, and a dictionary page with a flag for each page; a table
-- description (src/RecordManage/TableManager.cpp) makes records of the values of the columns. A
-- B-tree (src/BTree) keeps its nodes and its data as records of such a table. The statements
-- (src/Parser/AST) turn conditions into checkers of the values of a record.
--
-- Base                 lists, tests, the outcome of a call, bytes in memory
-- Pager                Pager.cpp, Page.cpp: getPage, needOnePageQuota, getBuf, releaseBuf, writeBack
-- Pager.PerfMon        PagerPerfMon.h
-- Pager.Invariant      the invariant of a pager in lazy mode; Evict, Change, Cache, Buffers, GetBuf,
--                      Release and GetPage take the operations one by one
-- Pager.Buffer         the promises of getBuf and releaseBuf; Pager.Flush that of writeBackAll
-- Pager.Client         sequences of calls on a pager, and the array of pages that it stands for
-- Pager.Lifetime       the constructor and the destructors
-- Record.Page          tryInsert, getRecord, updateRecordNoResize and delOneRecord on one page
-- Record.Page.Blocks   a page as a sequence of blocks, and first fit on them
-- Record.Table         insert, getRecord, deleteRecord, updateRecordNoResize and updateOneRecord
-- Record.Table.Records the promises of the record manager
-- Record.Scan          select, del, update and getEmbedRecord, with selectUseChecker and
--                      traverseWithLocation of TableManager.cpp; its children have the promises
-- Description          addPattern, read and embed of TableManager.cpp
-- BTree.Node           BTree::Node and the two loops of searchNode
-- BTree.Layout         the bytes of a node's record; Bytes and Written are about them
-- BTree.Tree           the operations of BTree.h over an interface of the record manager, which
--                      BTree.Manager fills with the operations of Record.Table
-- BTree.Root           page 0 of an index
-- BTree.Shape          a tree as levels of entries; Pick, Lookup and Traversal are about get
--                      and traverseLeafNode on such a tree
-- BTree.Plus           BTreePlus.h; BTree.Visit has the traversals with a callback
-- Query                values, fields and conditions of Nodes.h and Nodes.cpp
-- Query.Clause         getChecker, assign and getChanger
-- Query.Select         getSelector and becomeLike
-- Table                insertInTable, selectUseIndex, deleteAndCollectItems and
--                      deleteAndCollectUseIndex of TableManager.cpp over an interface of the indexes, which
--                      Table.Trees fills with BTreePlus
-- Statement            exec of an insert statement, updateItems, and getNextAssignTableName
-- Statement.Execute    dfs and the select, update and delete statements; Statement.Next is about the
--                      next table of dfs
-- Statement.Index      CREATE INDEX and DROP INDEX
-- Statement.Result     the JSON object of a select statement; Statement.Arrays is about it
-- Schema               the text of page 0: CREATE TABLE in Nodes.cpp, and getTableDescription
-- Files                FileUtils.cpp over an interface of the operating system; Files.Disk fills it
-- Directory            TableManager: databases, the cache of descriptions, buildTable and dropTable
-- Directory.Exec       the statements on databases and whole tables, and setupBTree; its siblings
--                      are about these statements
--
-- A call ends in an Outcome: a value, a failed BOOST_ASSERT, undefined behaviour, or the end of the
-- model's fuel. The loop over the blocks of a page has 4096 rounds, of which each moves on by three
-- bytes or more; the loop over the pages of a table has one round for each page. A search down a
-- B-tree has a round for each level, as many as its caller gives, and dfs one for each table. Words
-- wrap where the code's do: shorts in a page, the unsigned counts and offsets of the pager, the casts
-- in a node's format, and the ints that count the users of a page and the calls of the performance
-- monitor. A page from 524287 on cannot be appended to a file, whose size is an int in the code.
--
-- For a pager, the file system is the size and the pages of a file; reads and writes that fail are not
-- modelled. For names it is the interface Files.Os, with its documented behaviour as hypotheses. The
-- file of an open pager is the pager's own until it is closed.
-- Logging is left out. The regular expressions of the standard library are a parameter. The model of
-- the record manager has the pages that the pager shows: the two are joined by what a page shows. A
-- location behind the end of the file, for which getEmbedRecord makes the file longer, is left out.
-- Not modelled: the lexer and the parser, and the interfaces for users. A stream of the standard library gives the words between spaces; the hash
-- of a string is a parameter.
pub mod Base
pub mod Pager
pub mod Record
pub mod Description
pub mod BTree
pub mod Query
pub mod Table
pub mod Statement
pub mod Schema
pub mod Files
pub mod Directory
