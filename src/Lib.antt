-- ===== src/Lib.antt =====
-- VertexDB, the SQL engine of this repository, as definitions and theorems about them.
--
-- The program reads SQL text, parses it to a command, and executes it against the tables of a
-- database. A table keeps its rows in a paged row store, whose pages pass through an LRU buffer
-- pool, and, beside them, the versions of each row for reads inside a transaction, and for each
-- index a hash index and a B+ tree over one column. SELECT plans an access path, through an index or
-- by a scan; UPDATE and DELETE scan a snapshot and change the table row by row.
--
-- Which file models what:
--   Value          src/common/value.cpp: Value, operator<, operator==, Column
--   Transaction    src/transaction/transaction_manager.cpp: begin, commit, rollback, find
--   Mvcc           src/transaction/mvcc_row_store.cpp: write, erase, read, visibleRows
--   HashIndex      src/indexing/hash_index.cpp: insert, remove, find
--   BTreeIndex     src/indexing/btree_index.cpp: insert, remove, find, lessThan, greaterThan,
--                  rebuildLayout
--   BufferPool     src/storage/buffer_pool.cpp: put, get, touch, evictIfNeeded
--   Bytes          src/storage/row_store.cpp: appendBytes, appendValue, the bytes of a page;
--                  Bytes/Reading: readBytes and readPod of src/persistence
--   RowStore       src/storage/row_store.cpp: PageRowStore; RowStore/Vector: VectorRowStore
--   Table          src/storage/table.cpp: reads and lookups; Table/Indexing: validateRow,
--                  addRowToIndexes, rebuildIndexes; Table/Mutation: insert, erase, update,
--                  createIndex, replaceRows
--   Query          src/planner/query_planner.cpp, and matches, collectRows, executeSelect without
--                  joins, executeUpdate and executeDelete of src/execution/query_executor.cpp
--   Database       src/storage/database.cpp: createTable, dropTable, renameTable, listTables, clone
--   Tokenizer      src/parser/tokenizer.cpp: tokenize
--   Decimal        integers in decimal: parseInt of src/parser/parser.cpp, Value::toString
--   Ast            include/VertexDB/parser/ast.hpp: the Query variant
--   Sql            src/execution/query_executor.cpp: sqlLiteral, predicateLiteral, the texts of the
--                  logged statements, the binding of prepared statements
--   Parser         src/parser/parser.cpp: values and predicates; Parser/Steps: peek, advance, match,
--                  expect and the comma loops; Parser/Statements: parse and the commands
--   WriteAheadLog  src/persistence/write_ahead_log.cpp: append, readAll, reset, nextLsn
--   FileSystem     the files of a directory, and what StorageManager asks of the file system
--   StorageManager src/persistence/storage_manager.cpp: saveDatabase, loadDatabase,
--                  loadFirstDatabase, metadataExists
--   Executor       src/execution/query_executor.cpp: executeBegin, executeCommit, executeRollback;
--                  Executor/Calls: appendWal, requireTable and the monad of the calls;
--                  Executor/Commands: the commands on the database and on one table, with their log
--                  records; Executor/Join: executeJoinSelect; Executor/Execute: execute,
--                  executeUnlocked, executePrepared, recoverFromStorage, recoverFromWal
--   Common         helpers: Boolean tests, lists over native numbers, texts as bytes, integers,
--                  errors, ordered maps
--   Tests          the theorems at concrete inputs
-- The other modules hold proofs, and are named for what they prove.
--
-- State is passed explicitly: a method takes the object and returns it changed. A method that throws
-- returns a Result, with one Error for each message of the code; where the code changes an object
-- and then throws, the object is returned beside the result. A std::map is a list sorted by its
-- comparator. An unordered_map is a list by equal keys for the hash index and, where no order can be
-- seen, a sorted list. A double is its IEEE 754 bit pattern, so equality and order of doubles are
-- exact, NaN and the two zeros included; theorems on ordered keys ask that no value is NaN. A
-- uint64 counter wraps at 2 ^ 64, the sizes of containers do not.
--
-- Fuel: the leaf loop of BTreeIndex.layout runs on the number of entries, since each leaf takes one
-- or more; the eviction loop of BufferPool on the number of pages; the loop of the tokenizer on the
-- number of bytes, of which each round takes one; the loops of the parser on the number of tokens, of
-- which each round and each nested predicate takes one; the loop of readAll on the number of bytes of
-- the file; the digits of a number on the number itself; Executor.Execute.execute on the depth of
-- prepared statements that execute others, which the code does not bound. The other loops recurse on
-- lists or on the rounds that are left. A loop that had too little fuel would return the error
-- out_of_fuel.
--
-- Parameters: std::ranges::sort in Query and Executor, std::stod and the printing of doubles in
-- Parser and Sql, the order in which StorageManager evaluates the arguments of a call, the listing of
-- its directory, and the FileSystem on which it saves, in which the writing, the renaming and the
-- removal of a file may fail. A file is its bytes. Making the storage directory and writing the file
-- of the log succeed. A column type in a saved file that is no enumerator is refused, where the code
-- would carry it on.
--
-- Not modelled: locks (one thread is modelled), the hash function of keys, the command line.
pub mod Common
pub mod Value
pub mod Transaction
pub mod Mvcc
pub mod HashIndex
pub mod BTreeIndex
pub mod BufferPool
pub mod Bytes
pub mod RowStore
pub mod Table
pub mod Query
pub mod Database
pub mod Tokenizer
pub mod Decimal
pub mod Ast
pub mod Sql
pub mod Parser
pub mod WriteAheadLog
pub mod FileSystem
pub mod StorageManager
pub mod Executor
pub mod Tests
