-- ===== src/Lib.antt =====
-- A model of yan, a C++ library that stores structs in SQLite and MongoDB without SQL.
--
-- A program declares its tables with the macros STRUCT and MEMBER. An object of such a class records
-- what the program does with its members: values that are assigned, and conditions that are written
-- as comparisons. The library turns what was recorded into a statement, keeps the prepared statement
-- under a key made from the condition, binds the values and runs it, on a connection from a pool.
--
-- Which file models which part:
--   Types: src/base/type.h, the enumerations and their texts; Types/Negation is about NOT.
--   Ref: src/base/ref.h and src/base/param.h. Ref/Word has the condition words, Ref/Param the
--   parameters, Ref/Struct the registration of structs and their members (YanStruct::add, get_member,
--   field_bridge, the register of temporary members) and Ref/Struct/Options the optional arguments
--   of MEMBER; Ref/Object has the classes that STRUCT and MEMBER define, one function per member
--   function or operator, and Ref/Object/Calls the use that a program makes of them. Ref/Nested has
--   the classes with members that are lists, structs and lists of structs (LIST_MEMBER and its kin):
--   their registers, and in Ref/Nested/Assign and Ref/Nested/Conds what is done within a struct and
--   reaches the objects around it (deepcb_, condcb_).
--   Cond: src/base/ref_ops.h, ReadCond, UpdateCond and JoinReadCond with their keys (hash_value).
--   RefOps: src/base/ref_ops.h, RefOps, ReadRefOps and ComReadRef, the walks over the parameters of
--   a condition and over the members of an object, each over the state of a member operation; and in
--   RefOps/Write, WriteRefOps and ComWriteRef, the walk that fills an object.
--   Sql: src/sqlite/sqlite_readref.h and .cpp. Sql/Table, Sql/Insert, Sql/Query, Sql/Update write
--   statements (Make…Sql), Sql/Bind binds values (BindSqlParam), and Sql/Fetch is
--   src/sqlite/sqlite_writeref.h, which makes an object of a row (FetchSqlResult).
--   Context: src/sqlite/sqlite_context.h, SqliteContext: the cache of prepared statements (execute),
--   the operations above it in Context/Keys, the loops over the rows (exec, exec_entity) in
--   Context/Rows, and the constructor in Context/Open. Context/Finalized is about which statements
--   are open (sqlite3_finalize).
--   ConnPool: src/com/conn_pool.h, the connections that threads share behind a spin lock.
--   ThreadPool: src/com/thread_pool.h and thread_pool.cpp: insert and submit, and in ThreadPool/Run
--   the callers, the workers and stop as steps that interleave.
--   Events: src/sqlite/sqlite_event.h, sqlite_union.h, sqlite_join.h and sqlite_copy.h: what the
--   handler of an event or a task does with a connection of the pool (Events/Write, Events/Queries),
--   and in Events/Calls, how a call of src/sqlite/sqlite.h becomes one (create_event, commit).
--   Mongo: src/mongo. Mongo itself has the filters (MakeCondBson of mongo_readref.h), Mongo/Document
--   the documents, Mongo/Write how an object makes one (MakeWriteBson, over the nested walk of
--   ReadRefOps), Mongo/Fetch how one fills an object (mongo_writeref.h, over that of WriteRefOps),
--   Mongo/Client is mongo_context.h, and Mongo/Events mongo_event.h and mongo.h.
--   Prelude: what these share. Examples: tests, and the theorems at concrete inputs.
--
-- How the code is modelled. A std::string is a list of bytes. A function that may throw returns a
-- Result: `runtime_error` carries the message, and `undefined` stands for a failed assertion or an
-- access out of range. The three kinds of state are explicit: an object (the assigned set, the
-- conditions, the hash and the members, in a nest objects again), the context of a writer of a
-- statement, and a connection with its cache. Members are known by their sequence numbers, so
-- addresses and offsets do not appear; a `YanStruct *` is a number, and is compared as one.
-- Condition words are 16 bits wide and their fields 8. A loop over a list is structural recursion, and
-- a walk over a nest recurses on the description of the class. The loops over the rows of a statement
-- end when SQLite says so: they run on fuel, one for a step, and it is enough that there is one more
-- than there are rows. The counter of a thread pool is 32 bits wide, and so is the number of entities
-- of an event of SQLite; the integers that are converted into text are unbounded.
--
-- Threads are modelled by their steps (ConnPool, ThreadPool/Run), one access to what they share at a
-- time, and interleave freely. A connection belongs to the thread that was given it: a program that
-- keeps a copy of the shared pointer behind a release is not modelled. The library runs its events
-- in a pool of one thread, so Events runs one after the other, and what a handler puts into its
-- promise is its result.
--
-- What is a parameter: sqlite3 (the record Sqlite: prepare, finalize, reset, the texts of errors, the
-- codes of the binding functions, the steps and the columns of a row), the concurrent queue of the
-- thread pool (the record Queue with its laws IsQueue), mongocxx (the record Mongocxx), the
-- lookups and getters of bsoncxx (the record Getters with its GettersLaws, over documents that are
-- trees of the fields streamed), std::to_string of floating point numbers, what `sizecb_` returns,
-- and the order in which a compiler evaluates `read_stmts_[hash] = create_stmt(…)`.
--
-- What is not modelled: the object that COND() of a list of structs allocates, whose conditions go the
-- way of those of a nested struct; that a copy of an object keeps pointers to the original; that a
-- condition shares the parameters of its object, so that a comparison made on the object after the
-- call would change them; the
-- futures and promises of boost; that a union, a join or a copy keeps itself alive; a task that
-- throws, which ends the program; and running out of memory. The logger and the macros around boost
-- and the standard library have no behaviour to model.
pub mod Prelude
pub mod Types
pub mod Ref
pub mod Cond
pub mod RefOps
pub mod Sql
pub mod Context
pub mod ConnPool
pub mod ThreadPool
pub mod Events
pub mod Mongo
pub mod Examples
