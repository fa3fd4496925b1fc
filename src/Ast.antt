-- ===== src/Ast.antt =====
-- Statements: the `Query` variant of include/VertexDB/parser/ast.hpp. SELECT, UPDATE and DELETE are
-- the records of Query.antt.
use the_city_crdb.Common.{Option, List, Text}
use the_city_crdb.Query.{Delete, Select, Update}
use the_city_crdb.Value.{Column, Row, Value}

pub data Query : Type 0 where
  create_database : (name : Text) → Query
  create_table : (name : Text) (columns : List Column) → Query
  drop_table : (name : Text) → Query
  rename_table : (old_name new_name : Text) → Query
  list_tables : Query
  insert : (table : Text) (rows : List Row) → Query
  select : (command : Select) → Query
  update : (command : Update) → Query
  delete : (command : Delete) → Query
  create_index : (name table column : Text) → Query
  save_database : Query
  load_database : (name : Option Text) → Query
  begin_transaction commit_transaction rollback_transaction : Query
  prepare_statement : (name sql : Text) → Query
  execute_prepared : (name : Text) (parameters : List Value) → Query
  exit : Query
