-- ===== src/Parser/TypeSyntax/Parser/Nodes.antt =====
-- The trees that aoba/parser/type/type_parser.cc builds.
use aoba.Prelude.{ℕ, Bool, true, false}

pub data FunctionTypeKind : Type 0 where
  normal_function new_function this_function : FunctionTypeKind

-- Each tree has its range first. `type_name` and `name` are over the token of the name; a function
-- has the range of its parameter list before the parameters, as an application has that of its
-- arguments.
mutual
  pub data TypeTree : Type 0 where
    any_type : (start end : ℕ) → TypeTree
    unknown_type : (start end : ℕ) → TypeTree
    invalid_type : (start end : ℕ) → TypeTree
    void_type : (start end : ℕ) → TypeTree
    name : (start end : ℕ) → TypeTree
    type_name : (start end : ℕ) → TypeTree
    member_type : (start end : ℕ) → TypeTree → TypeTree → TypeTree
    nullable_type : (start end : ℕ) → TypeTree → TypeTree
    non_nullable_type : (start end : ℕ) → TypeTree → TypeTree
    optional_type : (start end : ℕ) → TypeTree → TypeTree
    rest_type : (start end : ℕ) → TypeTree → TypeTree
    type_group : (start end : ℕ) → TypeTree → TypeTree
    property : (start end : ℕ) → TypeTree → TypeTree → TypeTree
    record_type : (start end : ℕ) → TypeTrees → TypeTree
    tuple_type : (start end : ℕ) → TypeTrees → TypeTree
    union_type : (start end : ℕ) → TypeTrees → TypeTree
    tuple : (start end : ℕ) → TypeTrees → TypeTree
    type_application : (start end : ℕ) → TypeTree → TypeTree → TypeTree
    function_type : (start end : ℕ) → FunctionTypeKind → TypeTree → TypeTree → TypeTree

  pub data TypeTrees : Type 0 where
    nil : TypeTrees
    push : TypeTree → TypeTrees → TypeTrees

-- `push_back`.
abbrev pub push_back : TypeTrees → TypeTree → TypeTrees
push_back nil last = push last nil
push_back (push t ts) last = push t (push_back ts last)

abbrev pub is_empty : TypeTrees → Bool
is_empty nil = true
is_empty (push t ts) = false
