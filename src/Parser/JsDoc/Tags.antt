-- ===== src/Parser/JsDoc/Tags.antt =====
-- The tags of aoba/ast/jsdoc_tags.h with the syntax of their parameters, and the trees and error
-- codes of aoba/parser/jsdoc/jsdoc_parser.cc.
use aoba.Prelude.{ℕ, ◌+◌, Bool, true, false, ◌&&◌, List, [], ◌∷◌, ◌==◌, if◌then◌else◌}
use aoba.Ast.TokenKind.{codes}
use aoba.Parser.TypeSyntax.Parser.Nodes.{TypeTree}

-- `TagSyntax`; `no_parameter` is its `None`.
pub data TagSyntax : Type 0 where
  unknown description modifies name_list no_parameter single_line optional_type : TagSyntax
  type type_description type_names type_parameter_description : TagSyntax

-- `FOR_EACH_JSDOC_TAG_NAME`; the name table has each name behind an at sign.
abbrev pub tag_names : List (List ℕ × TagSyntax)
tag_names =
    (codes "@author", single_line)
    ∷ (codes "@const", optional_type)
    ∷ (codes "@constructor", no_parameter)
    ∷ (codes "@define", type_description)
    ∷ (codes "@deprecated", description)
    ∷ (codes "@dict", no_parameter)
    ∷ (codes "@enum", type)
    ∷ (codes "@export", optional_type)
    ∷ (codes "@extends", type)
    ∷ (codes "@externs", no_parameter)
    ∷ (codes "@fileoverview", description)
    ∷ (codes "@final", no_parameter)
    ∷ (codes "@implements", type)
    ∷ (codes "@implicitCast", no_parameter)
    ∷ (codes "@inheritDoc", no_parameter)
    ∷ (codes "@interface", no_parameter)
    ∷ (codes "@lends", type)
    ∷ (codes "@license", description)
    ∷ (codes "@modifies", modifies)
    ∷ (codes "@noalias", no_parameter)
    ∷ (codes "@nocollapse", no_parameter)
    ∷ (codes "@nocompile", no_parameter)
    ∷ (codes "@nosideeffects", no_parameter)
    ∷ (codes "@override", no_parameter)
    ∷ (codes "@package", no_parameter)
    ∷ (codes "@param", type_parameter_description)
    ∷ (codes "@preserve", description)
    ∷ (codes "@private", no_parameter)
    ∷ (codes "@protected", no_parameter)
    ∷ (codes "@public", no_parameter)
    ∷ (codes "@record", no_parameter)
    ∷ (codes "@return", type_description)
    ∷ (codes "@see", single_line)
    ∷ (codes "@struct", no_parameter)
    ∷ (codes "@suppress", name_list)
    ∷ (codes "@template", type_names)
    ∷ (codes "@this", type)
    ∷ (codes "@throws", type)
    ∷ (codes "@type", type)
    ∷ (codes "@typedef", type)
    ∷ (codes "@unrestricted", no_parameter)
    ∷ []

unfoldable pub same_name : List ℕ → List ℕ → Bool
same_name [] [] = true
same_name [] (d ∷ ds) = false
same_name (c ∷ cs) [] = false
same_name (c ∷ cs) (d ∷ ds) = c == d && same_name cs ds

unfoldable pub find_tag : List ℕ → List (List ℕ × TagSyntax) → TagSyntax
find_tag name [] = unknown
find_tag name ((tag, syntax) ∷ rest) = if same_name name tag then syntax else find_tag name rest

-- `TagSyntaxOf`, of the text of a name.
unfoldable pub tag_syntax_of : List ℕ → TagSyntax
tag_syntax_of name = find_tag name tag_names

-- `FOR_EACH_JSDOC_ERROR_CODE`.
pub data JsDocErrorCode : Type 0 where
  expect_arguments_or_this expect_lbrace expect_name expect_names : JsDocErrorCode
  expect_rbrace unknown_tag : JsDocErrorCode

-- `static_cast<int>(error_code)`, from `kJsDocErrorCodeBase`.
abbrev pub error_number : JsDocErrorCode → ℕ
error_number expect_arguments_or_this = 11000 + 1
error_number expect_lbrace = 11000 + 2
error_number expect_name = 11000 + 3
error_number expect_names = 11000 + 4
error_number expect_rbrace = 11000 + 5
error_number unknown_tag = 11000 + 6

-- Each tree has its range first. A name has its text, which the name table numbers.
mutual
  pub data JsDocTree : Type 0 where
    document : (start end : ℕ) → JsDocTrees → JsDocTree
    tag : (start end : ℕ) → JsDocTree → JsDocTrees → JsDocTree
    text : (start end : ℕ) → JsDocTree
    name : (start end : ℕ) → List ℕ → JsDocTree
    empty : (start end : ℕ) → JsDocTree
    type_name : (start end : ℕ) → JsDocTree → JsDocTree
    reference : (start end : ℕ) → JsDocTree → JsDocTree
    annotation : TypeTree → JsDocTree

  pub data JsDocTrees : Type 0 where
    nil : JsDocTrees
    push : JsDocTree → JsDocTrees → JsDocTrees

abbrev pub push_back : JsDocTrees → JsDocTree → JsDocTrees
push_back nil last = push last nil
push_back (push t ts) last = push t (push_back ts last)

abbrev pub is_empty : JsDocTrees → Bool
is_empty nil = true
is_empty (push t ts) = false

-- `name == ast::TokenKind::…`, of the text of a name.
abbrev pub is_named : List ℕ → JsDocTree → Bool
is_named word (name start end spelled) = same_name spelled word
is_named word tree = false

-- `node_factory().NewTypeName(name)`, over the range of the name.
abbrev pub new_type_name : JsDocTree → JsDocTree
new_type_name (name start end spelled) = type_name start end (name start end spelled)
new_type_name tree = tree

abbrev pub new_type_names : JsDocTrees → JsDocTrees
new_type_names nil = nil
new_type_names (push t ts) = push (new_type_name t) (new_type_names ts)

-- `maybe_name.Is<ast::Name>() ? NewReferenceExpression(maybe_name) : maybe_name`.
abbrev pub new_reference : JsDocTree → JsDocTree
new_reference (name start end spelled) = reference start end (name start end spelled)
new_reference tree = tree
