-- ===== src/Lib.antt =====
-- A verification library for aoba, an analyzer of JavaScript in C++: the lexers, the parsers of
-- scripts, of regular expressions, of types and of JSDoc comments, and what they stand on.
--
-- The program reads a source file (base/source_code.h), cuts it into tokens (parser/lexer), parses
-- the tokens (parser/parser*.cc), resolves names and types (analyzer) and reports errors with their
-- line and column. Regular expressions and the types of JSDoc comments have lexers of their own over
-- a part of the same text. All paths are from the repository's root.
--
-- Prelude, Prelude/*: library names passed on, Boolean tests of numbers, lists over the native
--   numbers, integers.
-- Base/LineNumberCache: aoba/base/line_number_cache.{h,cc}. `get` is `LineNumberCache::Get` with the
--   cache passed on explicitly; the binary search of std::lower_bound is the search of the first
--   offset that is not smaller, which is what it is documented to return.
-- Base/SourceCodeRange: aoba/base/source_code_range.{h,cc}; the DCHECKs of the constructor are
--   `IsValid`.
-- Base/Zone: aoba/base/memory/zone.cc; the addresses of a zone are a segment's number and an offset,
--   size_t arithmetic is modulo 2 ^ 64. The endless loop of `Allocate` has two rounds of fuel: a
--   segment made for a request has room for it.
-- Base/EscapedStringPiece: aoba/base/escaped_string_piece.{h,cc}.
-- Base/GraphSorter: aoba/base/graphs/graph_sorter.h, with the successors of a node as a parameter;
--   `visit` has fuel for its depth; that the number of nodes is enough of it is not proved, and the
--   theorem holds for any fuel.
-- Base/DoubleLinked: aoba/base/double_linked.h, with the links as two functions on addresses; `none`
--   is the address of the list object, so that its first and last node are its own links. The owner
--   that debug builds keep in a node is not modelled. Refines has the sequence that it stands for,
--   Insert and Append the list with a node more, Loops the two loops, which have fuel for
--   as many rounds as there are nodes. `Count` counts in an int, whose overflow is not modelled.
-- Ast/TokenKind: the punctuators of aoba/ast/lexical_grammar.h, with their texts.
-- Parser/Utils/LexerUtils: the character classes of aoba/parser/utils/lexer_utils.{h,cc}.
-- Parser/Utils/CharacterReader: aoba/parser/utils/character_reader.{h,cc}, a text split at the
--   location. A failed DCHECK (no character to consume) sets `fault`. `fold_while` and `skip_while`
--   are the loops `while (CanPeekChar() && p(PeekChar()))`.
-- Parser/Utils/BracketTracker: aoba/parser/utils/bracket_tracker.{h,cc}; Bounds and Nesting hold the
--   proofs.
-- Parser/Lexer/*: aoba/parser/lexer/lexer.{h,cc}. State has the lexer's fields, Punctuators,
--   Numbers, Comments, Strings and Characters the handlers, with `next_token` for `Lexer::NextToken`;
--   each handler passes the lexer on. `next_token` runs its loop on fuel, one round more than there
--   are characters ahead, since each round consumes one, and the loop of string
--   literals on two rounds for each, since one state passes on without consuming. With no fuel left
--   there is no token to return: the model's would be empty, which the theorems exclude. A failed DCHECK
--   of the reader sets `fault`, as does one of the parser of documents, which runs on the text of a
--   comment; `ConsumeToken` returns nothing then (`checked` of Buffer), and `MeetsChecks` says that
--   this does not happen on a text.
--   Progress and its children have the proofs.
-- Parser/Regexp/Lexer: aoba/parser/regexp/regexp_lexer.{h,cc}, with State for the tokens and the state.
-- Parser/Regexp/Parser: aoba/parser/regexp/regexp_parser.{h,cc}, with Actions for the state and its
--   helpers and Nodes for the trees. A function is a step on the parser's state with an outcome: it
--   returns, reads a token or a character that is not there (`crashed`), or is out of fuel. `parse` has two units of
--   fuel more than there are characters ahead, for the depth of the groups and each loop, and
--   each group and each round consumes a token.
-- Parser/TypeSyntax/Lexer: aoba/parser/type/type_lexer.{h,cc}; the jump back to `start_over` is a
--   loop on fuel, one round more than there are characters ahead.
-- Parser/TypeSyntax/Parser: aoba/parser/type/type_parser.{h,cc}, with Actions for the state and its
--   helpers and Nodes for the trees; `scope` is `TypeNodeScope`. The functions of the grammar are steps
--   with the same outcomes. `ParseNonOptionalType` has two units of fuel more than there are characters
--   ahead, for its depth and for each loop, since each call of it at a token consumes one. Rules, Loops
--   and Termination have the proofs.
-- Parser/JsDoc: aoba/parser/jsdoc/jsdoc_parser.{h,cc} and aoba/ast/jsdoc_tags.h. Tags has the table of
--   tags and the trees, Parser/Actions the state, Parser/Texts names and descriptions, Parser the rest,
--   Parser/Rules, Parser/Termination and Parser/Blocks the proofs;
--   the text between braces is parsed by the type parser, and its errors are added to the sink. Each
--   loop has one round of fuel more than there are characters ahead, since each round consumes one.
-- Parser/Lexer/Buffer: the token that the lexer keeps ahead, and `drain`, the loop that consumes all
--   tokens of a range, on fuel for as many tokens as there are characters; Buffer/Reaches has the
--   extension to a regular expression and the states that the calls reach.
-- Parser/Lexer/RoundTrip: the print of punctuators, which the lexer reads back.
-- Parser/Script: aoba/parser/parser.{h,cc}, parser_bindings.cc, parser_declarations.cc,
--   parser_expressions.cc and parser_statements.cc. Words has the keywords, the precedences and the
--   error codes, Nodes the tokens and the trees, Actions the state and the reads of tokens, Ranges the
--   ranges, the errors and `scope` for `NodeRangeScope`. Bindings, Functions and Statements with
--   ForStatements, Keywords and Clauses are the files of those names; Literals, Primary, Parameters,
--   Properties, Operators and Expressions are parser_expressions.cc; Run ties them together. A step
--   crashes where a token is read that is not there or a DCHECK of a range fails. The functions that
--   call each other are reached through `parse` on fuel: a call is made behind a consumed token and has
--   one unit less. `run` has two units more than there are tokens put back and characters ahead, for
--   this depth and for each loop. A name is compared by its text, which stands for its number in the
--   name table, and a file overview is found by the parser of documents on the token's text. Reads,
--   Looks, Rules, Progress, Bindings/*, Progress/* and Termination have the proofs, Ranges/Semicolons
--   that of the missing semicolon, Parameters/Elements that of the parameters before an arrow,
--   Reads/Returns that of `ConsumeToken`.
-- Parser/Utils/Steps: the steps of these parsers, and the rules for how much text a step leaves.
-- Tests modules have runs on small texts and each theorem at a concrete input.
--
-- Characters are numbers (UTF-16 code units); uint64_t keeps its wrap-around, written `% 2 ^ 64`.
-- A numeric literal carries the integer and exponent that the source passes to std::pow and to
-- double arithmetic, which are not modelled. The errors that the parser of documents reports are
-- kept apart from those of the lexer, in `js_doc_errors`. Not modelled: the name table, the checks that the node factory makes of its arguments,
-- the analyzer, the intermediate representation and the graph editor.
pub mod Prelude
pub mod Base
pub mod Ast
pub mod Parser
