-- ===== src/Lib.antt =====
-- CovScript: the interpreter of the Covariant Script language, by the parts of its core.
--
-- A source text goes through sources/compiler/lexer.cpp (characters to tokens, brackets to boxes)
-- and sources/compiler/parser.cpp (tokens to expression trees, kept in the tree_type of
-- include/covscript/core/components.hpp). The optimiser and the code generator of
-- sources/compiler/ make statements of the trees, which sources/instance/ runs on the scopes of
-- include/covscript/impl/runtime.hpp.
--
-- Files, and what they model:
--   Prelude          tests, lists, and the exceptions of components.hpp as a Result.
--   Container.Tree   tree_type: nodes, iterators as ways down from the root, emplace_*, erase*,
--                    reserve_*. Container.Tree.Edits says what each emplace writes,
--                    Container.Tree.Order and Container.Tree.Emplace what becomes of the order.
--   Syntax.Signal    action_types, signal_types, signal_level_map, signal_left_associative.
--   Syntax.Token     token_types and the token classes. Pointers to tokens are the tokens
--                    themselves: the functions modelled here compare no addresses. The value of a
--                    token is a parameter, since var is type-erased.
--   Lexer.Charset    the character sets ascii, utf8 and gbk, of components.hpp and lexer.cpp.
--                    Lexer.Charset.Ascii and Lexer.Charset.Gbk say what conversion keeps.
--   Lexer.Signals    signal_map, signals, and the cutting of a run of signal characters in
--                    process_char_buff; Lexer.Signals.Pieces says how a run is cut.
--   Lexer.Chars      process_char_buff; Lexer.Chars.Measure and Lexer.Chars.Rounds bound the
--                    rounds of its loop, Lexer.Chars.Total concludes that it ends.
--   Lexer.Brackets   process_empty_brackets and process_brackets.
--   Parser.Build     split_token, build_tree, gen_tree. Parser.Push is build_tree without
--                    iterators, Parser.Rank what precedence means. Parser.Rank.Written are the
--                    trees that build_tree gives back, Parser.Split joins the two passes.
--   Runtime.Domain   var_id and domain_type of include/covscript/core/core.hpp. Runtime.Domain.Table
--                    treats a domain as a map, Runtime.Domain.Cache the slots that identifiers
--                    cache. A var is a reference that its copies share, and what is behind it is not looked at; the address of a
--                    domain_ref by a number that is not used twice.
--   Runtime.Storage  domain_manager of include/covscript/impl/runtime.hpp; Runtime.Storage.Vars its
--                    variables, Runtime.Storage.Lookup the two searches, Runtime.Storage.Snapshot
--                    the snapshots and storage_transaction. Runtime.Storage.Invariant and
--                    Runtime.Storage.Calls are what each call keeps for one identifier,
--                    Runtime.Storage.Addresses and Runtime.Storage.Edited treat the addresses of
--                    domains, Runtime.Storage.Identifiers what calls write to an identifier,
--                    Runtime.Storage.Sound and Runtime.Storage.Restored all identifiers at once,
--                    Runtime.Storage.Reachable
--                    sequences of calls.
--   Runtime.Functions
--                    function_store of the same file; Runtime.Functions.Rollback its transactions.
--   Number           numeric of include/covscript/core/components.hpp. Number.Integer are the
--                    integers, Number.Power int_pow, Number.Overflow its test of a product,
--                    Number.Numeric the operators. Number.Power.Exact, Number.Division,
--                    Number.Comparison and Number.Closed treat powers, quotients and
--                    remainders, comparisons, and what any operator returns.
--   Syntax.Keyword   action_map of sources/compiler/compiler.cpp.
--   Lexer.Preprocessor
--                    the class preprocessor. Lexer.Preprocessor.Reader reads the same text line
--                    by line, Lexer.Preprocessor.Steps what one character does,
--                    Lexer.Preprocessor.Lines that both do the same, and Lexer.Preprocessor.Count
--                    counts the lines.
--   Compiler         Compiler.Method are the method classes of include/covscript/impl/codegen.hpp,
--                    Compiler.Match and Compiler.Grammar the match and match_grammar of
--                    translator_type, with the grammars of sources/covscript.cpp,
--                    Compiler.TokenBuff process_token_buff, and Compiler.Translate the stack of
--                    blocks in translate. Compiler.Match.Unique, Compiler.Grammar.Retag,
--                    Compiler.TokenBuff.Lines, Compiler.Translate.Depth, Compiler.Translate.Balance and
--                    Compiler.Translate.Nesting are their theorems.
--   Parser.Kill      kill_brackets and kill_expr, which rewrite the brackets of a line and make one
--                    expression of what stands between its keywords. Parser.Kill.Plain says which
--                    brackets are left, Parser.Kill.Statement what a line becomes.
--   Statement        the statements of sources/instance/statement.cpp that direct the flow of control,
--                    over a storage and an evaluation of expressions that are parameters:
--                    Statement.Outcome is what running comes to, Statement.Run blocks, bodies of
--                    loops and scopes, Statement.Control run_impl of each. Fuel bounds the depth of
--                    statements and the rounds of each loop; no number is enough for all, since a
--                    loop need not end. Statement.Flow treats the flags, Statement.Call and
--                    Statement.Call.Returns the functions of a program and their calls with the
--                    number of arguments fixed.
--   Expression       the evaluation of trees, parse_expr of sources/instance/runtime.cpp, over any operators
--                    on values, and Expression.Optimizer the folding of constants, opt_expr of
--                    sources/compiler/compiler.cpp, where trim_expr is an argument and fuel bounds
--                    how deep lists of expressions nest. A var is a
--                    reference with its marks, an operator takes the state that it stands in.
--   Tests            runs on concrete inputs.
--
-- Loops are recursions on the queue that the source walks. process_brackets, kill_brackets and gen_tree recur on
-- fuel, a bound on how deep brackets nest; Lexer.Brackets.Fuel proves a bound for the first. The
-- fuel of process_char_buff bounds the rounds of its loop, three for each wide character.
-- optimize_expression is an argument of gen_tree, and the parser's loop is stated for any
-- recursive call on brackets. Line numbers are kept for end-of-line tokens alone.
--
-- int_pow has fuel for the bits of the exponent. A sum or product of integers that needs more than
-- 64 bits is undefined in C++ and wraps in the model.
--
-- Parameters stand for what the repository does not hold, floating point, iswalnum and its like of the C library and the
-- conversions of utf8.h, and for the values of the language, since var is type-erased. A char is
-- signed. A message of an exception that names a variable or a token is kept without the name.
--
-- Not modelled: trim_expr, what the methods of code generation do with a line, the statements that
-- declare, foreach, other calls than call_rr, a change of the fiber that runs among the calls of a
-- storage, the operators on values, extensions and their native
-- interface, the debugger, the command line, and the win32 and unix layers.
pub mod Compiler
pub mod Container
pub mod Expression
pub mod Lexer
pub mod Number
pub mod Parser
pub mod Prelude
pub mod Runtime
pub mod Statement
pub mod Syntax
pub mod Tests
