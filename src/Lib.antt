-- ===== src/Lib.antt =====
-- lacsap, a Pascal compiler: its front end from the bytes of a source file to the values of its
-- constants, the types and their checks, and the strings of compiled programs.
--
-- The program. `FileSource` (source.cpp) delivers bytes and keeps the place in the file. `Lexer`
-- (lexer.cpp) looks at most one byte ahead, skips white space and comments and makes a `Token`
-- (token.h, token.cpp) per call of `GetToken`. `Parser` (parser.cpp) looks at most one token
-- ahead; names are kept in a `Stack` of levels (stack.h), one for each scope. Constant expressions
-- are computed while they are parsed, by the operators and functions of constants.cpp. Types
-- (types.cpp) are objects that the parser makes; `Semantics` (semantics.cpp) walks over the syntax
-- tree, compares the types of operands, adds casts and counts errors.
--
-- The files.
--   Prelude: library names, Boolean tests on numbers, bytes and texts (utils.h), integers.
--   Outcome: how a run ends: with a value, in an internal compiler error (`ICE` of utils.h), in
--     `exit(1)`, in behaviour that C++ leaves undefined, or with the fuel of a loop used up.
--   Source: source.h, source.cpp. `get` is `FileSource::Get`.
--   Token: token.h, token.cpp, location.h. Enum is `TokenType`, Table the table of spellings with
--     its searches, Value `Precedence`, the constructors and the accessors of `Token`.
--   Lexer: lexer.h, lexer.cpp. Chars is the window of two characters, Convert the conversions of
--     digits, Number `NumberToken`, Quoted `StringToken`, Skip the loop over white space and
--     comments, Scan the rest of `GetToken`.
--   Stack: stack.h, stack.cpp. `add`, `find`, `new_level`, `drop_level` and the others have the
--     names of the methods; the option `caseInsensitive` is their first argument.
--   Constants: constants.h, constants.cpp. Decl has the kinds of constant, Arith the operators,
--     Power `Pow` and `Power`, Functions the evaluable functions.
--   Parser: parser.cpp. Stream has the token handling and the messages, ConstEval
--     `ParseConstEval`, ConstTerm calls and sets, ConstExpr `ParseConstTerm`, `ParseConstRHS` and
--     `ParseConstExpr`.
--   Parser also has, of parser.cpp and expr.h, the nodes (Ast), Expression with `ParseExpression`,
--     and Statement and Case with `ParseStatement`. Grammar and Sentences say how expressions and
--     statements are written, Formulas and Statements prove that they are read.
--   Types: types.h, types.cpp. Fields and Class have fields and classes, Class.Table the tables of
--     virtual functions and the places of fields, Node the objects at their addresses, Same
--     `SameAs`, Compatible `CompatibleType` and `AssignableType`.
--   Semantics: semantics.cpp. State has what the checks change, Sets the completion of set types,
--     Binary and Check the check of operators, Assign that of assignments, Statements those of
--     statements, Calls those of calls and indices, Fixups the queue of what is done at the end.
--   Runtime: runtime/string.c, runtime/set.c, runtime/assign.c, runtime/bind.c, runtime/read.c.
--     Strings has the operations on strings, Arrays `memcpy`, Sets those on sets, Files the table
--     of files, Read the bytes of a file that is read, Read.Readers what is made of them.
--   Tests: runs of the definitions, and the theorems at concrete inputs.
--
-- How it is modelled. Objects that methods change are records that are passed on. A byte is a
-- number below 256; `EOF`, a `char` of -1 as `FileSource::Get` returns it, is the byte 255. A
-- `uint64_t` is a number below 2^64 with its wrap-around written out, an `int` an integer.
-- Null pointers are `none` or `null`. Loops of the lexer and the parser are on fuel; in the lexer
-- more fuel than there are bytes left is enough, since every turn takes a byte. Levels of the
-- symbol table stand innermost first, and each is a list of pairs. Types refer to one another by
-- address, through a heap of objects; a class holds its base. `SameAs` and what calls it are on
-- fuel, one for each step to a base type.
--
-- What stands outside. `double` and <cmath> are the record `Floats`, `strtod` is an argument, and
-- `strtol` and `strtoull` are written out as the C standard has them. The parser of constants takes
-- the lexer as a `TokenSource` and the types as the record `Types`, since both of them it only
-- calls. Sizes of types are an argument, as LLVM computes them, but the size of a range is that of
-- its base (Compatible.Sizes). Not modelled are the other parts of the parser (types, definitions,
-- calls, what goes on with a variable, "with", "read" and "write", which the parser of statements
-- takes as the record `Outside`), schemas (schema.h), the code
-- generation (expr.cpp, builtin.cpp, binary.cpp) and the types of LLVM that it is given, the driver
-- (lacsap.cpp), the traces that a verbosity above 0 prints, and of the library in C that compiled
-- programs call (runtime) all but the strings, the sets, the table of files and the reading of
-- integers, characters, texts and truth values. <stdio.h> is the record `Stdio` there.
pub mod Prelude
pub mod Outcome
pub mod Source
pub mod Token
pub mod Lexer
pub mod Stack
pub mod Constants
pub mod Parser
pub mod Runtime
pub mod Types
pub mod Semantics
pub mod Tests
