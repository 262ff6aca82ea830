-- ===== src/Lib.antt =====
-- The Lu compiler `luc` (src/), modelled for verification.
--
-- luc reads a program in Classic Lu, expands its `incl` lines, cuts the text into tokens, parses
-- them, checks the tree and emits C or an x86-64 ELF file; a file that begins with `Lu/Strict` goes
-- through the v5 front end first. The modules here follow those parts.
--
-- Prelude: shared names, lists measured by native numbers, and byte strings: a C string is the
-- list of its bytes, and `streq`, `has_prefix`, `c_str` and `snprintf` are `strcmp`, `strncmp`,
-- the reading up to the first NUL, and the cut that `snprintf` makes.
-- Lexer (src/lexer.c, src/lu.h). Lexer.State is the record `Lexer` with `cur`, `peek`, `advance`,
-- `starts_with`, the skipping loops, `read_word` and the payload readers. Its field `rest` is the
-- text from `src + pos` to the end, so `src` and `len` are not kept. Lexer.Strings is
-- `read_string`, Lexer.Numbers `read_number`, Lexer.Token the two token types. Lexer.Rules holds
-- the body of `lexer_tokenize`, one rule for each of its parts, in the order of the source; a
-- rule returns an `Action` (Lexer.Action): pass the turn on, continue, or add a token and
-- continue. Lexer.Tokenizer puts the rules together and is the loop.
-- A loop that passes a byte each round takes the text that is left as its fuel, which is exactly
-- the number of rounds that it can make; `tokenize_on` takes a number, and `lexer_tokenize` gives
-- it the length of the text and one more. `none` of `tokenize_on` says that the fuel ran out.
-- Line, column and position are unbounded numbers where the source has `int`. `atoi` on a number
-- beyond `int`, which C leaves undefined, is the number itself. The growth of the token list and
-- `malloc` failures (which end the program) are not modelled, nor is `token_type_name`, a table
-- for debug output.
-- Lexer.Reach and Lexer.Position follow the line and column of a token, Lexer.Scan and
-- Lexer.Payload the loops over single bytes, Lexer.Munch the operators, Lexer.Decimal
-- the number of a block; `Memᴰ` is membership of the operator in its table.
-- Includes (src/includes.c). Includes.Paths is `path_dir` to `resolve`, `already_seen` and
-- `canonical`; the file system, the link `/proc/self/exe` and the variable `LU_INCLUDE` are the
-- record `Os`, a parameter. Includes.Directive is `skip_header` and `match_incl`. Includes.Expand
-- is the recursive expansion: the record `Incl` holds the paths seen and the text put out, and an
-- error is a value. Expand.Once is about the list of paths, Expand.ReadOnce about the files read. The depth limit of the source, 32 levels, is the recursion's number; a second
-- number, the length of the text, counts the lines.
-- Ast (src/lu.h): the kinds of nodes, the fields of a node and the tree. A null `char *` is `none`.
-- Libraries (src/libraries.c). Libraries.Api is the table of tensor functions and the search for
-- the type's name in a text, Libraries.Check the walk over the tree; `lu_error` ends the compiler,
-- so the walk returns the first error. Libraries.Check.Offence describes what a node may not be,
-- apart from the tests of the walk, and Libraries.Check.Guards compares the two.
-- Blocks (src/util.c): the registry of `#q[n]` blocks as a list, a pointer into it as an index.
-- Semantic (src/semantic.c). Semantic.Symbols is the symbol table with `sym_add`, `sym_find` and
-- `sym_find_in_scope`; warnings are output and left out.
-- Semantic.Types is `types_compatible`. Semantic.Collect is `first_pass`: its part for a block in
-- Collect.Block, for the other declarations in Collect.Names, and the walk in Collect.Pass; an outcome is the two tables, the error on a network node, or an
-- access through the null pointer that `breg_get_or_create` answers for a full registry.
-- X86 (src/x86.c), the native backend. X86.Types is `Type` and its makers, where a struct has its
-- fields as a list and `void *` has no pointee. X86.Encode is the instruction encoder: an `i_...`
-- function only appends to the code, so it is the list of bytes that it appends; disjoint bit
-- fields that the source joins by `|` are added. X86.Decode is no code of the repository: it reads
-- bytes back by the rules of the processor, for the instructions that the encoder writes.
-- X86.Code is the state `X` with its labels, relocations and data section, X86.Access the
-- instructions on global variables, X86.Link the last part of `native_compile`, which fills the
-- relocations in; `code` and `data_buf` are the bytes of the two buffers, `label_pos` a function.
-- The growth of a buffer, and the fields of `X` that only statements use, are left out.
-- X86.Link.Steps has the operations as a step relation from the empty state, with the writes of
-- initial values into the data and the pointers that are noted there.
-- X86.Link.Targets computes an address from a distance as the processor does.
-- X86.Scope is the table of variables, the newest first, and its marks; X86.Scope.Stack the stack of
-- scopes that it stands for. X86.Assign is the part of `gen_set` for `x = x + c` and `x = x - c`;
-- X86.Assign.Constant runs the instruction that it writes on the register's word.
-- X86.Elf is the image of `write_elf` as a list of writes into zeros; the file itself is left out.
-- X86.Divide is `signed_magic`, whose 63 rounds are its fuel, and where `unsigned __int128` does not
-- overflow (its numbers are at most 2^126 and products below 2^128), and `gen_const_divmod` as the
-- list of the instructions that it writes; the loop for the exponent has 64 rounds, more than any
-- 64-bit divisor needs. X86.Machine, no code of the repository, runs those instructions on 64-bit
-- words as the processor does, and has the encoder's bytes for each.
-- Parser (src/parser.c): the parser of expressions and types. Parser.Cursor is the record `Parser`
-- with the helpers on it; the tokens from `pos` on are kept, the current one apart, and the count
-- `g_parse_error_count`. Parser.Types is `consume_type`, Parser.Forms the choice of a branch in
-- `parse_primary`, Parser.Literals, Parser.Names, Parser.Lambda and Parser.Primary the branches,
-- Parser.Expr the operators, `parse_expr`, and `calls`, which ties the functions together: each call
-- and each round of a loop takes one of the fuel, and `none` says that it ran out. `strtoll` and
-- `atof` of the C library, `parse_fstring` and `parse_statement` are the record `Outer`, a parameter.
-- Parser.Template is `parse_fstring` itself, over the lexer and `parse_expr`, and Parser.Pieces the
-- template strings that it reads. Parser.Asm is `asm_extract_raw`, with a buffer that has no end,
-- and Parser.Overflow is about its length.
-- Parser.Phrase, no code of the repository, is the grammar of expressions, as trees with their
-- tokens and the nodes that they mean; Parser.Reads follows the parser over them, and `Ends` of
-- Parser.Fuel is an answer that every fuel from some amount on gives. Parser.Total is
-- about the end of a run on any tokens, by induction on their number, Parser.Stuck about the loop over
-- the parameters of `fn`.
-- Of the backend the other code generators of expressions and statements are not modelled, of the semantic
-- checker `infer_type` and `check_node`, of the parser statements and declarations,
-- nor are the C code generator and the v5 front end.
mod Prelude
pub mod Lexer
pub mod Includes
pub mod Ast
pub mod Libraries
pub mod Blocks
pub mod Parser
pub mod Semantic
pub mod X86
