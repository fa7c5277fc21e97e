-- ===== src/Lib.antt =====
-- protocompile: a compiler for Protocol Buffers sources.
--
-- The parser builds descriptor protos from a source file and checks them (parser/validate.go);
-- the linker imports the symbols of the files into a table (linker/symbols.go). Both report what
-- they find through a handler (reporter), search options by internal/options.go, and traverse
-- descriptors by walk/walk.go. The newer parts of the compiler intern strings (internal/intern).
--
-- Source, Diagnostic: ast/file_info.go and ast/no_source.go (positions, spans); the messages with
--   their arguments, a constructor for each format string.
-- Reporter: reporter/reporter.go and reporter/errors.go. `Handler` is a root or a child that
--   holds its parent, so that a call on a child updates the parent inside it; a reporter is a pair
--   of functions on a state of its own. An error has a position, or wraps one that has, or neither.
--   Reporter.Check: code that calls `HandleErrorf` and returns if the call returns an error. Such
--   code is the list of the calls that it makes as long as none returns an error (`Check`); `run`
--   makes the calls on a handler and stops at the first error.
-- Descriptor: the fields of descriptor protos that the code reads, with the spans of their AST
--   nodes in place of the table from protos to nodes in parser/result.go.
-- Options: internal/options.go.
-- Walk: walk/walk.go, `walkDescriptorProtos` and what calls it; a visit is combined by any `seq`.
--   A source path is a value of its own: the code's paths of siblings may share a slice. Visits has
--   the full names of a file's descriptors, by a recursion of its own.
-- Parser: parser/validate.go and some of parser/result.go. Ranges has `tagRange` with the library
--   calls `sort.Sort`, as an insertion sort with the same order (what it does to ranges with equal
--   bounds is not said), and `sort.Search`, whose loop has fuel `n` for `n` indices: a round leaves
--   fewer. Names, Imports, Messages, Enums, Fields and Basic have the functions, and in their
--   modules Valid the rules that they check; a map is an association list. The AST keeps the bodies
--   of groups, oneofs and extends, in which validateExportLocal does not look for keywords. Bounds
--   is the part of parser/result.go that turns literals (ast/values.go) and ranges (ast/ranges.go)
--   into numbers.
-- Linker.Symbols: linker/symbols.go. A pointer to a `packageSymbols` is the package's full name,
--   under which the table holds the node. A descriptor file is given by its symbols and extensions
--   in the order of the walk; `sourceSpanFor` and `nameSpan` are their spans. An operation under a
--   lock is one step, and imports follow each other.
-- Intern: internal/intern and the log of internal/ext/syncx/log.go, for one goroutine. An `ID` is
--   an int32, held as its bit pattern below 2 ^ 32, with shifts and masks written out; a string is
--   its bytes. An append fails when the int32 counter would overflow, and does not return once the
--   int32 capacity is negative. How Go's `append` grows a slice is a parameter; a theorem that
--   needs that a capacity grows has it among its conditions.
-- Compiler: compiler.go. A task is a goroutine; `Phase` is the point of `doCompile`, `asFile` and
--   `checkForDependencyCycle` at which it stands, and `advance` takes it to the next point at which
--   it reads or writes what tasks share, or has no result where it is blocked. `Step` lets any task
--   go on, fail where it waits once the context is cancelled, or the caller cancel. The semaphore
--   of golang.org/x/sync is a parameter with the laws of `Acquire` and `Release`, and so is what
--   the resolver, the parser and `link` return. Wait has the invariant on what tasks have checked,
--   Permits the count of permits, Turn the ways in which a step changes the results, Imports their
--   order, Ends the steps left.
-- Ext: internal/ext/bitsx, where an int has 64 bits and a sum wraps, and the queue of
--   internal/ext/slicesx: its buffer is a list, a masked position is one modulo the length, and
--   what a pop leaves in its slot is a parameter. A buffer's length is an int: where the power of
--   two is 2 ^ 63 `make` panics, and the operation has no result. The memory for a buffer is not
--   bounded. The fuel of `bit_len` and `ones_count` is the 64 bits.
--
-- Not modelled: the lexer and the grammar, whose parser is generated; the resolution of names,
-- the interpretation of options, which stand on descriptors of another library; source code info;
-- the experimental compiler; panics of tasks; concurrency everywhere but in Compiler.
pub mod Prelude
pub mod Source
pub mod Diagnostic
pub mod Reporter
pub mod Compiler
pub mod Descriptor
pub mod Options
pub mod Walk
pub mod Parser
pub mod Linker
pub mod Ext
pub mod Intern
