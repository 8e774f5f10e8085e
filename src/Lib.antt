-- ===== src/Lib.antt =====
-- The TinySwift compiler: its lexer, its evaluator of comptime expressions, its intermediate
-- language and the passes over it; and the runtime library, which is linked with every compiled
-- program.
--
-- The lexer turns the bytes of a source into tokens, with diagnostics; the parser reads them. The
-- checker hands the parse tree of a comptime expression to the evaluator, with the comptime
-- functions registered so far, and puts the value into the program as a constant.
-- A module of the intermediate language (SIL) is built by the generator, checked by the verifier,
-- checked by two mandatory passes and rewritten by three performance passes in rounds. Each pass
-- takes a function and gives back the function and whether it changed; the checks give a verdict.
--
-- Sil.antt: the data of toolchain/tiny_sil (SILType, SILValue, SILInstruction, SILBasicBlock,
--   SILFunction, SILModule). A `double` is its bit pattern. Identifiers are integers, -1 where
--   there is none; `is_valid` is SILValue::is_valid.
-- Sil/Build.antt: setOperand, addInst, getTerminator, allocateValueId, createBasicBlock,
--   getEntryBlock, hasBody, createFunction and findFunction. Sil/Build/Found.antt and
--   Sil/Build/Numbers.antt hold what they keep.
-- Sil/Verifier.antt: toolchain/tiny_sil/verifier.cpp, the errors as a list in the order in which
--   they are printed. Sil/Verifier/WellFormed.antt describes a well-formed function without the
--   verifier; Sil/Verifier/SoundBlock.antt and Sound.antt relate the two.
-- Opt/Dce.antt: RunDeadCodeElimination (toolchain/tiny_sil_optimizer/dce.cpp).
-- Opt/MemToReg.antt: RunMem2Reg (mem2reg.cpp). The hash maps are association lists, the entry
--   inserted last standing first.
-- Opt/ArcElim.antt and its children: RunARCElimination (arc_elim.cpp). The address of an
--   instruction is its position in the function; the groups are visited in the order of their
--   first entries, where the source visits a hash map, whose order changes no result: a group
--   holds the retains or releases of one value, and the marks of other values are never read.
-- Opt/DefiniteInit.antt: RunDefiniteInitialization (definite_init.cpp).
-- Opt/ReturnAnalysis.antt: RunReturnAnalysis (return_analysis.cpp).
-- Opt/Passes.antt: RunMandatoryPasses and RunPerformancePasses (pass_manager.cpp). The loop of
--   rounds runs four times at most, as in the source, so it needs no fuel.
-- Opt/Effects.antt: which instructions act and which values are named, told apart from the passes,
--   for the theorems on what a pass may remove.
-- Opt/Thin.antt: functions that differ by removed instructions only, the contract of the passes
--   that remove. Opt/Interp.antt: the parts of an instruction that its meaning may depend on; the
--   meaning itself is a parameter of the theorems (Opt/Dce/Meaning.antt,
--   Opt/MemToReg/Meaning.antt).
-- Opt/Tests.antt: small functions on which the definitions run and the theorems apply.
-- Prelude.antt: the names of the standard library that the modules share, lists over the native
--   numbers, sets and maps of identifiers.
-- Lex.antt and its children: the lexer, toolchain/lex. Lex/Characters.antt is character_set.h,
--   Lex/Tokens.antt the kinds of token_kind.def, the tokens of token_info.h and the keyword tables
--   of lex.cpp, Lex/State.antt the cursor and the buffer. Lex/Words.antt, Lex/Numbers.antt,
--   Lex/Operators.antt, Lex/Trivia.antt, Lex/Strings.antt and Lex/Pound.antt are the routines of
--   lex.cpp, Lex/Run.antt its main loop and Lex/Brackets.antt MatchOpenCloseTokens. A `while` loop
--   that moves the cursor over bytes is a scan that counts them; the loop over white space and
--   comments has the number of bytes left as its fuel, the main loop the number of bytes of the
--   source, and the loop of a string literal one more than the bytes left: each turn passes a byte.
--   A byte is a number, a token holds its text or its digits where the source holds an index into a
--   store; turning digits into a wide integer is the work of a library and stays outside.
--   Lex/Tests.antt runs the routines on short sources.
-- Comptime.antt and its children: toolchain/check/comptime_eval.cpp and comptime_eval.h.
--   Comptime/Tree.antt is the parse tree, a node with its kind, its token's text and its children
--   in source order. Comptime/Value.antt is ComptimeValue; a `double` is its 64-bit pattern, and
--   its arithmetic, LLVM's number parsers and the checker's table of names are the fields of
--   `Host`, an argument of all that uses them. Comptime/Int64.antt is the arithmetic of int64_t,
--   none where C++ leaves it undefined.
--   Comptime/State.antt is the state of ComptimeEvaluator and its environment: env_stack_ with the
--   innermost scope first, return_value_, has_returned_, pending_condition_, iteration_count_,
--   comptime_function_defs_, and the diagnostics emitted, the newest first. A method is a function
--   from a state to an outcome: `done` with a result and the next state, `undefined` where C++
--   leaves an operation undefined, `out_of_fuel`.
--   Comptime/Operators.antt and Expr.antt are EvalExpr, EvalMemberAccessExpr and
--   EvalSubscriptExpr; Call.antt is EvalCallExpr, EvalStructInit and ExecuteFunction; Block.antt is
--   EvalCodeBlockBody; Stmt/Simple.antt and Stmt/Loops.antt are EvalStmt, Stmt/Assign.antt is
--   EvalAssignment. Run.antt ties EvalExpr and EvalStmt together and has the entry point,
--   EvaluateComptimeExpr; Lower.antt is ValueToSemIR, whose new instructions are known by their
--   positions.
--   Fuel is the depth of nested calls of EvalExpr and EvalStmt, and running out of it is an outcome
--   of its own. A while loop gets as many rounds as the iteration limit leaves it and one more, a
--   counted loop as many as its bounds give, a loop over an array its items.
--   Comptime/Keeps.antt and its children: two runs of a method that differ in fuel, with what a
--   method keeps of the state; Env.antt: the scopes as one store; Caller.antt: a call and its
--   caller's variables; Arith.antt and Integers.antt: the integers; Lower/Represents.antt:
--   instructions that hold a value; Traps.antt: programs that are evaluated otherwise than Swift
--   means them. Sample.antt and Tests.antt: a program and runs.
--
-- Runtime.antt and its children: runtime/tinyswift_runtime.c. Runtime/Arc.antt is
--   __tinyswift_alloc, retain, release, is_unique, release_cycle_candidate and collect_cycles. An
--   object is the number of its allocation, and its count none while it is not allocated; a
--   function that touches such a header ends in `undefined`. A call of a `deinit` function is an
--   argument, from heaps to outcomes. The counts are those of one thread, malloc succeeds, and the
--   collection at the program's exit is not registered. The collector's loop has as many steps as
--   the list of candidates can hold. Arc/Balance.antt is on retains and releases,
--   Arc/Collector.antt on candidates. Runtime/HashMap.antt is the hash map
--   (hashmap_rehash, __tinyswift_hashmap_create, set, get, contains and remove), HashSet.antt the
--   hash set, Hashes.antt __tinyswift_int_hash, __tinyswift_string_hash and __tinyswift_eq_int.
--   A buffer is a function from positions with the capacity beside it; a key is the bytes of its
--   slot, and the sizes of keys and values are left to their types. What the caller gives,
--   `eq_fn` and the hash of a key, is an argument, and KeyLaws in HashMap/Table.antt states what
--   is relied on: `eq_fn` is symmetric and transitive, and equal keys have equal hashes. A null
--   handle is not modelled, and calloc is taken to succeed. The `while` of a rehash has as many
--   steps as the table has slots. HashMap/Table.antt is the order of a table; Lookup, Write, Place,
--   Set, Remove and Rehash are the lemmas on the operations, Refines what they come to.
--   Runtime/DynArray.antt is the dynamic array; whether realloc succeeds is an argument, and -1 and
--   below are the negative indices. Not modelled of this file: strings, files, sockets, the event
--   loop, time, and the sort, which is a call of qsort.
--
-- Value identifiers and block numbers are `int32_t` in the source; they are counted up from zero
-- and are unbounded integers here. Not modelled: the text of error messages, the debug print of
-- the statistics, the printer, the generator of SIL, the parser, the rest of the checker, the
-- lowering to LLVM after it, and the driver.
pub mod Prelude
pub mod Lex
pub mod Comptime
pub mod Runtime
pub mod Sil
pub mod Opt
