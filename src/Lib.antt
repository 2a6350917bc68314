-- ===== src/Lib.antt =====
-- Verification of the decompilation permuter (tools/decomp-permuter) of the ee-kernel repository.
--
-- The permuter looks for C source that compiles to a given object file. A source may hold PERM
-- macros; the parser (tools/decomp-permuter/src/perm/parse.py) makes a tree of them, and the tree
-- (tools/decomp-permuter/src/perm/perm.py) maps each seed below its count to a text. The scorer
-- (tools/decomp-permuter/src/scorer.py) compares the disassembly of a candidate with the target's,
-- and the permuter (tools/decomp-permuter/src/permuter.py) decides which scored results are
-- written. The run (tools/decomp-permuter/src/main.py) takes the seeds of several permuters in turn
-- (tools/decomp-permuter/src/perm/eval.py) and gives them to worker processes. A client can have its
-- candidates evaluated elsewhere: the protocol (tools/decomp-permuter/src/net/core.py) carries its
-- permuter to a server (tools/decomp-permuter/src/net/server.py), which gives the work to an
-- evaluator (tools/decomp-permuter/src/net/evaluator.py) and its worker processes.
--
-- Which file models which part:
--   Base: the libraries' names, and Python's strings, dictionaries, integers and exceptions as
--     values: Text is the list of a string's code points, Dict an association list in the order of
--     insertion, Result an exception or a value, Outcome what a Result may be.
--   Perm/Tree, Perm/State, Perm/Evaluate, Perm/Root: the Perm classes of
--     tools/decomp-permuter/src/perm/perm.py with `perm_count`, `evaluate`, EvalState, `_eval_all`,
--     `_eval_either` and RootPerm. A OncePerm is compared by identity in the source; here it
--     carries the number of its allocation.
--   Perm/Shuffle: `_shuffle`, with theorems in Covers and Injective.
--   Perm/Variation: what the macros describe, as a relation without seeds. Perm/Sound,
--     Perm/Complete and Perm/Root/Choices connect it with the evaluation.
--   Perm/Split, Perm/Parse: tools/decomp-permuter/src/perm/parse.py, its text scans and its
--     parser. The recursion of `_rec_perm_parse` is bounded by fuel, one unit more than the text
--     has characters, and its loop by the length of the text, since each macro is shorter than the
--     text that it stands in.
--   Perm/Whole: from a source text to the texts of its seeds.
--   Perm/Seeds: `_gen_all_seeds` of tools/decomp-permuter/src/perm/eval.py. The random draws and
--     the shuffle are parameters; the fuel bounds the number of draws, which has no bound known
--     beforehand.
--   Scorer/Fields, Scorer/Sameline, Scorer/Penalties, Scorer/Diff, Scorer/Score:
--     tools/decomp-permuter/src/scorer.py. The disassembler, the sequence matcher, SHA-256 and the
--     regular expression for stack offsets are parameters. Scorer/Moves, Scorer/Accounting and
--     Scorer/Match hold the theorems.
--   Permuter/Create: the constructor and `_create_and_score_base`, for a source whose function is
--     named.
--   Permuter/Seeds: `seed_iterator`, and `perm_gen_all_seeds` and `perm_evaluate_one` of
--     tools/decomp-permuter/src/perm/eval.py, with theorems in Permuter/Seeds/Endless. Each round
--     has draws, a shuffle and fuel of its own.
--   Permuter/Evaluation: `_eval_candidate` of tools/decomp-permuter/src/permuter.py, with what it
--     changes before an exception. The C parser, the randomizer, the compiler, the scorer and
--     SHA-256 are parameters, the random numbers are arguments; a candidate that the randomizer has
--     changed half-way when it raises is the candidate before. Permuter/Evaluation/Try has
--     `try_eval_candidate`.
--   Permuter/State, Permuter/Output: `should_output` and `record_result` of
--     tools/decomp-permuter/src/permuter.py, and the part of `post_score` of
--     tools/decomp-permuter/src/main.py that calls them.
--   Run/Cycle: `cycle_seeds` of tools/decomp-permuter/src/main.py, as an iterator: Base/Iterators
--     says what an iterator gives. A turn without a seed drops an iterator, so as many turns as
--     there are iterators are enough for the next seed.
--   Run/Tasks: `get_task`. One round over the iterators is enough for its loop. Run/Tasks/Handed,
--     Run/Tasks/Turns and Run/Tasks/Ends hold the theorems.
--   Run/Results: `post_score` and `process_result`, without what they print.
--   Run/Loop: the two loops of `run_inner` over the feedback that they get, with what they put into
--     the queues; theorems in Run/Loop/Queues and Run/Loop/Fed.
--   Run/Workers: `multiprocess_worker`, and the steps of the workers and of the main process without
--     connections. A worker takes an item and puts its feedback in one step, since nothing of what
--     it does between is seen by others; the feedback of one worker is read in its order, that of
--     several in any. A score of 0 breaks off the first loop where it stops the run; an exception in
--     the main process ends the program. Run/Workers/Boxes, Tail, Whole, Steps and Finish hold the
--     invariant and its theorems, Run/Workers/Scores the scores that a worker reports.
--   Helpers: tools/decomp-permuter/src/helpers.py. Helpers/Json has the values of json.loads and
--     `json_prop`, `json_array` and `json_dict`; Helpers/Typed has `json_prop` at each type.
--   Net/Data: PermuterData of tools/decomp-permuter/src/net/core.py and its JSON form, with theorems
--     in Net/Data/RoundTrip.
--   Net/Wire: the streams, signatures and Ports of tools/decomp-permuter/src/net/core.py, with
--     theorems in Net/Wire/Reading and Net/Wire/Delivery. A stream is the list of what one read
--     finds at most; the loop that reads n bytes has n rounds, since each round reads a byte.
--     Encryption and signatures are parameters.
--   Net/Frames: `receive_json`, over the messages that a Port is going to return.
--   Net/Server, Net/Server/Messages: ServerInner of tools/decomp-permuter/src/net/server.py. What
--     is put into a queue or a port is kept in the state, in order. A send to the evaluator that
--     raises EOFError, which ends the main loop, is not modelled.
--   Net/Server/Threads: NetThread and the thread that reads from the evaluator. As many rounds as
--     there are messages, and one more, are enough for the loops. Net/Server/Balance,
--     Net/Server/Answers, Net/Server/Reads and Net/Server/Queue hold the theorems; Queue has the
--     orders in which the main thread may find the messages.
--   Net/Evaluator: the main loop of tools/decomp-permuter/src/net/evaluator.py and the inner loop
--     of its workers. Net/Evaluator/Log, Net/Evaluator/Available and Net/Evaluator/Rounds hold the
--     step relation and its invariant, Net/Evaluator/Reading its reading thread.
--   Net/Client: Connection of tools/decomp-permuter/src/net/client.py, with theorems in
--     Net/Client/Sending and Net/Client/Ending. Every round of its loop receives a message, so as
--     many rounds as there are messages, and one more, are enough. So many of its writes succeed,
--     and the next one raises an exception. Net/Client/Script has
--     `_make_script_portable`.
--   Net/Protocol: the messages of the server, read by the evaluator.
--   Objdump/Texts, Objdump/Branches, Objdump/Reloc, Objdump/Simplify:
--     tools/decomp-permuter/src/objdump.py. The regular expressions of an architecture and
--     `process_x86_reloc` are fields of Arch. Each round of the loops over a text takes a character
--     at least, so the length of the text is enough. Objdump/Operand and Objdump/Rows hold the
--     theorems.
--
-- Numbers are unbounded, as they are in Python. What the program prints, its timings, the sleeping
-- of its workers and the debug output of the scorer are left out; int() and \d read ASCII digits
-- alone, and int(imm, 0) of process_mips_reloc reads no underscores and spaces. A worker of an
-- evaluator that is told to drop a permuter that it does not have goes on. Not modelled are the
-- making of candidates (tools/decomp-permuter/src/candidate.py,
-- tools/decomp-permuter/src/randomizer.py), how a permuter finds the function that it is not told,
-- how `run_inner` reads its directories and options and writes candidates to them, relocations of
-- x86, what a client reads from its own files, the commands of the network code
-- (tools/decomp-permuter/src/net/cmd), the containers that evaluators run in, the import script,
-- the copy of pycparser, and the repository's build scripts.
pub mod Base
pub mod Helpers
pub mod Net
pub mod Objdump
pub mod Perm
pub mod Scorer
pub mod Permuter
pub mod Run
