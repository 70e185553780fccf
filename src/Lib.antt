-- ===== src/Lib.antt =====
-- A model of rsvndump, which dumps a remote Subversion repository: it asks the remote side for the
-- log and the differences of each revision and prints a dump file. The program is src/*.c; the
-- paths below are from the repository's root.
--
-- How the parts interact: src/main.c reads the command line into dump_options_t; dump() of
-- src/dump.c runs over the revisions. For each it fetches the log (src/log.c, which keeps what
-- lies below the session's prefix), prints the revision header, and runs the delta editor
-- (src/delta.c), which prints the nodes, keeps node properties in a property storage
-- (src/property.c) and schedules added and deleted paths in the path repository (src/path_repo.c).
-- Both keep their data in a key-value store (src/mukv.c), compressed; the store's index is a hash
-- table (src/rhash.c).
--
-- Which file models which part:
--   Base: shared notation, C strings as lists of bytes (Base/Str), signed numbers (Base/Int),
--     decimal numbers (Base/Decimal), lists over the native numbers (Base/Lists).
--   Apr, Critbit, Snappy, Svn: what is taken from libraries, as records that the definitions take
--     as instance arguments, with the documented behaviour as laws. Stdio: the C library's files.
--     Files: temporary files and text deltas.
--   Rhash: src/rhash.c. Mukv: src/mukv.c, and Mukv/View: the store as a map from keys to data.
--   PathRepo: src/path_repo.c. PathRepo/Codec has the serialized deltas, PathRepo/Edit the global
--     functions, PathRepo/Edit/Replay the commit from a log, PathRepo/Rebuild the reconstruction
--     of a tree. PathRepo/History states what a repository represents: a set of paths for each
--     committed revision, and the set that is being edited. Its operations are theorems of
--     Edit/Schedule, Edit/Commit and Edit/Query.
--   Delta: src/delta.c. Delta/Node has the nodes and the state of the editor: the nodes of a revision
--     stand on an arena, and a pointer to a node is its index (Delta/Forest: a child comes after its
--     parent). Delta/CopyFrom and Delta/Copies say where copies come from and which nodes are
--     copied; Delta/Print and Delta/Record dump a node; Delta/Changes and Delta/Callbacks are the
--     callbacks of the editor, and Delta/Callbacks/Reached the states that they lead to;
--     Delta/Close dumps the tree of nodes at the end of a revision.
--   Property: src/property.c; Format prints properties, Serial packs them, Store keeps them.
--   Dump/Records: the records of src/dump.c that are not nodes. Dump/Loop: a round of the loop of
--     dump(). Dump/Start: dump() before the loop. Dump/Rounds: the loop as a whole, and dump().
--     Options: dump_options_t.
--   Log, Log/Receiver, Log/Fetch: src/log.h, and the callbacks and fetches of src/log.c.
--   Session: src/session.c in part; Session/Names has the generator of obfuscated names.
--   Main/Range: parse_revnum() of src/main.c, with sscanf() as far as it is used there.
--     Main/Arguments: the loop over the arguments, and the exit status.
--   Utils: paths and sorting of src/utils.c. Ra: the remote access library.
--   Samples: small implementations of the parameters. Tests: the theorems at concrete inputs.
--
-- How the code is rendered: a function keeps its name. A function that changes an object returns
-- the new object beside its result; 0 and -1 are the two values of Status; NULL is none. What is
-- printed is a text that is returned. Memory does not run out, and what is freed is gone. A file
-- has a bound on its size, so that a write can come out short, and may refuse to seek. An offset
-- or a length is not bounded by its type, but for the lengths in packed properties, which must fit
-- into an `int`.
--
-- Fuel: pr_delta_apply() has as many rounds as there are bytes, and a round takes two or more;
-- get_entries() likewise, and a round takes eight or more; prefix_rounds() has one round more than
-- the prefix has bytes, and a round takes one or more; a number has fewer digits than the rounds
-- of put_digits(); pad_revisions() has as many rounds as numbers are to be padded;
-- pr_fetch_paths_rec() goes as deep as the parameter says. The rounds of the first four are shown
-- to be enough in the theorems about them, and those of pad_revisions() too.
--
-- delta_dump_node() and delta_dump_replace() call each other at most once; delta_dump_node_recursive()
-- goes no deeper than there are nodes; the loop of de_close_edit() over the directories above a path
-- has as many rounds as the path has bytes, and one more. The first two are shown to be enough.
--
-- What apr_palloc() leaves unset in a node is an argument (Garbage). A NULL where the code needs a
-- text or a table counts as an error.
--
-- make_rounds(), the names that are tried until one is free, has as many rounds as its caller says.
-- The code has no bound there: it ends if and when a free name comes. session_obfuscate_rec() goes
-- as deep as its caller says, and a path has fewer components than bytes. dump_rounds() has as many
-- rounds as there are revisions from the first to the last, and one more; Dump/Rounds/Ends shows
-- it to be enough where each log is fetched in its round.
--
-- Not modelled: the connection to the repository, with its credentials, and the report of
-- dump_do_diff(), which are calls of the Subversion libraries; the terminal output and the temporary
-- directory; the libraries in lib/. The log and the delta editor take the obfuscation of names as
-- an interface, which Session/Names does not fill, since the generator may not end; dump() takes the
-- diff as an interface, which the delta editor does not fill.
pub mod Base
pub mod Apr
pub mod Critbit
pub mod Snappy
pub mod Rhash
pub mod Stdio
pub mod Files
pub mod Mukv
pub mod PathRepo
pub mod Property
pub mod Options
pub mod Log
pub mod Session
pub mod Utils
pub mod Ra
pub mod Delta
pub mod Dump
pub mod Main
pub mod Svn
pub mod Samples
pub mod Tests
