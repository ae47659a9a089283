-- ===== src/Lib.antt =====
-- A verification library for the co-mono monorepo: a coding agent with its libraries (packages/).
--
-- The program's parts and how they interact. packages/ai speaks to the model providers.
-- packages/agent holds the agent loop (agent-loop.ts), which asks a model, runs the tools that it
-- calls and pushes events, and the class Agent (agent.ts), which queues messages, starts the loop and
-- keeps the conversation by following the events. packages/coding-agent is the application: its
-- session manager (core/session-manager.ts) keeps each conversation as a tree of entries in a file of
-- JSON lines and turns a branch of it into the messages for the model (core/messages.ts), and its
-- compaction (core/compaction/compaction.ts) decides where a long branch is cut and summarized; its
-- tools bound their outputs (core/tools/truncate.ts).
-- packages/tui reads the terminal: stdin-buffer.ts splits the input into sequences and pastes, and
-- components/editor.ts edits the prompt, with kill-ring.ts and undo-stack.ts. packages/pi-channels
-- brings chat messages to the agent: bridge/bridge.ts queues them by sender and bounds how many run.
-- packages/pi-teams lets agents work as a team, with mailboxes that are files under a lock.
--
-- The files.
--   Base, Base/*: lists, options, association lists, text and tests that the other files share.
--   Message: the message types of packages/ai/src/types.ts and core/messages.ts.
--   Session/Entry, Session/Manager: the entry types, the drawing of ids, the state of class
--     SessionManager as a record and its methods as functions on it. The file system is an
--     association list from paths to lines. Session/Walk is getBranch, Session/Context is
--     buildSessionContext, Session/Load is loadEntriesFromFile, setSessionFile and the migrations.
--     Session/Tree, Append, Persist, Walk/*, Context/Messages, Load/Reopen, Reach and Recovery are
--     proofs: the tree, what an append does, what is on the disk, branches, contexts, reopening, and
--     every run of the methods as a step relation.
--   Agent/Event, Agent/Response, Agent/Tools, Agent/Loop: streamAssistantResponse, executeToolCalls
--     and skipToolCall, runLoop, agentLoop and agentLoopContinue of agent-loop.ts. Agent/Class is
--     class Agent. Agent/Loop/*, Agent/Class/* are proofs.
--   Compaction/Tokens: estimateTokens, estimateContextTokens, shouldCompact. Compaction/CutPoint:
--     findValidCutPoints, findTurnStartIndex, findCutPoint. Compaction/Prepare and Compaction/Files:
--     prepareCompaction and extractFileOperations. Compaction/Branch: prepareBranchEntries of
--     branch-summarization.ts; Branch/Collect: collectEntriesForBranchSummary. The other children
--     are proofs.
--   Truncate: truncateHead and truncateTail of core/tools/truncate.ts, which bound the outputs of the
--     tools; its children are proofs.
--   Editing/KillRing, Editing/UndoStack: the classes of packages/tui/src. Editing/Editor and its
--     children: class Editor of packages/tui/src/components/editor.ts, its operations on the text
--     (Graphemes, Words), the kill ring (Kill, Yank) and the whole text and the history (Texts).
--     Editing/Command names the methods that keys call. Editing/Reference is an editor of one text
--     without lines, and Editing/Refinement/* are the proofs that the editor implements it.
--     Editing/Objects has the undo stack and the editor's state as mutable objects on a heap.
--   Channels/Command, Channels/Bridge: the bot commands and class ChatBridge of
--     packages/pi-channels/src/bridge; the children of the latter are proofs.
--   Teams/Lock: withLock and appendMessage of packages/pi-teams/src/utils (lock.ts, messaging.ts), as
--     steps of processes; its children are proofs.
--   Stdin/Sequence, Stdin/Extract, Stdin/Buffer: isCompleteSequence and its kin,
--     extractCompleteSequences, class StdinBuffer; the children of the last two are proofs.
--   The files named Tests hold runs at concrete values.
--
-- How code became definitions. A class is a record and its methods are functions on it; an exception
-- is a result; null and undefined are none. A promise is awaited where the source awaits it, so one
-- call of the loop is one function. JSON values of type unknown or any are kept as their text. What
-- the code takes from outside is a parameter: UUIDs, the clock, Date.parse, path functions,
-- Buffer.toString, Intl.Segmenter for the editor, and for the loop the model's streams, the tools and
-- the polls for queued messages (the record AgentLoopConfig). Terminal input is a list of UTF-16 units.
-- Where the editor and its undo stack share objects, Editing/Objects writes out the heap.
--
-- Fuel. get_branch has one round for each entry of the session, which is enough when parents stand
-- before their children; extract_complete_sequences has one for each unit of the text, and process
-- one for each unit of the input and the buffers; run_loop takes its fuel from the caller, and two
-- rounds for each unit of the surroundings' patience are enough. none is what a function returns
-- when its fuel runs out.
--
-- Not modelled: the providers, the terminal, the interactive mode and everything else that is mainly
-- input and output or calls of other packages; the dollar costs of messages; the abort signal, which
-- acts only inside a stream or a tool; the editor's rendering, its moves by visual line, completion
-- menu and markers of large pastes; the session manager's getTree, createBranchedSession, forkFrom
-- and the listing of sessions.
pub mod Base
pub mod Message
pub mod Session
pub mod Stdin
pub mod Agent
pub mod Compaction
pub mod Truncate
pub mod Editing
pub mod Channels
pub mod Teams
