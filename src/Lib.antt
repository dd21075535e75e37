-- ===== src/Lib.antt =====
-- FluxTerm: the state logic of the terminal application's front end, under src/.
--
-- Workspace: the pane tree, the session groups and their reducer,
--   src/features/session/core/workspaceReducer.ts with the types of src/types.ts. Workspace/Tree,
--   Reshape and Groups hold the operations, Reducer the actions; the other modules hold proofs.
--   Split ratios are numbers of a type `R` with the operations that the source calls (Math.min,
--   Math.max and three literals); `toLocaleLowerCase` is a parameter. A node is a value: that the
--   source returns the same object where nothing changes is not modelled. The fields `activate`
--   and `createdAt` of an action are never read.
-- Reconnect: what happens when a session's connection ends, in src/features/session/core/. Reason
--   is disconnectReason.ts, Policy reconnectPolicy.ts, Runtime reconnectRuntime.ts and Lifecycle
--   lifecycle.ts; Connections is the state that these read and write through the references and
--   setters they are given, with the timers of the browser as a list. A setter's update takes
--   effect at once. The answer of `createSshSession` is an argument, and so is what other events
--   do before it arrives. Retries holds proofs.
-- Sessions: the session hook, src/hooks/useSessionStateCore.ts, with the commands of
--   src/features/session/core/commands.ts and the calls of src/hooks/useSessionWorkspace.ts.
--   Model holds its state and small operations: the connections of Reconnect, with the workspace
--   of Workspace in them, and what the hook keeps besides. Events and Statuses hold what it does
--   when the back end reports, Commands, Handlers and Openings how sessions are opened, closed,
--   split and reconnected, HostKeys the questions about a host's key. A handler is a function
--   from the state to the state: what the back end answers is an argument, and so is `meanwhile`,
--   what other events do to the state before it answers. A handler starts from a committed
--   render, in which references and React states agree. Desk is the abstract view of the open
--   sessions; the other modules hold proofs. Inputs is the queue of a session's inputs, with its
--   promises as steps, and Sending the rest of sendSessionInput. The sizes of terminals, the
--   first local shell, the logging and the texts of dialogs are not modelled.
-- QuickBar: the quick command bar, src/main/hooks/useQuickBarState.ts. Model holds its data,
--   Config the check of a stored configuration, on any value that JSON.parse can return
--   (Base/Json), and Actions the operations, Views what is shown. Numbers of a stored file are of
--   a type `N` with the operations that the source calls; the translation and `toLocaleLowerCase`
--   are parameters, new ids arguments. The delayed saving is not modelled.
-- Layout: the widget layout, src/layout/model.ts with src/layout/types.ts. Slots holds the slots,
--   their keys and the changes of one slot, Stored the check of a stored layout and Structure
--   what the check calls; Keys, Dedupe, Loops, Moves and Tidy hold proofs. Slots are an
--   association list by their keys, and values, so that cloneSlots is no operation. The numbers
--   of a stored layout are of a type `N`; the count that increaseSideSlots is given is a whole
--   number. Hook is src/main/hooks/useLayoutState.ts, with what
--   src/main/hooks/useFloatingWidgets.ts does to the slots; SlotKeys, Shifting and Splits hold
--   its proofs. The dragging of sizes, the saving and the windows are not modelled.
-- History: the history of commands, src/hooks/useCommandHistoryState.ts, with trimHistoryItems of
--   src/features/command-history/core/inputTracker.ts (Buckets). Bounds and Removal hold proofs.
--   Input is the input line of inputTracker.ts, and Typing its proofs: a character is a code
--   point. Times are natural numbers, the time of day is an argument. The live capture of the
--   input line is not modelled.
-- Hosts: the list of hosts, src/widgets/profiles/components/hostWidgetModel.ts (Groups), and its
--   proofs (Shown). How texts compare in the list's language is a parameter.
-- Sftp: the running transfers, src/features/sftp/core/transferState.ts (Transfers). The key of a
--   transfer is a parameter.
-- Terminal: createTerminalCreationGate of src/features/terminal/core/runtimeLifecycle.ts. Gate
--   holds its state and steps: the calls, and the callbacks of its promises, in any order;
--   Creations, Cancelled and
--   Pending hold proofs.
-- Base holds what the components share: lists, texts, white space, maps with text keys and JSON
--   values.
--
-- Not modelled: the other hooks and the components of the interface, the settings, the terminal's
-- runtime, and the back end in Rust.
--
-- The loop over a side's slots has fuel for the ten slots that a side can have, which
-- Layout/Loops proves to be enough, and the search for control sequences the length of the text,
-- which History/Typing proves to be enough; all other recursion is structural.
pub mod Base
pub mod Workspace
pub mod Sessions
pub mod Hosts
pub mod Reconnect
pub mod Terminal
pub mod History
pub mod Sftp
pub mod Layout
pub mod QuickBar
