-- ===== src/Lib.antt =====
-- db-tui, a terminal client for PostgreSQL: the state machine of a table tab (internal/grid), the
-- identity of requests (internal/core), the saved profiles with their passwords (internal/profile),
-- a tab with an SQL editor, its runs and their results (internal/sqltab), and the statements that apply
-- staged changes (internal/postgres).
--
-- The program is a tree of Bubble Tea models. internal/app owns the connection, internal/workspace
-- the tabs of one connection, and internal/grid one tab that shows a table. The tab takes messages
-- (keys, clicks, results) and answers with at most one command, an intent: describe this relation,
-- load this page, apply these changes, cancel this operation. The workspace runs it against
-- internal/postgres and sends the result back with the identity of the request (core.RequestMeta).
-- Edits are staged in the tab and reach the database only by an apply. An SQL tab works the same way: it
-- sends an immutable copy of its text, or of the selection, to be run, and one run at a time.
--
-- Which file models which code:
--   Core           internal/core/identity.go and error.go
--   Grid.Types     internal/grid/service.go: the data of the session interface; GoError is a chain of
--                  errors, and errors.As is a search in it
--   Grid.State     internal/grid/model.go: Model, newModel, the intents and messages
--   Grid.Rows      rowReferenceAt, identityKey, cellAt, stagedCell, safeGridText (staging.go) and
--                  computeColumnWidths (model.go)
--   Grid.Scroll    ensureRowVisible, ensureColumnVisible, moveRow, moveColumn, SetSize (model.go) and
--                  visibleColumns (view.go)
--   Grid.Snapshot  changeCount, Dirty, mutationsSnapshot (staging.go, model.go)
--   Grid.Requests  describe, startPage, retry, cycleSort, matches, Busy (model.go), startApply
--                  (staging.go)
--   Grid.Primitive validatePrimitive and parseAnyTime (staging.go)
--   Grid.Editor    insertEditorText, deleteEditorRune (staging.go)
--   Grid.Stage     stageValue, columnWritable, columnReadOnlyReason (staging.go)
--   Grid.Actions   openEditor, commitEditor, stageSpecial, stageInsert, toggleDelete,
--                  revertSelectedRow, clearChanges (staging.go)
--   Grid.Overlay   validateChanges, requestApplyConfirmation, updateOverlayKey (staging.go) and
--                  updateOverlayMouse (mouse.go)
--   Grid.Results   the result messages of Update (model.go), focusMutationError (staging.go)
--   Grid.Pointer   updateMouse, updateWheel, gridActionAt (mouse.go)
--   Grid.Update    updateKeyMessage and Update (model.go), updateEditorKey,
--                  updateEditorPaste and Captures (staging.go)
--   SqlTab.Types   internal/sqltab/service.go
--   SqlTab.State   the Model, NewModel, the intents and messages (internal/sqltab/model.go)
--   SqlTab.Offsets cursorOffset, setCursorOffset (internal/sqltab/editor.go)
--   SqlTab.Editor  the selection, replaceSelection, pushUndo, undoEdit, redoEdit, ensureEditorVisible
--                  (editor.go), safeEditorRune (view.go)
--   SqlTab.Typing  updateEditor (editor.go)
--   SqlTab.Results moveOutput, moveResultPage, moveResultRow, moveResultColumn, clampResultSelection and
--                  their like (model.go), resultColumnWidths and the columns in view (view.go)
--   SqlTab.Copying copySelection (editor.go)
--   SqlTab.Ended   what finishRun and finishFailedRun make of outputs and errors (model.go)
--   SqlTab.Runs    execute, rerun, startRun, finishRun, finishFailedRun (model.go)
--   SqlTab.Keys    updateKey, updateInspectorKey (model.go)
--   SqlTab.Pointer internal/sqltab/mouse.go
--   SqlTab.Update  SetSize, SetValue, Captures, Update (model.go)
--   Postgres.Statements  orderedMutationColumns, mutationExpression, optimisticPredicate
--                  (internal/postgres/mutations.go)
--   Postgres.Execution   applyInsert, applyUpdate, applyDelete, validateApplyRequest (mutations.go)
-- The other modules of Grid, SqlTab and Postgres hold the proofs, and
-- the modules Samples the theorems and tests at concrete tables and tabs.
--
-- internal/profile keeps the saved connections. Its Service stands between the launcher and three
-- things it does not own: a repository (a file), the system's keychain and the secrets of the
-- running process. A save changes all three, and has to go back when a later step fails.
--   Profile.Types       profile.go: Profile, Draft, Document; Prepared and SaveResult of service.go
--   Profile.Parameters  validation.go: the advanced parameters, sortedParameters
--   Profile.Validation  validation.go: ValidateDraft
--   Profile.Ports       profile.go: the interfaces that the service calls, as the record Ports over a
--                       state of theirs, and the record Lawful of what the service relies on
--   Profile.Secrets     service.go: the credential steps of Commit
--   Profile.Commit      service.go: Commit, restoreSecret
--   Profile.Service     service.go: Load, Draft, Prepare, Save
--   Profile.Deletion    service.go: Delete
-- Placing says where a save puts the profile. Undo, Changes, Restoring, Keeping, Forgetting, Saving,
-- Settling, Deleting, Valid and Loading hold the proofs, Profile.Machine a concrete keychain and
-- repository with their laws, and Profile.Samples the theorems at them. The secrets of the
-- process (session_secrets.go) are a map of the state.
--
-- How the code is read. A method with a pointer receiver is a function from the state to the state,
-- with the command beside it where there is one. A string is the list of its code points, and its
-- byte length is that of its UTF-8 form. A Go map is an association list with one entry for each
-- key; the loops over maps that the code runs either sort the keys first or only count. A number
-- of rows, columns or cells is a natural number, since the terminal gives no negative ones; where
-- the code subtracts and clamps, the clamp is written out. A request number is a uint64 and wraps.
-- Where Go would panic on an index, the model keeps the state or reads the zero value, and the code
-- tests the index first. Copies of maps have the values of the originals, so that the aliasing that
-- cloneMutation avoids is not visible. Keys and clicks are data as the terminal library reports
-- them.
--
-- What comes from outside the repository is the record Platform: the width of a text on the
-- terminal, the printed form of a database value (%T:%#v), ParseFloat, time.Parse and lower case;
-- the record Unicode: the classes of characters, lower case and case folding; and the record Terminal of
-- the SQL tab: the width of a text, and which characters are spaces. No theorem assumes
-- anything about them. The text area of an SQL tab is a widget of a library: the record SqlTab.State.Area
-- has the calls that the tab makes of it, over a state of the widget's own. Only the theorems on undo
-- and on the cursor assume something of it, the laws of SqlTab.Undoing.LawfulArea: setting a text keeps
-- it, perhaps tidied, a text of its own as it is, and moving the cursor keeps the text; and, for the
-- cursor, those of SqlTab.Moving.MovingArea: where no line is wrapped, a step down is one line down, and
-- a column that the line has is taken. With wrapped lines the widget's CursorDown moves by a row of the
-- screen, and nothing is said of where the cursor stands then. The transaction of the pgx driver is the
-- record Postgres.Execution.Tx: a call that runs a statement and gives the number of rows and an error,
-- and the quoting of identifiers; nothing is assumed of it.
--
-- The theorems on the profile service assume the laws of Profile.Ports.Lawful: a call of the keychain
-- that fails changes nothing, one that succeeds does what it says, a document that is loaded has a
-- version, and a save that succeeds has written its document. A save that fails has left the file as it
-- was or has written the document all the same: Save of internal/platform/profile_repository.go replaces
-- the file with os.Rename and can fail after that, at os.Chmod. Those on the way back after a failure, and
-- on a deletion, assume as well that the keychain answers right after a failed save of the document
-- (Profile.Undo.Answers), since the service drops the results of the calls that restore it; every
-- earlier call of the keychain may fail.
--
-- A context is its error: what a cancelled context does to a call is up to the ports. A time is its
-- distance from the zero time. cloneRawMessages and the appends that share a slice give equal values.
--
-- The history of the text is a list with the last snapshot in front, cut to 200, where the code appends
-- to a slice and cuts its front. The selected rows of a result are the keys of the Go map.
--
-- Two loops run on fuel. The one of ensureColumnVisible, and of ensureResultColumnVisible, has the
-- distance from the offset to the selected column, and ends with its own test. The printing of a number
-- has its value and one more, and each round divides by ten.
--
-- Not modelled: the drawing of the views, the connections of internal/postgres, the SQL that reads pages,
-- the loop of Apply over the changes with its commit and rollback, the collection of a run's results, the
-- workspace, the launcher, the app, the platform's files and keychain, the locks of SessionSecrets, and
-- the JSON form and the import of profiles.
pub mod Common
pub mod Core
pub mod Grid
pub mod Profile
pub mod SqlTab
pub mod Postgres
