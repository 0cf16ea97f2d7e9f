-- ===== src/Lib.antt =====
-- The gateway's core: who may do what on which machine, the tasks it runs and the output it keeps
-- (src/core, src/infra, src/shared).
--
-- The gateway runs commands and transfers on remote machines for its clients. A client names a
-- target; the target registry resolves the name and applies the target's policy. Work that takes
-- long runs as a task: a client starts it, polls its state, reads its output in pages and may cancel
-- it, and the task store bounds how many tasks run and are kept. Output that is too large to return
-- at once is kept in files, whose bytes a quota accounts for. A fixed probe tells what a machine is
-- and whether it is ready for a deployment; its output is parsed with suspicion. Commands are handed to
-- the shell of the target so that no text of a client is taken for a part of the shell's own, an
-- executor is chosen by the target, and what is logged is redacted.
--
-- Files:
--   Prelude, Prelude/*   lists, Boolean tests, text and keyed maps over the native numbers
--   Errors, Result       src/shared/errors.ts: GatewayError, toPublicError; raised errors as values
--   TargetRegistry/Types the records of src/core/target-registry.ts, the configuration that it reads
--                        (src/config/load-config.ts), and enumerations of src/shared/protocol.ts
--   TargetRegistry/Index createEntry, the constructor, require
--   TargetRegistry/Authorize   the authorize methods
--   TargetRegistry/IndexLaws, Grants, TransferGrants   the theorems
--   OutputStore/Quota    RetainedByteQuota of src/core/output-store.ts, and its laws below it
--   TransferPaths        normalizeRemoteTransferPath of src/core/transfer-paths.ts for POSIX,
--                        and quoteSftpBatchPath
--   TransferPaths/*      the segments and the normal form of a path, a reader of quoted paths, and
--                        the branch for Windows with its theorem
--   ProbeParser          src/core/probe-parser.ts: what the probes print on a target, read back
--   ProbeParser/Fields, Frame, Facts, Ports, Containers, Report   the readers of fields, parseFrame,
--                        readDockerFacts and parseTargetInfo, readPorts, readContainers,
--                        parseDockerPreflight with deriveOverall
--   ProbeParser/FrameLaws, Disk, Warnings, Grounds, GroundsLaws, Verdict, Bounds, Ready   the lemmas
--                        and the theorems
--   RemoteCommand        src/core/remote-command.ts: Validate has the guards on structured commands,
--                        Render what is put on the command line and on the standard input
--   RemoteCommand/Quoting, Acceptance, Refusal, Wrapper   the lemmas and the theorems
--   RoutingSshExecutor   src/infra/routing-ssh-executor.ts
--   RoutingSshExecutor/Runs, Safety, Leaks   calls in any order, and the theorems
--   Redact               src/infra/redact.ts: the sensitive keys
--   Redact/Walk          redact, over a heap of objects that may hold themselves
--   Redact/Secrecy, Bounds   the theorems
--   MachineIdentity      src/core/machine-identity.ts, but for the key file
--   MachineIdentity/Probed   what a probe reports and what an identifier is derived from
--   Utf8                 src/shared/utf8.ts: completeUtf8PrefixLength
--   Utf8/*               well-formed UTF-8 as a data type, and where the prefix ends
--   RollingLog           RollingByteLog of src/core/task-store.ts: append, read
--   RollingLog/*         the log against the whole stream: appending, one page, all pages
--   TaskStore/Types      the records and enumerations of src/core/task-store.ts and the enumerations
--                        of src/shared/protocol.ts
--   TaskStore/Table      what happens to one task (#complete, #fail, the timer, cancel, append) and
--                        the Map of tasks
--   TaskStore/Store      the methods: start, cancel, shutdown, #require, #cleanup,
--                        #makeRetentionRoom, #uniqueRunId
--   TaskStore/Step       the events of a store as a step relation, and runs of it
--   TaskStore/Cursor, Client   the cursors of tail; status and tail
--   TaskStore/CursorLaws, Tailing   the theorems on cursors and on tail
--   TaskStore/TableLaws, ChangeLaws, Outcome, Shape   lemmas on the Map, on a change of a task, on
--                        one task
--   TaskStore/Room, Invariant, Fate, Unclaimed, Lifecycle, Admission, Closing   the theorems
--   */Tests              runs at concrete inputs, and the theorems at them
--
-- State. An object is the record of its private fields; a method returns its result or failure
-- beside the new object, and a Map is a list of its entries in insertion order. A method takes the
-- readings of the clock that it makes and the ids that createRunId gives as arguments. A worker of a
-- task is not a function but its effects: each append, completion and failure is a step, in any
-- order, as the event loop may interleave them with the calls of clients. So is the outcome of each
-- close in RoutingSshExecutor. In Redact, objects have an identity and stand in a heap.
--
-- What the runtime does with bytes, texts, JSON and hashes is a parameter: the records Decoder of
-- RollingLog, Runtime of TargetRegistry/Types, Codec of ProbeParser/Frame, Texts of
-- RemoteCommand/Validate, CursorCodec of TaskStore/Cursor and Runtime of Redact/Walk (which also
-- stands for the regular expressions of redactText), and the arguments iso of status, hmac and lower
-- of MachineIdentity. A regular expression elsewhere is a test on code points.
--
-- The parts meet where the code makes them meet: TaskStore keeps its output in RollingLog, which cuts
-- its pages by Utf8, and tail puts both together with the cursors; RemoteCommand and ProbeParser
-- share the limits and readers of TargetRegistry, TransferPaths and RollingLog; MachineIdentity
-- derives from what ProbeParser has read; every failure is one of Errors.
--
-- Bounds and fuel. make_room takes one round more than there are tasks, and each round drops one.
-- unique_run_id has the eight attempts of the source. read_on, a reader that asks again and again,
-- takes one round for each byte. visit of Redact/Walk descends by the depths that are left, which
-- the limit of depth bounds. Numbers are natural numbers; the source's offsets and times are
-- safe integers, and the tests on that are kept where the source makes them. Aliases are compared by
-- code points, as the source does for the ASCII texts that aliases are.
--
-- Not modelled: of TaskStore the awaiting of the workers at the end of shutdown; of TargetRegistry
-- the preset operations, the removal of targets, the update of metadata and the listing; of
-- OutputStore the files; of the transfer paths the local ones and the SFTP batches; of
-- RoutingSshExecutor how failures to close are gathered; of MachineIdentity the key file. The parts of
-- the program that are not named above (the services, the daemon, the other executors, the user
-- interfaces) are not modelled.
pub mod Prelude
pub mod Errors
pub mod Result
pub mod Utf8
pub mod RollingLog
pub mod TaskStore
pub mod OutputStore
pub mod TargetRegistry
pub mod TransferPaths
pub mod ProbeParser
pub mod RemoteCommand
pub mod RoutingSshExecutor
pub mod Redact
pub mod MachineIdentity
