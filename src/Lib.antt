-- ===== src/Lib.antt =====
-- sqlc-gen-unison turns what sqlc analyzed, one SQL dialect at a time, into one Go package that all
-- dialects share. sqlc runs the program once for each dialect as a plugin. A run parses the options
-- that it was sent (internal/options), converges the analysis onto shapes that do not depend on the
-- dialect (internal/converge, over internal/ir), and emits four Go files (internal/emit/gogen): three
-- that every dialect writes alike, and its own. An orchestrator (internal/orchestrator) reads the
-- consumer's configuration, writes a configuration of sqlc for each dialect, and starts sqlc on it, which
-- calls the same binary back as its plugin. Nothing is merged: the design rests on the shared files
-- being the same bytes from every run.
--
-- Which file models which part:
--   Ir          internal/ir/ir.go. `Type` of the source is `FieldType`.
--   Options     internal/options/options.go: Normalize, Parse, Renames, OverrideFor.
--   Converge    internal/converge: Analysis the protocol messages and the errors, Requests `Package`
--               and `convergeQuery`, Params `convergeParams`, Columns `convergeColumns`, Types
--               types.go and times.go, Slices slices.go, Prefix prefix.go.
--   Gogen       internal/emit/gogen: Names names.go, Types and Imports types.go, Times times.go,
--               Database and Interface the shared files of emit.go, Queries queries.go, Files `Emit`,
--               and Templates the fixed texts, literally.
--   Plugin      internal/generate `Files`, internal/protocol `Serve`, `IsPluginInvocation` and
--               `isTerminal`, and `parseLevel` of internal/cli/root.go.
--   Orchestrator  internal/orchestrator/config.go: `Load`, `Roster`, `validate`, `PluginOptions`.
--   Runner      internal/orchestrator/run.go: `renderConfig`, `relativeTo`, `optionsMap`,
--               `checkSQLCVersion` and `run`. A state is the disk and the lines that were logged.
--               Runner.Written is where the orchestrator, sqlc and the plugin meet.
--   Host        the configuration of sqlc in run.go, and the answers of the operating system, YAML,
--               JSON and processes.
--   Sqlc        internal/sqlcdriver/sqlcdriver.go: `Run`, `Version`, `PinnedVersion`.
--   Cli         internal/cli and cmd/unison/main.go: `Execute`, the commands, plugin mode, the exit code.
--   Version     version/version.go.
--   Containers  internal/containers, pgtest and mysqltest: the gate, the two retry policies, and `Run`
--               with its cleanups.
--   Disk        the files that a run reads and writes: paths with contents, the newest first.
--   Paths       the functions of Go's `path/filepath` that the orchestrator calls.
--   Strings     the functions of Go's `strings` package that the program calls.
--   Base        lists, texts, results, orders and sets, and the names of the libraries.
-- A definition has the name of its Go function in lower case with underscores. Below a part stand the
-- modules of its theorems, named for what they show, and Tests holds runs on concrete values.
--
-- How the code is read:
--   A Go string is a list of bytes. Case, white space and identifiers are those of ASCII; a byte above
--   127 is neither a letter nor a space, where Go decodes it, and `%q` leaves it as it is.
--   A Go map is a list of its entries. Where the source ranges over one, the order of the list is taken.
--   An error is a constructor over the values that its message shows; `fmt.Errorf` with `%w` is a
--   constructor around the error inside.
--   A message that is absent is one whose fields are zero, as the protobuf getters read it.
--   Where Go returns a result beside an error, and a caller sees both, the model has both: the bytes that
--   stdout took before a write failed, and a container that came with an error.
--   A log line that warns is a member of a list that is returned beside the text.
--   Sorting inserts one element at a time. Where elements compare equal the model keeps their order,
--   which the runtime's sort does not promise.
--   A path is as on Unix. Links do not change while a run goes on, and a directory that cannot be
--   removed keeps its files.
-- The JSON and YAML codecs, the protobuf codec, the formatter go/format, the answers of the operating
-- system, the streams, cobra's reading of the arguments and its report of an error, sqlc, Docker and the drivers are parameters:
-- functions that give `none`, `false` or an error where they fail. What a theorem relies on of sqlc is
-- the record `IsSqlc` of Runner.Output.
--
-- Loops are structural, with two exceptions. `render_starred` has fuel for one star more than the text
-- has bytes, and each call drops a star; that it never runs out is part of the theorems on errors.
-- `digits_from` has fuel for one digit more than the number, which has fewer.
--
-- Not modelled: what the logger's handler writes; the help and the parsing of cobra; the context that a
-- signal cancels, but for the sleeps that it interrupts; and the packages of tests alone
-- (internal/execution), the golden files and the scripts, which hold no code of the program.
pub mod Base
pub mod Strings
pub mod Paths
pub mod Ir
pub mod Options
pub mod Converge
pub mod Gogen
pub mod Plugin
pub mod Disk
pub mod Sqlc
pub mod Host
pub mod Containers
pub mod Version
pub mod Orchestrator
pub mod Runner
pub mod Cli
pub mod Tests
