-- ===== src/Lib.antt =====
-- Gibson's tool runner: one binary that runs a security tool for a request and answers with the
-- nodes of a knowledge graph.
--
-- The parts. cmd/gibson-runner reads the request from the environment, finds the tool's parser in
-- internal/registry, calls its Execute and prints the answer. A parser under parsers/ filters the
-- caller's arguments through the policy of its tool (internal/policy), runs the tool as a child under
-- the limits of internal/sandbox, and turns the output into hosts, ports, services, endpoints,
-- domains and findings. As a service it answers /readyz through internal/readiness and
-- internal/probes, with the telemetry of internal/observability, until a signal ends it.
-- cmd/mcp-bridge-runner starts a connector on the manifest that internal/bridgerunner finds.
--
-- The files, and the code that each is about:
--   Base      what all share: lists, byte texts, errors, decimal numerals, strings.TrimSpace
--   Base64    encoding/base64, and Json encoding/json, as far as the program calls them: Text and
--             Number are the literals, Lexer and Parser the syntax, Fields and Maps what a value is
--             decoded into, Print how a value is written
--   Policy    internal/policy/policy.go. ApplyArgs is apply_args, its loop apply_loop
--     Groups, Refinement   the specification by groups of tokens, and the loop against it
--     Allowed, Order       what comes through, and in which order
--     Paths                where a path leads that PathUnder accepts
--   Sandbox   internal/sandbox
--     Config    Config and DefaultConfig
--     Shell     Apply, shellWrapArgs, shellQuoteSlice; Posix is how a shell reads words, Quoting and
--               Wrapper are about the two together
--     Buffer    CappedBuffer: Init, Write, Bytes, Err are init, write, bytes, err
--     Limit     LimitReader
--   Registry  internal/registry/registry.go: the tables as one state; Tables is about Register and
--             Lookup, Filter about ApplyPolicy, Catalog about the order of Catalog
--   Graph     the nodes of graphrag.v1 that parsers build, with the fields they set
--   Process   the operating system as a parser sees it: environment, search path, run of a command
--   Parsers   parsers/*/*.go. Lines is the loop over JSON lines, Tool the run and its outcomes, both
--             repeated in each parser; Naabu, Masscan, Nmap, Amass, Dnsx, Httpx, Nuclei and Subfinder
--             are the eight tools, each with its Policy and its Graph: the nodes described with no loop,
--             by Gather (unions of nodes) and Dedup (first ones of a key). Links is about the
--             references between nodes, Fields has the struct tags and is about the records that
--             lines stand for (Outputs) and runs that go well (Runs). Tools is about all eight tools at
--             once: what their init functions
--             register (Startup), the flags named as denied (Denied), the graph in a response (Results,
--             Graphs), the words of each command line (Words), what ran (Commands), when there is no
--             error (Successes), and the answer to a rejected value (Rejected)
--   Bridge    internal/bridgerunner/bridgerunner.go, ManifestPath; Runner is
--             cmd/mcp-bridge-runner/main.go
--   Readiness internal/readiness/readiness.go and internal/probes/daemon.go
--   Observability  internal/observability/observability.go: Init and Shutdown are init and shut_down
--   Runner    cmd/gibson-runner/main.go: runDefault and decodeInputJSON. Abi, Delivery and Success
--             are about the whole run, Input about the request, Line about the text on the standard output
--   Serve     runServe and healthAddr of the same file. Process is its two goroutines as a machine,
--             Routes its mux; Invariant and Ending are about the runs of the machine
--   Modes     main and runListTools of the same file
--   Tests     runs at concrete inputs
--
-- The model. A text is a list of bytes. A Go error is a value of the type Error, with the format and
-- the arguments of its message unrendered. A map is an association list. A nil slice is the empty
-- list, a pointer an Option. An int64 or a uint64 that can wrap around does so in the definition. The
-- global tables and the buffers are states that are passed on, and a loop with an index is structural
-- recursion with a flag for a token that is consumed already. The one fuel is that of the decimal
-- numerals: it is more than the number of digits.
--
-- The server and main of runServe are interleaved in any order: a run is a list of moves, each of one
-- goroutine, of a signal, or of a call that returns, and a list with a move that is not possible is no
-- run. A signal that changes nothing is no move. The machine begins where the server's goroutine is
-- started; what observability.Init comes to stands before it, in run_serve.
--
-- Parameters. The child process is a function from the command, the deadline and the standard
-- input to what it writes, its exit code and its error, for a tool that exec.LookPath finds; for
-- another one cmd.Run returns the error of the look-up. protojson, the XML library of nmap,
-- strconv.ParseFloat, strings.ToLower, the JSON encoder of --list-tools, exec.LookPath, os.Stat,
-- os.WriteFile, the dialer, the constructors of OpenTelemetry, mcpbridge.Run and sort.Slice are
-- parameters. The contract of io.Reader is assumed of the reader that LimitReader wraps, and the
-- documentation of sort.Slice of the sort. Of net/http the machine has that ListenAndServe returns
-- ErrServerClosed only for a call of Shutdown, of os/signal that the channel keeps the first
-- signal.
--
-- Not modelled: flag.Parse, the kinds of JSON errors, what stands behind the length of a slice that
-- a repeated JSON key fills again, the JSON text of a /readyz body, the time-outs of the two
-- Shutdown calls of runServe (what the calls return is any error or none), mutexes (registrations
-- happen in init, handlers work on copies), and what a tool does with its command line.
pub mod Base64
pub mod Json
pub mod Base
pub mod Policy
pub mod Sandbox
pub mod Graph
pub mod Process
pub mod Registry
pub mod Parsers
pub mod Bridge
pub mod Readiness
pub mod Runner
pub mod Observability
pub mod Serve
pub mod Modes
mod Tests
