-- ===== src/Lib.antt =====
-- Benchwarmer: a controller that runs a local language model on a gaming PC only while its GPU is
-- otherwise idle. This library models the parts that decide: what the worker should do, when it may
-- load, and which requests it admits.
--
-- Parts and files:
--   State        internal/state/state.go: lifecycle states, conditions, the transition table
--                (`can_transition` is CanTransition). State/Paths is about runs of transitions.
--   Schedule     internal/schedule/schedule.go, with ClockMinutes and Weekday of
--                internal/config/validate.go: `active`, `in_window`, `next_change`.
--   Policy       internal/policy: the facts and the decision (Types, from types.go), the rules in the
--                order of yieldRules (Rules), eligibility, timers and Evaluate (Evaluate, from
--                evaluate.go). Outcome, Precedence, Threats, Eligible, Safety and Timers are about them.
--   Proxy/Gate   internal/proxy/gate.go: the admission gate. What runs under its mutex is one
--                `Event`; a list of events is an interleaving of the goroutines. Proxy/Usage is usage.go:
--                what is kept of a response for its log line.
--   Controller   internal/controller: the record of its state with `transition` (Types, from
--                controller.go), and step.go in the modules Timing (waits), Stop, Load, Act, Observe
--                and Step. `step` is Controller.step, composed as there. Gate, Running, Same, Invariant,
--                Yield, Drain and Zombie are about them.
--                Controller/Backend is backend.go and the start (controller.go): mode requests, manual
--                drains, a saved configuration, suspend and resume, the saved state; Jobs and Results
--                count the stops under way, Reach is all that can happen, in any order, and Unsafe joins
--                the policy's safety rules to the step. The modules Samples and Runs hold tests.
--   Classify     internal/classify/classify.go: `classify` is Match; Classify/Glob is globMatch, and
--                Classify/Match is about it.
--   Gguf         internal/gguf/gguf.go: the methods of the reader (Reader), the values (Value) and Parse
--                (Parse); Budget is about them.
--   Shipped      internal/config/builtin.go: `merge_builtin_rules`, which brings the shipped application
--                rules, a parameter, to a configuration. Insert, Adopt and Once are about it.
--   ModelPlan    internal/modelplan/modelplan.go: `compute` is Compute, for the metadata of Gguf; Steps
--                and Fits are about it.
--   Api          internal/api: SignIn is signin.go, with Once and Bounded about it; Request holds what
--                Go's library gives of a request; Auth is auth.go; Routes is the table of endpoints and
--                `serve` of handler.go, Mode its change of the mode, down to the controller. Owner, with
--                OwnerStatus, is owner.go: `derive_owner` is DeriveOwner; Owner/Rules and Owner/Shown are
--                about it.
--   Telemetry    internal/telemetry/sample.go: a sample of the GPU, and `split`, which is Split.
--   Observe      internal/observe/observe.go: what spans ticks (State), the figures of one sample (Measure),
--                and `observe`, which is Observer.Observe for the GPU and the session. Timers, Window and
--                Memory are about it. Apps holds the applications and the whole (`facts`); Apps/Sorted,
--                Apps/Chosen and Apps/Foreign are about them.
--   Winsvc       internal/winsvc: the events and their translation (winsvc.go), and `supervise` of
--                supervisor.go (Supervisor). Answers and Acks, StopState, StopStep and Stopping, Heard,
--                ReportMoves and Reports are about it.
--   GpuReset     internal/gpureset/gpureset.go: the scan, New, SetSince and Poll; GpuReset/Seen is about them.
--   Redact       internal/config/redact.go: `redact_args` and `restore_redacted` on the runtime's arguments.
--   Config       internal/config/config.go: the sections that the other parts read.
--   Platform     what the repository does not implement: floating-point numbers, the lower case of a
--                code point, and the time zone database. It is a parameter of the definitions.
--   Prelude      shared names and lemmas. The modules Plain hold data for tests, Samples the tests.
--
-- How they interact: the policy asks the schedule for the active profile and decides from a snapshot;
-- a step of the controller takes in what has happened, lets the policy decide, adds to the decision
-- what the API has asked for and what forbids a load, and turns it into transitions, jobs for
-- goroutines, and calls that open or close the gate. The gate is part of the controller's record, as
-- the controller alone opens and closes it. What a step finds outside (results of the jobs, an exit of
-- the runtime, resets of the GPU, the facts that the fact builder makes, the answers of the adapter)
-- is the record `Inputs`; the order in which the goroutines end is the
-- order of the inputs of successive steps.
--
-- Conventions: an instant and a duration are a number of nanoseconds, an instant since the zero
-- `time.Time`, so that 0 is `IsZero`. Sizes and durations are natural numbers, as the validation of
-- the configuration admits no negative ones; sums of instants and durations are not bounded. The empty
-- string of an enumeration is its constructor `unset`. `Evaluate` is split by tier into functions that
-- return the matches of that tier in the order of the code. NextChange runs at most
-- 11,520 rounds, one for each minute of its eight days. The counters of the gate wrap at 2^64.
-- `double` runs the loop of a wait at the `n`th attempt with n - 1 rounds, which is its bound on `i`.
-- The reason of a recovery leaves out the number of the attempt: the policy reads only how the reason
-- begins. The gate and the configuration are always present, and the optional collaborators of the
-- controller are inputs that may be absent. What the requests do to the gate happens between two steps.
-- What Go's `time` package answers to a mode request (ParseDuration, LoadLocation, In and Date) is the
-- parameter `Calendar`. The indices of
-- globMatch are the texts from them on, and its fuel is one round more than the length of the text, for
-- each code point of the pattern and one more; an answer always comes. The loops of the GGUF reader recur
-- on their counts, and the depth of nested arrays on the levels left. In Api texts are lists of bytes, and
-- what net/http, net/url, mime, strings and crypto/sha256 answer is the record `Net`; of two entries of
-- the sign-in with the same end of time the first counts as the older, an order that Go leaves open.
-- In ModelPlan a cost per token is a word of 64 bits, where 2^63 and more stand for a negative number; the
-- products of a room in MiB with 2^20 are taken to fit, which they do below 2^43 MiB.
-- A regular expression is a parameter: a test of a name in Redact, the record `Matcher` in Proxy/Usage. In
-- Observe and Telemetry no float is NaN, and a time that ends before it begins is 0 long, where the code
-- has a negative duration; the uint32 of a process id is taken modulo 2^32. In Winsvc the loop runs on the
-- list of what its channels bring, so that every order of them is a list; an instant read from the clock
-- stands with each. In GpuReset what the directories hold is an input, `filepath.Join` a parameter, and a
-- map a function; in Api/Owner `strconv.Atoi` is a parameter, with 0 for what is no number. What the
-- deferred calls cancel and stop once the handler has ended is left out.
--
-- Not modelled: the texts for people (reasons, evidence), which no modelled code reads beyond a prefix; of
-- the controller the status documents, the history of configurations, the waits for a stop, events and
-- metrics; after `Shutdown` has waited the process ends, so what it does to the state then is left out;
-- the list of all users of the GPU for the owner, the collection of GPU counters and of processes, the
-- reverse proxy, the store, the other HTTP handlers, the headers and bodies of answers, the wait for an
-- acknowledged suspend, and the Windows calls.
pub mod Prelude
pub mod State
pub mod Platform
pub mod Config
pub mod Schedule
pub mod Policy
pub mod Proxy
pub mod Controller
pub mod Classify
pub mod Gguf
pub mod Telemetry
pub mod Observe
pub mod Shipped
pub mod Redact
pub mod Winsvc
pub mod GpuReset
pub mod ModelPlan
pub mod Api
