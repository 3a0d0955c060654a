-- ===== src/Lib.antt =====
-- The operator of kagents, which runs teams of coding agents as pods of a Kubernetes cluster.
--
-- A team (AgentTeam) is reconciled by repeated passes of internal/controller/agentteam_controller.go.
-- A pass reads the team, acts by its phase and writes its status: Pending makes the volumes and the
-- init job, Initializing waits for the job and starts the lead and the teammates that nothing holds
-- back, Running checks the timeout and the budget, copies the phases of the pods into the status,
-- restarts failed teammates, starts those that became free, and finishes the team; a terminal phase
-- deletes what is left. Templates (AgentTeamTemplate) are checked before they are used, and a run
-- (AgentTeamRun) makes a team from a template that is Ready and copies the team's status. A schedule
-- (AgentTeamSchedule) makes a run for each window of its cron expression and deletes old ones, and the
-- listener of internal/trigger makes one for each webhook that it accepts; a trigger's status is
-- computed from its runs.
--
-- Files and the code that they model:
--   Api, Api/Spec, Api/Status, Api/Resources,
--   Api/Triggers                                api/v1alpha1: the resources as records
--   Cluster, Cluster/Objects                    the Kubernetes objects and the client's calls
--   Template/...                                internal/controller/agentteamtemplate_controller.go
--   Run, Run/Child                              internal/controller/agentteamrun_controller.go
--   Schedule, Schedule/...                      internal/controller/agentteamschedule_controller.go
--   Trigger, Trigger/...                        internal/trigger/handler.go
--   TriggerStatus, TriggerStatus/...            internal/controller/agentteamtrigger_controller.go
--   Budget                                      internal/budget/tracker.go
--   Delivery                                    internal/delivery/delivery.go
--   Delivery/Senders, .../Outcome               internal/delivery/slack.go, webhook.go
--   Notifier                                    internal/webhook/notifier.go
--   GitHub, GitHub/...                          internal/github/client.go, parse.go
--   Http, Regexp, Regexp/...                    what these use of net/http, encoding/json, regexp
--   Fmt                                         the verb %q of fmt, filepath.Join
--   Harness                                     internal/harness
--   Metrics, Metrics/Registry                   internal/metrics/prometheus.go: the calls, what they do
--   Dashboard, Dashboard/Routes                 internal/dashboard/server.go, handlers_html.go
--   Dashboard/Sse, Dashboard/Funcs              internal/dashboard/sse.go, templates.go
--   Team/...                                    internal/controller/agentteam_controller.go:
--     Names, Conditions, Restarts, Artifacts      names, conditions, counts, recorded outputs
--     Order, Pipeline                             effectiveDependencies; updatePipelineStatus
--     Runtime                                     the state of a pass; isTimedOut, newTeamTracker,
--                                                 recordEvent, teamNotifier
--     Spending                                    maybeFireBudgetWarning, exportBudgetMetrics
--     Rbac, Pod, Provision                        ensureAgentServiceAccount; buildAgentPod;
--                                                 ensurePVC, ensureInitJob, ensurePushBranchJob
--     Agents, Sync, Failures, Finish              spawning, pod statuses, restarts, finalization
--     PullRequest                                 executeCreatePR and what it calls
--     Phases                                      Reconcile and its phase handlers
--     Phases/Edges, Phases/History                the phases as a state machine, over many passes
--   Prelude, Result, Exec, Exec/Keeps           shared names, errors, methods that change state
--   Examples/...                                sample resources, a small cluster, tests
-- A file Frame beside a component says what its calls leave of a pass; Team/Steps and
-- Team/Phases/Legs hold the rules that these files apply.
--
-- How the state corresponds: a Go method that changes the team and the cluster and may fail is an
-- `Action`, a function from a `Pass` (the cluster, the team in memory, what was sent out) to a result
-- and a pass. What was written before an error stays written. Events, posts of the notifier, metrics
-- and the statuses that were sent to the API server are kept in order in `effects`.
--
-- Parameters, the fields of `Env`: the API client with an abstract cluster as its state, the scheme
-- (`set_controller_reference`), the quantity parser, text/template (`render`), time.ParseDuration,
-- json.Marshal of a document whose objects are maps, the senders of deliveries (Delivery/Senders has
-- the operator's), the network of the GitHub client with url.PathEscape and json.Unmarshal, and float64
-- (`Float`).
-- A request's body is the JSON value that is marshaled. A pass reads the clock once, and between its
-- own writes the cluster stays as it is; a read gives the same answer until then. Times are
-- nanoseconds since an epoch. int32 counts are natural numbers: a restart count is at most
-- maxRestarts. Every loop of the code is over a list and is structural recursion here, so no fuel is
-- used; only the digits of a number in Prelude/Text have one, a step more than the number.
--
-- The run, template and schedule reconcilers have the API client's calls as parameters of their own,
-- and the schedule's also the cron parser; so has the listener, with the reading of a body, hex and
-- HMAC, and the trigger controller, with the order of sort.Slice. A response of the listener is its
-- code, content type and body. The condition messages of templates are ASCII texts, where a character
-- is a byte.
--
-- The dashboard's handlers return a response; those that stream return what is streamed, and
-- `stream_until_done` has the signals of its `select` as a list. A path is one that net/http has
-- cleaned. A response is its code and its body, whose constructor stands for the content type.
--
-- The gauge of active teams is an integer, and the other vectors of the metrics are the samples that
-- they were given. The notifier's POSTs run in the background: a pass keeps that one was started.
--
-- Not modelled: the HTML templates, the commands, which only wire flags and servers, the generated
-- code, logging, the registration of the controllers, the Helm charts and the images.
pub mod Prelude
pub mod Result
pub mod Exec
pub mod Api
pub mod Budget
pub mod Cluster
pub mod Delivery
pub mod Harness
pub mod Metrics
pub mod Template
pub mod Team
pub mod Run
pub mod Schedule
pub mod Trigger
pub mod TriggerStatus
pub mod Http
pub mod Regexp
pub mod Fmt
pub mod GitHub
pub mod Dashboard
pub mod Notifier
mod Examples
