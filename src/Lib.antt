-- ===== src/Lib.antt =====
-- yby is a command-line tool that generates and runs Kubernetes projects. Its core (pkg/)
-- generates a project from templates and merges later versions of them into it, talks to the
-- model providers of its assistant, and authenticates to managed clusters; its plugins (plugins/)
-- are programs of their own: Atlas maps a project, Sentinel scans a cluster for insecure
-- settings, Viz shows one on a terminal, Bard is an assistant. This library models:
--
-- Ai, pkg/ai: Provider (provider.go, errors.go) is the interface that every model client offers,
--   with the errors it returns. Breaker (ratelimit_provider.go, `CircuitBreaker`) is the state
--   machine that stops the calls of a failing server, one definition for each method; RateLimit
--   is `RateLimitProvider`, which wraps a provider with the breaker and a token bucket.
--   EmbeddingCache is the LRU cache of cached_provider.go, and EmbeddingCache.Documents its
--   `EmbedDocuments`, which asks the wrapped provider for what the cache does not have.
-- Atlas.Diff, plugins/atlas/analysis/diff.go: what changed between two maps of a project.
-- Atlas.Cycles, plugins/atlas/analysis/cycles.go: the cycles of the dependencies on such a map.
-- Bard.Tokens, plugins/bard/tokens.go: the token budget of a prompt. Bard.History, history.go beside
--   it: the file of the conversations.
-- Cloud.Token, pkg/cloud/token_cache.go and token_refresh.go: the HTTP transport that adds a
--   bearer token, caches it and renews it.
-- Context, pkg/context/context.go: the environments of a project and the current one.
-- Plugin.Trust, pkg/plugin/trust.go: the registry of the plugins that the user trusts.
-- Scaffold.Manifest, pkg/scaffold/manifest.go and context.go: the decisions of `yby init`, saved,
--   loaded and merged into a new context.
-- Scaffold.Merge, pkg/scaffold/merge.go and `ComputeFileHash` of manifest.go: the plan of a
--   three-way merge and its application to a directory.
-- Sentinel, plugins/sentinel/cli: Kube holds the parts of Kubernetes objects that the checks
--   read, Finding is checks/types.go, Pods.Privilege, Pods.LinuxCapabilities, Pods.Resources and
--   Pods.Spec are the twelve checks checks/pod_*.go. Cluster has the other seven: Rbac with
--   Allowlist (rbac_*.go), Network (netpol_*.go) and Images (image_*.go). Registered lists all of
--   them, Profiles is profiles/, Scan is checks/registry.go with the pipeline of scan.go, and
--   Remediation is remediation/. The findings of the checks flow through Scan into Remediation.
-- Viz.Retry, plugins/viz/internal/monitor/retry_client.go: the client that repeats failed calls.
-- Viz.Ui, plugins/viz/internal/ui and actions.go, logs.go, yaml.go of plugins/viz/internal/monitor:
--   the state, the messages and the commands of the dashboard stand in Ui; Keys has the texts of
--   the keys, Lists search.go and what a tab selects, Update the handlers of each mode,
--   Dispatch `Update` itself, Commands the calls of the cluster and Perform the commands, run.
--   Types is types.go.
-- Prelude has what they share: Boolean tests, lists, maps, results and the state-and-error monad.
--
-- A Go method on shared state is a function of that state that returns a result and the new state
-- (`Exec`). Code outside the repository is a parameter: the clock, sleeping, SHA-256, the token
-- bucket of golang.org/x/time/rate, the API server, JSON, the operating system's permissions, the
-- generators of tokens, the wrapped clients, label selectors, cosign and the patterns of secrets.
-- They act on a world `W` of any type, and where a theorem needs to count what they did it takes
-- a count on `W` with its laws as hypotheses. Error texts are kept where they carry data.
-- Methods that hold a mutex are taken as atomic, so that concurrent use of the circuit breaker
-- is a sequence of its calls; the token transport is modelled for serial use.
--
-- Numbers are natural: times and durations are nanoseconds, and none of the code modelled
-- subtracts below zero except where the text says so. Go's `int` has 64 bits; the counters and
-- token estimates modelled here do not come near that bound, and its wrap-around is left out. The
-- loops range over lists, and the retry loop counts its attempts down from their limit. Two
-- loops take fuel. The eviction loop of EmbeddingCache takes the length of its list, since each
-- round takes one element off. The search of Atlas.Cycles and its walk up the parents take the
-- number of nodes, since each call of `dfs` colours a white node and a chain of parents repeats
-- none. A Go map is an association list; where Go leaves the order of a `range` open the
-- theorems hold for every order of the entries.
--
-- Not modelled: the commands (cmd/), and the rendering of the terminal interfaces; the
-- services that run kubectl, helm and k3d; the clients of the model providers and the vendors'
-- SDKs; the template engine; the external scanners of Sentinel, and its reports; the discovery of
-- Atlas, and Synapstor; the interactive resolver of a merge, which stands for any function.
mod Prelude
pub mod Ai
pub mod Atlas
pub mod Bard
pub mod Cloud
pub mod Context
pub mod Plugin
pub mod Scaffold
pub mod Sentinel
pub mod Viz
