-- ===== src/Lib.antt =====
-- Verification of the uiauto framework, a Go library for self-healing browser automation: the
-- parts that decide. The model router sends each action to a light executor, a smart discoverer or
-- a vision model; circuit breakers, a phase tracker and a convergence counter steer it. Workflow
-- graphs of agents are edited and sorted by the evolver. The language-model layer spreads requests
-- over a pool of upstreams with health marks, behind a scheduler with a queue for each user, or over
-- providers in tiers. Patterns of pages are compared, clustered and kept in stores with a fallback.
--
--   Breaker     pkg/uiauto/circuit_breaker.go: Allow, RecordSuccess, RecordFailure, State, Reset and
--               Stats, with the ring buffer of outcomes and the adaptive threshold
--   DomBreaker  pkg/domheal/circuit_breaker.go: the breaker that guards the light executor
--   Tiers       pkg/uiauto/model_router.go: ModelTier and ToWSLTier
--   Phase       pkg/uiauto/model_router.go: PhaseTracker
--   Router      pkg/uiauto/model_router.go: ModelRouter, which uses DomBreaker, Tiers and Phase
--   Maturity    pkg/uiauto/pattern_maturity_tracker.go: PatternMaturityTracker, which uses Tiers
--   Workflow    pkg/evolver/workflow_graph.go: WorkflowGraph, its edits, TopologicalSort, Validate and
--               RecordRun
--   Promotion   pkg/evolver/promotion.go: PromotionPipeline, whose Submit and Promote are two sections
--               each
--   Upstream    pkg/llm/upstream_pool.go: UpstreamPool
--   RateLimit   pkg/llm/rate_limited.go: RateLimitedProvider
--   FairShare   pkg/llm/fairshare.go: FairShareScheduler; its processRequest is a function of its own,
--               one request at a time, which uses Upstream
--   Tiered      pkg/llm/router.go: TieredProvider and TieredRouter
--   Similarity  pkg/domheal/fingerprint_matcher.go and structural_matcher.go: the similarity of pages
--   Matcher     the same two files: FingerprintMatcher and StructuralMatcher, over any similarity;
--               that of fingerprints, which Similarity counts in twentieths, is scaled to 0 to 1
--   Cluster     pkg/uiauto/pattern_cluster.go: ClusterEngine, which uses Similarity
--   Store       pkg/uiauto/store/sqlite.go: the interface PatternStore and JSONFileStore; its child
--               Fallback has pkg/uiauto/store/fallback.go: FallbackStore, over any two stores
--   Escalation  pkg/uiauto/model_escalation_policy.go: ModelEscalationPolicy, which uses Tiers
--   Chain       pkg/uiauto/latency_budget.go: LatencyBudget and FallbackChain, which use Tiers
--   Budget      pkg/uiauto/budget/router.go: the router by cost
--   Sequence    pkg/uiauto/action/sequence.go: Run with its rollback
--   Pool        pkg/uiauto/parallel/pool.go: Run and the counts of Summary
--   Names       lists of names without repetitions, for several parts
--   Prelude     the names and lemmas that the parts share
--
-- A method that a mutex guards is a function of the state; a mutex that a panic can leave locked,
-- in the rate limiter, has a field for that. Clock readings are numbers and are given
-- as arguments, as are random draws and the answers of executors, models, pages and probes. The
-- order in which Go visits a map is the order of the list that stands for it, so what holds of every
-- list holds of every visit; what a store on the disk reads back is compared by what a key finds. The
-- scheduler and the pool, whose goroutines share channels, are step
-- relations that allow all interleavings of their steps; so does the promotion pipeline, by the
-- sections that its lock leaves. The failure rates, similarities and averages, which the source keeps
-- as floating-point numbers, are fractions, compared by products; money and confidences are whole
-- numbers of small parts. The loop of TopologicalSort runs on fuel, a round for each node: a node
-- enters the order once, and the sort is shown to end by its own test. So does the search of Validate,
-- with a unit for each node. Counters are natural numbers without a bound; the source's are 64 bits
-- wide and count calls.
--
-- Not modelled: metrics and logs, HTTP, the browser and the models themselves, durations in the
-- statistics, Clone in the workflow graph, the delivery of a response to the caller of the scheduler,
-- the regular expressions that read a page, and the exponential decay of the drift score.
mod Prelude
mod Names
pub mod Breaker
pub mod DomBreaker
pub mod Tiers
pub mod Phase
pub mod Router
pub mod Workflow
pub mod Similarity
pub mod Store
pub mod Matcher
pub mod Chain
pub mod Escalation
pub mod Pool
pub mod Cluster
pub mod Promotion
pub mod Sequence
pub mod Budget
pub mod Maturity
pub mod Tiered
pub mod Upstream
pub mod RateLimit
pub mod FairShare
