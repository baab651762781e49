-- ===== src/Lib.antt =====
-- ProjectStark ("Hardwareless AI"): a gateway in front of a pipeline that streams hypervectors,
-- vectors of signs of ten thousand dimensions, through nodes which bind their own vector into
-- them, with caches, pools and guards around the calls of translation and inference services.
-- This library models the parts that keep state or compute by their own rules, each from its
-- Python source, and proves what makes them correct.
--
-- How the parts interact: a request passes the rate limiter (Gateway), is encoded and streamed
-- through the pipeline (Pipeline), whose nodes use the hypervector algebra (Hdc); packets carry
-- vectors between nodes (Network, Runtime); a call of a service goes through a circuit breaker
-- and a bulkhead (Resilience); results are kept in a cache of tiers (Cache).
--
-- Prelude: the names that all modules share, with Boolean tests on numbers (Tests), lists
-- measured by native numbers (Lists), signed integers (Int), bytes (Bytes) and Python's ordered
-- dictionaries (Dict).
--
-- Resilience models core_engine/resilience/__init__.py. Breaker is CircuitBreaker
-- (record_success, record_failure, record_timeout, record_slow_call, can_execute, health_score,
-- stats); Breaker.run is any sequence of those calls. Bulkhead is Bulkhead with
-- asyncio.Semaphore as Python 3.11 implements it, a coroutine cut at its await: acquire, resume
-- and release are the steps, and reachable states are those that any interleaving of them
-- reaches. Calls, Middleware, Fallback, Timeout and Guarded are
-- CircuitBreakerMiddleware.__call__, FallbackChain.execute, TimeoutCascade and
-- create_guarded_backend, with the function that they guard as a parameter: an action that takes
-- time and returns or raises.
--
-- Cache models core_engine/cache/manager.py. Lru is MemoryLRUBackend over an ordered dictionary,
-- Backend the interface CacheBackend, with Reliable as the laws that a client relies on, which
-- Lru.Tier fulfils for the memory backend; Composite is CompositeCache over any tiers, Manager
-- is CacheManager over any backend.
--
-- Hdc models core_engine/brain/backend.py, class LegacyNumpyBackend. Vectors has the operations:
-- an int8 array is a list of integers from -128 to 127, products wrap to eight bits, the sums of
-- bundle are wide and do not wrap; a shape that NumPy refuses is none. Bind, Permute and Bundle
-- prove their laws.
--
-- Pipeline models core_engine/pipeline/node.py (Node), core_engine/pipeline/pipeline.py (Flow)
-- and core_engine/swarm/specialization.py (Swarm). A node's downstream is the rest of a list of
-- nodes; the sentinel stands behind the last one. The threshold of the sentinel is a fraction.
--
-- Network.Protocol models pack_vector, unpack_vector and verify_packet of network/protocol.py
-- and Network.Registry its NodeRegistry; Runtime.Packet h1v3_runtime/packet.py and
-- Runtime.HyperVector h1v3_runtime/vector.py. A byte is a number below 256, and an integer field
-- of a header is written out as four bytes.
--
-- Connections.Pool models core_engine/connections/pool.py, ConnectionPool with its acquire,
-- release, _cull_stale and shutdown; Reach has any sequence of them by tasks that release what
-- they borrowed, a call one step but for the wait on an empty queue, which ends in a step of its
-- own.
--
-- Connections.Batcher models core_engine/connections/batcher.py: a run is any sequence of
-- submissions, flushes that begin and end, and cancellations; futures are named by the ids of
-- their items. Translation is its TranslationBatcher.
--
-- Plugins models core_engine/plugins: Base with Serial is base.py, Registry PluginRegistry and
-- Order resolve_load_order of registry.py, Manager PluginManager of manager.py. The search for a
-- load order runs on fuel, one more than there are names, which is proved to be enough; what a
-- plugin's own methods raise is part of its class, and importing a class, str.split and int are
-- parameters.
--
-- Security models core_engine/security: Signer is RequestSigner of validator.py; Csrf, Bots and
-- Redact are CSRFToken and CSRFMiddleware, BotScorer, FingerprintMiddleware and ThreatFeed, and
-- PIIRedactor of advanced.py. Words has texts as lists of code points with split and other
-- operations on them. The HMAC, str and float of a time, json.dumps and the replacement by a
-- regular expression are parameters; scores are whole tenths.
--
-- Translation.Matrix models LanguageMatrix of core_engine/translation/language_matrix.py: Cache
-- is any sequence of words asked for and languages added, Shift the translation of a vector.
-- Agents models HDCAgentRouter of core_engine/agent_router.py, Agents.Swarm its AgentSwarm. Both
-- look for the most similar vector by the loop of Hdc.Closest; the random vector of a text is a
-- parameter, as are str.lower and str.split.
--
-- Gateway.RateLimiter models RateLimiter of gateway/middleware/auth.py, Gateway.Keys its
-- APIKeyManager, AuthMiddleware and RateLimitMiddleware, where the hash of a key and the drawn
-- tokens are parameters, and Standing has any sequence of keys made and revoked.
-- Gateway.Webhooks is WebhookManager of gateway/routes/webhooks.py: Log is the delivery log
-- after an event, Retry the background task of one hook. The answers of endpoints do not matter
-- there, as no request is ever sent.
--
-- Bounds: time is a number of ticks that a call reads once, so that a clock is an argument; the
-- rounding of floating-point comparisons is not modelled, and neither are counts beyond 64 bits
-- of the sums of bundle. Every loop is structural recursion on a list, but for the search of
-- Plugins.Order, so that every function is total. What third-party code does is a parameter: the
-- draws of random generators, the masks of domains, the cipher, the guarded functions. Not
-- modelled: input and output, logging, metrics that are only printed, floating-point scores,
-- services, and the Redis, disk and GPU backends.
pub mod Prelude
pub mod Resilience
pub mod Runtime
pub mod Cache
pub mod Gateway
pub mod Hdc
pub mod Network
pub mod Pipeline
pub mod Security
pub mod Translation
pub mod Agents
pub mod Plugins
pub mod Connections
