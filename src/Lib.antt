-- ===== src/Lib.antt =====
-- vector-mcp-go: a server that indexes source code and answers semantic and lexical searches.
--
-- The development models the packages that hold the program's own logic, one module per file of
-- the repository, and proves what makes each correct. A worker takes project paths from a queue and
-- runs the indexer, which scans the files, cuts them into chunks and stores these with their vectors
-- in a store that keeps a BM25 index beside them. Other processes reach the store and the models
-- through a daemon. Searches, paths and requests pass through caches, a path guard, input checks and a
-- rate limiter.
--
--   Cache      internal/cache/lru.go: `LRUCache` (Cache), the two caches
--              of typed values (Cache/Typed) and `StatsCache` (Cache/Stats). The state
--              is the record `LruCache`, with its map, its list and its expiry times. Cache/Sync
--              holds the invariant, Cache/Laws is about `Set`, Cache/Recency about `Get`, `Clear`
--              and the clean-up. The clock's reading is an argument; the lock makes each operation
--              one step.
--   PathGuard  internal/security/pathguard/sanitizer.go: `Validator` (PathGuard, with PathGuard/Within
--              and PathGuard/Symlinks) and `SanitizeFilename` (PathGuard/Filename). The file system
--              is a parameter. Paths models the functions of Go's path/filepath on Unix that the
--              guard calls, as their documentation gives them.
--   RateLimit  internal/security/ratelimit/tokenbucket.go: the bucket (RateLimit/Bound), the keys and
--              the clean-up of the middleware (RateLimit/Clients). float64 is a parameter, with what its
--              rounding keeps as a hypothesis of the theorems.
--   Input      internal/security/input/validation.go: the query and limit functions
--              (Input/Sanitize), the regular-expression limits (Input/Regex). A text is its runes.
--   Lexical    internal/db/lexical/bm25.go: the index (Lexical/View, Lexical/Documents), the partial
--              sort (Lexical/Top) and the tokenizer (Lexical/Tokens). Floats and the classes of
--              runes are parameters.
--   Store      internal/db/store.go: the store over chromem-go, which is the parameter `Collection`
--              with the laws `IsCollection` (Store, with Store/Filters, Store/Deletion and
--              Store/Status), what reads it by a filter (Store/Readers) and the searches
--              (Store/Search, Store/Asked). HybridSearch is Store/Hybrid, with its bounds in
--              Store/Fused; Store/Listed is a collection that satisfies the laws.
--   Chunk      internal/indexer/chunker.go: the windows of `fastChunk` and `splitIfNeeded`
--              (Chunk/Tiles, Chunk/Contents, Chunk/Lines).
--   Rerank     internal/embedding/reranker.go: `AdvancedReranker` (Rerank/Words, Rerank/Selection);
--              the router, its model and the sort are parameters.
--   Indexer    internal/indexer/scanner.go: `ProcessFile` and the records that it makes (Indexer), the
--              walk with its ignore rules (Indexer/Scan), discovery, cleaning, collection and the two
--              entry points (Indexer/Run). The file system, the hash, the embedder, the PDF reader and
--              the chunker are the parameter `Host`; the workers run at once, so the order in which
--              their results arrive is a parameter too. It writes by the operations of Store.
--   Worker     internal/worker/worker.go: the worker that runs Indexer for each path of the queue and
--              reports the status (Worker/Agreement).
--   Graph      internal/db/graph.go: `KnowledgeGraph`, built from the records that Indexer writes.
--   Daemon     internal/daemon/daemon.go: the methods of the master's `Service` over Store (Daemon) and
--              those of the clients (Daemon/Remote). net/rpc is a call of the method, or the error of
--              a connection that fails.
--   Metrics    internal/observability/metrics/prometheus.go: counters, gauges and histograms.
--   Resolver   internal/indexer/resolver.go: the stripping of comments (Resolver/Stripped), the
--              aliases and workspaces of a project, and `Resolve` (Resolver/Resolved).
--   Base       shared names, tests, lists, texts, integers, maps as association lists, and floats.
--
-- Fuel: the loop of `Set` takes one round for each entry that it evicts, so more rounds than
-- entries are enough; the windows of a text move forward by at least one rune, so more rounds than
-- runes are enough. No other function takes fuel.
--
-- Not modelled: the tree-sitter traversal, the embedding models and their sessions, the sockets of the
-- daemon, the servers and their handlers, the file watcher, configuration, tracing and the LSP client,
-- which are glue over other libraries; the analyzers, the mutation checks, the memory
-- throttler and the hybrid reranker.
pub mod Base
pub mod Paths
pub mod Cache
pub mod Chunk
pub mod Daemon
pub mod Graph
pub mod Indexer
pub mod Input
pub mod Lexical
pub mod Metrics
pub mod PathGuard
pub mod RateLimit
pub mod Rerank
pub mod Resolver
pub mod Store
pub mod Worker
