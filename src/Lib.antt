-- ===== src/Lib.antt =====
-- Verification of kubling-providers: the query cache of the Go SDK, the SDK's server, and the in-memory
-- provider.
--
-- A provider gives Kubling access to an external source. The Go SDK (sdk-go/provider) serves a provider
-- over gRPC; its query cache (sdk-go/provider/cache) wraps a provider, keeps complete query results in
-- a bounded store, and invalidates them when data changes. The in-memory provider (providers/inmemory) is
-- the provider of reference: it keeps tasks in a map, and evaluates queries and mutations itself.
--
-- Files, and the code that each models:
--   Messages            the protocol messages (sdk-go/kubling/provider/v1, generated), as trees
--   Cache/Keys          generation, queryKey, cachedResult (cache/state.go)
--   Cache/Memory        memoryStore: get, set, remove and the eviction loop (cache/memory.go)
--   Cache/State         cacheState: lookup, storeIfCurrent, invalidateEntities, invalidateAll, and the
--                       retained branch invalidations (cache/state.go); State/Expand is expandEntities,
--                       State/Session the interleavings of queries and invalidations
--   Cache/Entities      normalizedEntityKey (cache/cache.go)
--   Cache/Config        Config, normalizeConfig, normalizeDependencies (cache/cache.go)
--   Cache/Client        Query (cache/query.go), Controller.Invalidate, InvalidateAll (cache/cache.go)
--   Cache/Connection    cachedConnection (cache/mutation.go, cache/transaction.go,
--                       cache/transaction_recovery.go) and cachedRecoveryManager
--   Cache/Stream        recordingStream and replayStream (cache/query.go)
--   Server/Status       the server's errors, acquireConnection (server.go)
--   Server/Branches     the handlers of transaction branches and their checks (transaction_recovery.go)
--   Server/Recovery     RecoverTransactionBranches (transaction_recovery.go)
--   Server/Lob          ReadLob and ReleaseLob (lob.go)
--   Server/Registry     connectionRegistry and managedConnection (registry.go)
--   Server/Outcome      prepareQueryOutcome, validateQueryOutcome (query.go)
--   Server/Features     validateOutputValueFeatures, prepareOutputBatch (value_features.go)
--   Server/Structure    checks of type descriptors, values and batches (value_structure.go)
--   Server/Query        the stream loop of Query (query.go), validateOutputBatchFeatures
--   Server/Expressions  validateExpressionValues, validateQueryRequestValues (value_structure.go)
--   InMemory/Values     the values of the provider, isNullValue, valueType (model.go, expression.go)
--   InMemory/Numbers    big.Rat as a fraction; Numbers/Decimal is aggregateDecimalString (aggregate.go)
--   InMemory/Model      the store, the entities and their rows (model.go); Sample is newStore
--   InMemory/Compare    compareValues (expression.go), aggregateNumber (aggregate.go)
--   InMemory/Evaluate   evaluateExpressionInContext and what it calls (expression.go, aggregate.go)
--   InMemory/Parse      parseInsertRows, validateAssignments, assignTaskValue (mutation.go)
--   InMemory/Identifiers  prepareInsertedTasks (mutation.go)
--   InMemory/Mutation   Insert, Update and Delete (mutation.go)
--   InMemory/Sort       sort.SliceStable, for a comparison that may fail
--   InMemory/Ordering   compareOrderedValues and the comparison of sortPlannedRows (query.go)
--   InMemory/Plan       planProjections, expressionValueType (query.go, expression.go)
--   InMemory/Query      Query without aggregates, and outputValue (query.go)
--   InMemory/Stream     resultStream (result_stream.go)
--   InMemory/Validate   aggregateQuery, containsAggregate, validateGroupedExpression (aggregate.go)
--   InMemory/Grouped    queryAggregates and Query as a whole (aggregate.go, query.go)
--   InMemory/Lobs       newLobValue, ReadLob, ReleaseLob and their stream (lob.go), Close (connection.go)
--   InMemory/Utf8       utf8.Valid
--   Base                tests, lists, maps, text and results that the parts share
--
-- Cache/… models sdk-go/provider/cache/…, Server/… the files of sdk-go/provider itself, and InMemory/…
-- the files of providers/inmemory.
--
-- How the parts meet: the server's handlers take a connection from the registry (Server/Registry) and
-- call the provider, which the cache may wrap. A cached connection's query looks its key up in the
-- shared state (State.lookup), which reads the store (Memory.get); on a miss the wrapped stream is
-- recorded (Stream.next) and on closing it is offered to the state (store_if_current), which refuses it
-- if the generation has moved since. Mutations, transactions, branches and the controller move
-- generations. The in-memory provider's connections share one store; a query reads a snapshot of it, and
-- the large objects that its result refers to stay with the connection, from which the server's loop
-- (Server/Lob) reads them.
--
-- How the code is written as functions:
--   * A method that runs under a mutex is one step on the state; interleavings are lists of events.
--   * The clock's reading, and what a wrapped provider, connection or stream replies, are arguments.
--   * A list element's pointer in the store is a number, its handle, never used twice.
--   * Generations are uint64 and wrap; the theorem on stale results counts fewer than 2^64 events.
--     Sizes, counts of entries and times are not bounded.
--   * The eviction loop runs on the number of elements as fuel: each turn removes one. The expansion
--     of entities runs on the number of roots and of listed dependents: each turn takes one from its
--     queue, and an entity's dependents are enqueued once.
--   * A map is an association list in which a key stands once; it is ranged over in that order. A nil
--     set is the empty one.
--   * strings.TrimSpace and strings.ToUpper are written for ASCII text.
--   * Messages are trees, so that a clone is the message itself. The encoded size of a message
--     (proto.Size) is an argument, and so is the SHA-256 digest of a request.
--   * The registry's locks are steps: an operation that found a connection may take its lock later, and
--     the exclusive lock is taken only while nobody holds the shared one.
--   * Errors keep the status code, or the error of the provider; their messages are left out.
--   * In the in-memory provider, a float is the shortest decimal text that prints it. How big.Rat reads a
--     text and rounds to a float, the bytes that a value is marshalled to and the equality of messages
--     are arguments, and so are the clock, the random draws, and what the context says at each check of
--     it. The query log is left out.
--   * Mutation/Revised tells what each field of a task becomes by an update, apart from assignTaskValue.
--   * The map of tasks is ranged over in the order of its list, and Query.Reordered compares the orders.
--   * Sorting is the insertion sort that Go runs on up to twenty elements.
--   * The loop for a task's identifier runs on one turn more than there are identifiers in use.
--   * A server stream's loop runs over the list of the replies that it gets.
--
-- Not modelled: the calls of the cache that only delegate; of the server, the start of the Query
-- handler, the mutations and local transactions, capabilities, metadata and semantic fragments; of the
-- in-memory provider, its capabilities, schema and semantic fragment, which are constant replies; the other
-- providers, the generated code, the Java and Python SDKs.
pub mod Base
pub mod Messages
pub mod Cache
pub mod Server
pub mod InMemory
