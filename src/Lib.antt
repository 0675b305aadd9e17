-- ===== src/Lib.antt =====
-- A model of mx-sdk-go, the SDK with which programs talk to the MultiversX chain, and what it
-- guarantees to them.
--
-- The heart of the model are the three nonce handlers of the folder interactors. A client sends
-- transactions from many goroutines; the handler gives each its nonce, keeps what was sent, and
-- sends again what the chain has lost. Each version has one object per address, behind a map that
-- makes the objects on demand.
--
-- Files, and the code they are about:
--   Prelude, Prelude/*             tests, lists, and Go functions that return a value or an error and
--                                  change state on the way (Prelude/Exec)
--   Dict                           Go's map as an association list
--   Chain                          the data of the chain (data, interactors/interface.go); the proxy and
--                                  the converter of addresses are parameters of the model
--   Handlers, Handlers/*           the map from an address to its handler, for any type of handler
--   NonceHandlerV1, and below      interactors/nonceHandlerV1: addressNonceHandler.go, and in
--                                  Transactions nonceTransactionsHandler.go. It keeps the pointers of its
--                                  callers, so what they point to is looked up in the world at each use
--   NonceHandlerV2, and below      interactors/nonceHandlerV2, likewise
--   NonceHandlerV3, and below      interactors/nonceHandlerV3, likewise; Sending is SendTransactions
--   Worker, and below              interactors/nonceHandlerV3/workers/transactionWorker.go
--   Heap, and below                container/heap, which the worker's queue is built on
--   Authentication, and below      authentication/native: token.go and tokenHandler.go; Server and Client
--                                  are server.go and client.go, Time the times they compare
--   Finality, and below            blockchain/finalityProvider
--   VmQuery, and below             builders/vmQueryBuilder.go, blockchain/vmQueryGetter.go
--   BaseProxy, and below           blockchain/baseProxy.go, and what it calls of endpointProviders
--   Endpoints                      blockchain/endpointProviders, the rest of it, and core/api.go
--   BlockchainProxy, and below     blockchain/proxy.go: Construction, Queries, Accounts, Transactions, and
--                                  Logs, which is FilterLogs; Sorting is sort.Slice
--   Text, and below                texts as bytes: the functions of strings, encoding/hex,
--                                  encoding/base64 and strconv that the code calls
--   Aggregator, and below          aggregator: priceAggregator.go and computers.go; Pairs is pair.go, and
--                                  Notifier priceNotifier.go; Notifee is aggregator/notifees
--   HeaderCheck, and below         headerCheck
--   Serde, and below               serde/sourceBuffer.go
--   TransactionInteractor, below   interactors/transaction.go
--   Workflows, and below           workflows/walletsTracker.go, workflows/addressesAccumulator.go,
--                                  and in MoveBalance workflows/moveBalanceHandler.go
--   Builders, and below            builders/baseBuilder.go, builders/txDataBuilder.go
--   TxConversion, TxBuilder        builders/txBuilder.go; TxBuilder/Relayed are the relayed builders
--   Polling, and below             core/polling/pollingHandler.go
--   MapCacher, and below           storage/mapCacher.go
--   BigInt                         the integers of math/big
--   ExampleChain, */Examples       a proxy of a small chain, and runs on it
--
-- A function of the model has the name of its Go function in snake case. A method is a function from
-- the state of its object, and of the world behind the proxy, to its result and the new states; its
-- result is a value, an error or a panic. Sections under a mutex are single functions, so goroutines
-- that interleave are sequences of them. A uint64 is a number below 2^64, and what wraps is written
-- out. Most loops run over lists. The others have fuel: the bunches of the interactor, with as much as
-- there are transactions, of which each round sends at least one; the blocks of a round of the tracker,
-- with a unit for each block up to the network's; the bytes and the digits of a number, with its value;
-- the blocks that logs are filtered of, with one unit more than a range may have blocks; and the loops of
-- the heap, with its length, as the index goes up or down by at least one. The order of
-- Go's `range` over a map is the order of the association list. A goroutine beside its callers is a
-- relation of steps. Log lines and the time that passes are left out, and contexts but for those that
-- end a loop.
--
-- Not modelled: what only calls other code (the cryptographic libraries behind wallet, txcheck,
-- blockchain/cryptoProvider and libraries; HTTP and JSON, which are parameters, and the price fetchers;
-- the web framework of aggregator/api; the node's code behind headerCheck), stubs, samples and mocks. Also
-- still outside is serde/deserializer.go. Floats have no model: the price aggregator has their operations
-- as a parameter.
pub mod Prelude
pub mod Dict
pub mod Chain
pub mod Handlers
pub mod ExampleChain
pub mod NonceHandlerV1
pub mod NonceHandlerV2
pub mod NonceHandlerV3
pub mod Serde
pub mod TransactionInteractor
pub mod Workflows
pub mod MapCacher
pub mod BigInt
pub mod Builders
pub mod Polling
pub mod Heap
pub mod Worker
pub mod Text
pub mod Authentication
pub mod Finality
pub mod BaseProxy
pub mod VmQuery
pub mod Endpoints
pub mod Sorting
pub mod BlockchainProxy
pub mod Aggregator
pub mod TxConversion
pub mod TxBuilder
pub mod HeaderCheck
