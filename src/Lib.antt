-- ===== src/Lib.antt =====
-- Verification of the balance kit: a service that reads the balances of blockchain addresses,
-- caches them, is told by Alchemy webhooks when an address changed, and passes that on to browsers
-- as server-sent events.
--
-- The parts and the files that model them (paths without the leading src/):
--   * Chains, Chains/Lookup: src/chains/constants/index.ts, the chain names, the table of facts and
--     the maps that are built from it (`isEvmChain` is `is_evm_chain`, `CHAIN_INFO_MAP` is
--     `chain_info_map`, and so on), and the scan by chain ID of
--     src/chains/services/core/chain-router.service.ts.
--   * Chains/Alchemy: src/webhook/utils/alchemy-network.utils.ts.
--   * Providers: src/providers/constants/blockchain-types.ts.
--   * CacheKey, with RoundTrip, Portfolio and Patterns: src/core/cache/cache-key.service.ts.
--   * Cache, with Batches, Deletion, Connection and Lifecycle: src/core/cache/cache.service.ts.
--   * Errors: src/common/constants/error-codes.ts and src/common/exceptions/application.exception.ts; with
--     Filter and Hidden: src/common/filters/http-exception.filter.ts, the response to an exception
--     (`catch` is `catch_exception`).
--   * Notification: src/notification/notification.service.ts, what is emitted.
--   * Sse, with Subscription (the filters), History, Clients, Replay and Invariant:
--     src/core/sse/sse-subscription.service.ts. The service is the record `SseService`; each method
--     is a function from it to it.
--   * Webhook/Account and Webhook/Management, with Tracking, Addresses, Lock, SigningKeys and
--     SigningLaws: src/webhook/webhook-management.service.ts. The service is the record `Service`.
--   * Webhook/Signature, with Digest: src/webhook/utils/signature-validator.ts.
--   * Webhook/Events, with Notified and Accepted: src/webhook/webhook.service.ts, what a delivered event
--     notifies, and src/webhook/webhook.controller.ts, which deliveries are accepted.
--   * Webhook/Reconciliation, with Kept, Spared and Skipped: src/webhook/webhook-address-reconciliation.service.ts.
--   * ProviderFactory, with Names, Instances, Coherence and Runs: src/providers/provider.factory.ts.
--   * ChainServices, with Available: src/chains/services/core/chain-service.factory.ts; with Discovery and
--     Marked: its start, src/chains/services/core/discovery.service.ts and
--     src/chains/decorators/chain.decorator.ts.
--   * ChainsController, with Listed and Sticky: src/chains/controllers/chains.controller.ts.
--   * PortfolioCache, with Written: src/core/cache/portfolio-cache.listener.ts.
--   * Portfolio: the shapes of portfolios that the parts below pass on.
--   * Db, with Filters, Saved, Expired, Records and Store: src/core/db/db.service.ts and the schemas of
--     src/core/db/schemas that it reads and writes (`saveSnapshot` and the like keep their names).
--   * PortfolioMongo, with Throttle, Alive, Marked, Stored and Chain: src/core/portfolio/portfolio-mongo.listener.ts
--     and src/core/cache/portfolio-mongo.listener.ts.
--   * CacheMongo, with Read, RoundTrip and Invalidated: src/core/cache/cache-mongo.service.ts.
--   * Balances, with Answers and Again: src/balances/services/balance.service.ts.
--   * ProviderApi: src/providers/interfaces/blockchain-provider.interface.ts.
--   * EvmChain, with Requests and Overlapped: src/chains/services/core/abstract-evm-chain.service.ts; with
--     Quotes and Quoted: src/chains/services/core/priceable-evm-chain.service.ts. A call of
--     `getBalances` is the two steps `begin_balances` and `finish_balances`, between which
--     other calls run.
--   * ChainRouter, with Dispatched: src/chains/services/core/chain-router.service.ts.
--   * PriceableChain, with Unpriced: src/chains/services/core/priceable-chain.service.ts.
--   * SolanaChain, with Answered: src/chains/services/solana/solana.service.ts.
--   * Adapters, with Completed and Coherent: src/providers/adapters, the factory and the three adapters.
--   * Alchemy, with Calls, Initialized and Answers:
--     src/providers/implementations/multi-chain/alchemy-provider.facade.ts; with Strategies:
--     src/providers/strategies/balance-strategy.factory.ts. Remotes puts the strategies under the providers
--     that call them, and Answered has the two providers, the strategies and the adapters together.
--   * EvmStrategy, with Raw: src/providers/strategies/implementations/evm-alchemy.strategy.ts.
--   * SolanaStrategy, with Raw: src/providers/strategies/implementations/solana-alchemy.strategy.ts.
--   * QuickNode, with Estimate and Raw: src/providers/strategies/implementations/evm-quicknode.strategy.ts;
--     with Provider, Contracts and Provided:
--     src/providers/implementations/ethereum/ethereum-quicknode.provider.ts. Numbers is on the numerals
--     that both exchange with the client, BigInt on those of JavaScript.
--   * Base: strings, numbers, maps and lists of the JavaScript library as the source uses them.
--   * Tests.antt below a part runs the definitions and the theorems at examples.
-- The controller of webhooks asks the webhook management for a signing key and hands an event on to
-- the webhook service, which emits through the notifications, whose address events the SSE service hears
-- and turns into events of its own; cache keys name the entries that these events speak of. The
-- balance service answers from the cache, or else from a chain service, which asks a provider of the
-- factory; the provider asks its strategy and hands the raw answer to an adapter. A fresh answer is
-- told as a portfolio update, which one listener writes to the cache, and another then to the
-- database, from which the portfolio reader answers once the cache has expired. The controller of
-- chains asks the factory of chain services; an exception of any controller ends at the filter.
--
-- Conventions: a string is the list of its code units; `null` and `undefined` are `none`; numbers
-- that the source takes for IDs, times and counts are native natural numbers, and the tests for a
-- safe integer are written out. Times and random identifiers are arguments. A call of a library
-- that may throw gives a `Reply`; what the source catches is written out on each branch. Logging is
-- left out. Every loop is structural recursion on the list that it reads; only
-- the digits of a number are taken off on fuel, one round more than the number, which is enough.
--
-- Not under src, and so arguments: the Redis client and the cache manager (`StoreView`,
-- `RedisClient`, `Manager`), the pattern matching of Redis (`Glob`), the Alchemy SDK and the
-- HTTP client (`External`), the HMAC, the models of Mongoose (`Models`, with the laws `IsMongo`
-- where a theorem needs them) and the collection of snapshots (`Snapshots`), the price service
-- (`Prices`, `PriceSource`), the tests for an address, the clients that the
-- constructors of the strategies make (`Clients`),
-- the calls of the Solana strategy (`SolanaRpc`), the client of the SDK (`SdkClient`), the
-- client of QuickNode (`Core`), the methods of a chain service that the controller calls
-- (`ServiceApi`), the injector, metadata and configuration of NestJS (`Nest`). RxJS and the
-- event emitter are read as documented: an emitted event reaches its listeners in order, and the
-- teardown of a stream is an operation.
--
-- A provider calls its strategy through a `Remote`, which Remotes makes of the strategies; the theorems in
-- Alchemy/Answers and QuickNode/Provided hold of any.
--
-- Not modelled: the formatting of gas prices in Gwei, which are floating-point numbers (`gwei` is an
-- argument); the sample data of the chain services; the configuration and the wiring of the
-- framework; the listeners of the Redis client, which only write logs.
pub mod Adapters
pub mod Alchemy
pub mod Balances
pub mod Base
pub mod Cache
pub mod CacheKey
pub mod CacheMongo
pub mod ChainRouter
pub mod ChainServices
pub mod Chains
pub mod ChainsController
pub mod Db
pub mod Errors
pub mod EvmChain
pub mod EvmStrategy
pub mod Notification
pub mod Portfolio
pub mod PortfolioCache
pub mod PortfolioMongo
pub mod PriceableChain
pub mod ProviderApi
pub mod ProviderFactory
pub mod Providers
pub mod QuickNode
pub mod SolanaChain
pub mod SolanaStrategy
pub mod Sse
pub mod Webhook
