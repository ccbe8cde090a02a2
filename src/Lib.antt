-- ===== src/Lib.antt =====
-- Verification of the Arkiv chain indexer, a server that follows a chain, keeps blocks and
-- entities in a database and answers queries about them over HTTP and JSON-RPC.
--
-- ResponseCache (src/responseCache.ts): the cache of serialized responses that stands before
--   the database. `get`, `load`, `set`, `invalidate`, `clear` and `stats` are functions on the
--   record `ResponseCache`. What a call of `load` does before its `await` is `load`; what
--   the promise does when the loader answers is `settle`. A `Map` is an association list in the
--   order of insertion (Common/JsMap); an in-flight marker is an object with an identity, so
--   markers are kept by number. `Worlds` puts the cache among requests, loaders and commits in
--   any order. A loader that throws before it returns a promise is not modelled.
-- Query (src/entityQueryLanguage.ts): the entity query language. Syntax has its types, Lexer the
--   class `Lexer`, Literals the values, Predicate the attribute references, operators and the
--   types of predicates, Parser the class `Parser` and `parseEntityQuery`; Grammar is the
--   grammar of the comment at the top of the source. The source is its UTF-8 bytes. The white
--   space that is not ASCII and keccak256 (viem) are the parameter `Host`. A function that may
--   throw returns an `Outcome`. The loops of the lexer run on as many rounds as there are
--   bytes and one more, since a token takes a byte; the parser's functions run on 4 * n + 4 for n tokens, since
--   each of the four grammar levels takes a step before a token is taken.
--   `queryErrorBody` is not modelled.
-- Sql (src/entityQuerySql.ts): `compileEntityQuery`, from the tree of a query to the syntax of an SQL
--   condition and its parameters. Meaning says what a query asks of an entity and what a condition
--   tests on the rows that the entity is stored in; the comparisons of PostgreSQL are the parameter
--   `Postgres`, with their documented laws. The text of the condition is not written out. Stored has
--   the stored form of a value (`toStoredAttributeValue` in src/entityValues.ts), of a value that is
--   already read from its text; the rows are those of `attributeRows` (src/entityIndexStorage.ts).
-- RpcKeyRing (src/rpcKeyRing.ts): the class `RpcKeyRing`; Pool has the lists and files that its
--   keys come from, with `JSON.parse` and the file system as parameters. The clock is an argument,
--   and what is written to the log is left out.
-- EntityValues (src/entityValues.ts): the types of attributes and the bounds of numbers.
-- Metrics (src/metrics.ts, src/math.ts, src/transactionFilter.ts): `computeBlockMetrics`. The length
--   of a zstd compression is the parameter `zstd`. Numbers and their decimal texts are the same. The
--   RangeError of `toISOString` on a timestamp that is no date is not modelled.
-- Ranges (src/ranges.ts): `computeBlockRange` over stored blocks. The floating-point average of
--   `batcherIntensity` and `parseRangeSize` are not modelled.
-- Aggregator (src/aggregator.ts): `aggregateRanges`; what it asks of the storage, and what the
--   database answers, is the parameter `Storage`. Its loop runs on as many rounds as there are
--   blocks between its bounds, and two more, since a round moves by at least one block.
-- Scanner (src/scanner.ts): the order in which blocks are saved, with the marks of progress that
--   `applyProgressUpdate` (src/storage.ts) keeps. A process can be stopped between two blocks: the
--   rounds of a forward scan, or the clock readings of a backfill slice, say how long it lives.
--   Receipts is the worker pool of `getTransactionReceipts`, a step relation, with the retries of
--   `fetchReceiptWithRetry`; what the k-th request of a hash gives is a parameter. What a block
--   brings (its metrics, transactions and balances) is not modelled here.
-- Gaps (src/fillGaps.ts): `expandGaps`, and a cycle of the gap filler. Whether an attempt at a block
--   succeeds is given from outside.
-- Schedule (src/baseloadSchedule.ts): the windows of activity of a worker, read and written, and
--   when they hold. The hours and minutes of a time are arguments.
-- Common: names of the library, Boolean tests, lists and integers over the native numbers, and
--   JavaScript's `Map` and functions that may throw.
--
-- Not modelled: the database, HTTP, RPC and process code, which are I/O around these parts, the
-- frontend, the projection of entities, and the baseload runtime.
pub mod Aggregator
pub mod Common
pub mod EntityValues
pub mod Gaps
pub mod Metrics
pub mod Query
pub mod Ranges
pub mod ResponseCache
pub mod RpcKeyRing
pub mod Scanner
pub mod Schedule
pub mod Sql
