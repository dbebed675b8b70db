-- ===== src/Lib.antt =====
-- Models and proofs for Lemon Ledger, a tax ledger for crypto assets: the engine that turns
-- classified transactions into tax lots and disposals, the forms made of them, and the services
-- that resolve transfers between wallets and chains. Paths below are under
-- apps/api/src/lemon_ledger.
--
-- The parts and how they interact. The classifier turns the raw rows of a transaction into rows of
-- classified_transactions, one for each event of a wallet. The resolve service lets a user or a rule
-- say what a transfer between wallets is, and stamps `transfer_resolution` and
-- `relocation_source_event_id` onto the rows of its legs. The engine replays the rows of a wallet
-- in order, derives a treatment for each, and writes lots, disposals, relocations and exceptions.
-- The forms read the disposals, and the gate in front of them reads what is still open. The
-- detection pass finds the transfers between wallets, stamps those within one entity and leaves
-- the others to the resolve service. The bridge module pairs the legs of transfers between chains,
-- scores the pairs by their custody addresses, and sets the classifications of their events.
--
-- - Prelude, tests, lists, integers over the native numbers, sorting, results that can be errors.
-- - Models, models/*.py. Enums has the enumerations, Tables a record for each row with the columns
--   that the modelled code uses, BridgeTables and RawTables those of bridge.py, wallet.py and raw.py,
--   State the session: the tables as lists of rows, a `session.add`
--   a row at the end, an assignment to an object an update of the row with its key. Keys, hashes,
--   addresses and moments (in microseconds) are numbers. The clock, the date a calendar year
--   later (dateutil), the year of a moment and the keys that are drawn are fields of `Runtime`.
--   What a call raises is an `Error`.
-- - Decimal, decimal.Decimal in its default context, on columns of scale 18 as integers of units
--   of 10^-18. Sums, differences, products and quotients are rounded half-even to 28 digits as the
--   context does; `quantize` raises InvalidOperation where its result has more.
--   Quantities of tokens are natural numbers, whose differences stop at 0.
-- - Lots, domain/lots. Methods (methods.py), Consume (`ConsumptionSlice`, `consume`), Lines
--   (`DisposalLine`, `build_lines`, `_holding_period`), Pools (`canonical_pool_key`, `open_lots`,
--   the entity and the method), Treatment (`_derive_treatment`, `_acquisition_type`,
--   `_asset_class`), Acquire, Dispose, Relocate (the `_apply_` functions), Engine (`apply_event`,
--   `process_wallet_lots`, `rebuild_wallet`).
-- - Forms, domain/forms/read_model.py, form_8949.py, schedule_d.py with schedule_1.py, gate.py with
--   the view of the database that it reads (Gate), activity_report.py (Activity), reconcile.py.
-- - CrossEntity, domain/cross_entity/resolve.py (Resolve, which raises a `ResolveError`) and
--   detection.py (Detection).
-- - Bridge, domain/bridge: candidates.py, pairing.py (Legs, Pairing), confidence.py, custody.py,
--   workflow.py (Signals, Workflow), and the pass of tasks.py (Pass).
-- - Classify, classify: types.py (Types), context.py (Context), recognizers.py, decoders/base.py
--   (Decoders), decoders/lemonchain_only.py (Lqst), orchestrator.py, and tasks.py (Tasks). The text
--   "" in the place of an address is the number `no_address`. What it raises is a `ClassifyError`.
-- - Ingest, ingestion/sync.py (Sync). The explorer, with the mappers of its rows, is a record of
--   functions, where `none` is a ChainWindowExceeded.
-- - Pricing, pricing: types.py and sources.py (Sources), service.py over the protocol of cache.py
--   (Service). The clients, the tables and the cache are records of functions.
-- - Tests, small sessions, and the theorems applied to them.
--
-- Bounds. A sum or a difference of columns is exact while its magnitude is below `limit`, 10^28
-- units: 10^10 tokens or dollars. Above it the code rounds, so the theorems on exact amounts carry
-- that bound as a condition. Fuel stands in
-- four places: `digits`, which counts the decimal digits of n, is given n itself (Decimal.Digits
-- has the bound that makes it enough), the loop over the chunks of blocks in Classify.Tasks is
-- given the number of the last synced block, the loop of Ingest.Sync the ceiling and one more, and
-- the halving of a chunk there its number of blocks.
--
-- Not modelled: the database's locks and transactions (an error leaves no state, as the caller
-- rolls back), the texts of messages, Celery tasks, HTTP clients, Redis, the backfill of prices
-- (the price of a token at a moment is a parameter of a classification), the fixtures of the
-- reconciliation, the rendering of forms and the command line. The order in which Python walks
-- through a set of keys is a parameter of the bridge pass.
pub mod Prelude
pub mod Models
pub mod Decimal
pub mod Lots
pub mod Forms
pub mod CrossEntity
pub mod Classify
pub mod Ingest
pub mod Pricing
pub mod Bridge
pub mod Tests
