-- ===== src/Lib.antt =====
-- The market data bot: trades from venues' streams to a queue and a sink, history from an archive to
-- a staging area, and context of the perpetuals.
--
-- A connector (ingest/connectors) turns frames into trades; the runner (ingest/runner.py) observes
-- their sequence numbers, starts a repair for each gap and puts the trades into a queue, from which a
-- drain task feeds a sink; the connection (ingest/core/ws.py) is made again when it is lost. The sink
-- of AWS (awsnative/sink.py) buffers, batches and retries. The backfill (awsnative/backfill) plans
-- the archive's files for a window, leaves out those that are done, and loads each: checksum, unzip,
-- parse, stage. The enrichment (awsnative/enrichment) asks endpoints for the context of the perpetuals and
-- for macro series, and puts one object for each poll; devlab reads the log back and looks for gaps
-- in it with the runner's own tracker.
--
-- The files, each with the code that it is about:
--   Base and its children: lists, integers, texts, dictionaries, results. No code of the repository.
--   Python: what the code takes from Python. Number: `int` and `str`. Json: decoded values and
--     `json.dumps`. Values: indexing, `get`, `int`, `str` and truth of a decoded value.
--   Ingest.Models, Gaps, Queue, RateLimit, Instruments, Ws: ingest/core/models.py, gaps.py, queue.py,
--     ratelimit.py, instruments.py, ws.py. Ingest.Binance and Coinbase: ingest/connectors/binance.py,
--     coinbase.py, with Rows for what they share. Ingest.Runner: ingest/runner.py and
--     ingest/connectors/base.py.
--   Scripts.Topics, Acls: scripts/create_topics.py, create_acls.py.
--   Devlab.Config, Health, Stream: devlab/config.py, health.py, stream.py.
--   Native.Encode, Sink, Athena: awsnative/encode.py, sink.py, athena.py.
--   Native.Backfill: awsnative/backfill, with Epoch, Parsers, Tiers, Checksum, Manifest, Staging,
--     Loader and Seed for the files of those names, Calendar for what they take from `datetime`,
--     and Fault for their exceptions.
--   Native.Enrichment.Perp, Macro, Collect: awsnative/enrichment/perp.py, macro.py, collect.py.
--   Ingest.Cli: ingest/cli.py and awsnative/cli.py, which differ in the sink.
--   Native.Bars, Render, Monitoring, Statements: awsnative/bars.py, render.py, monitoring/collect.py,
--     and the loops of ddl.py and query.py.
--   Native.Pipeline: the drain of ingest/runner.py over the sink of awsnative/sink.py, with Bag for the
--     stream's records without their order.
--   Tests: runs on concrete data.
-- A function keeps its name, without a leading underscore. A method takes the object's state as an
-- argument and returns the new state; an exception is a `raise` result; a call that waits for the
-- network, a clock or a client has its answer as an argument. A dictionary is a list of pairs in
-- insertion order, a text a list of code points, a trade's numbers are integers of any size.
--
-- Ingest.Runner.Tasks lets the tasks that the runner starts interleave, as a step relation, in which a
-- session of the connection may end while a put waits, and a call of the sink may raise; the other
-- files take one task at a time.
--
-- Fuel: the sink's loop over batches has one round more than the buffer has records, and each round
-- takes at least one; the loops over days and months have one round for each key between their ends,
-- and each moves on by one key at least; the drain and the tail run over the list of rounds that they
-- are given, as many as need be; the wait for a query has one round more than the time-out
-- has milliseconds, and waits one at least. Rates and delays are whole numbers of millionths, in
-- place of floats.
--
-- Not modelled: the scheduling of asyncio's tasks, HTTP, Kafka, Spark and AWS's clients, YAML, Avro,
-- argument parsing, settings, the texts of the .sql files, the dashboard and the other scripts; the
-- wording of error messages; digits and white space outside ASCII; the last day of the calendar.
pub mod Base
pub mod Ingest
pub mod Devlab
pub mod Native
pub mod Python
pub mod Scripts
pub mod Tests
