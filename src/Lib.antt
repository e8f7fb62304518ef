-- ===== src/Lib.antt =====
-- tokenbridge-monitor: a service that watches the two contracts of a token bridge, keeps what they
-- log in a database and shows it.
--
-- The parts of the program and the modules that model them:
--
-- * For each contract, monitor/contract_monitor.go runs three goroutines. StartBlockFetcher asks the
--   node for its head and cuts the new blocks into ranges; StartLogsFetcher asks the node for the
--   logs of a range, saves them and submits them in batches of one block; StartLogsProcessor hands
--   each log of a batch to the handler of its event. A cursor, in memory and in the database, says
--   how far fetching and processing got. Monitor.ContractMonitor has the state (`State`; `Contract`
--   is the part that stays) and the cursor; .Fetcher has StartBlockFetcher, buildFilterQueries,
--   tryToFetchLogs and LoadUnprocessedLogs; .Batches has tryToProcessLogsBatch,
--   tryToGetBlockTimestamp and processLogsBatch; .Steps puts the goroutines together as steps.
--   Monitor.Types has SplitBlockRange and SplitLogsInBatches of monitor/types.go.
-- * Monitor.Handlers has the handlers of monitor/handlers.go (Amb, ErcToNative, Validators),
--   Monitor.Decoders those of monitor/decoders.go, Monitor.Registration what monitor/monitor.go
--   registers.
-- * Contract.Abi has the choice and the decoding of events of contract/abi/abi.go, Contract.Events
--   their texts in contract/bridgeabi/bridge_abi.go.
-- * Entity has the rows of entity/*.go, Repo the methods of repository/postgres/*.go on a store
--   that is a list of rows for each table: Repo.Ensure those that write, with the keys and
--   constraints of db/migrations/*.sql, Repo.Find and Repo.Reads those that read, and Repo.Messages
--   the map of messages that the methods of messages.go implement.
-- * Ethclient has FilterLogs and FilterLogsSafe of ethclient/ethclient.go, Config the records and
--   init functions of config/config.go and the addresses that a range of blocks asks for.
-- * Presenter has the handlers of presenter/presenter.go with the values of presenter/types.go:
--   Presenter.Search those for logs and messages, Presenter.Bridges those for a bridge,
--   Presenter.Unsigned the one for unsigned messages, whose signers Presenter.Signers collects.
--   Presenter.Filters has presenter/http/middleware/filter.go. They read what the monitor wrote
--   through the queries of Repo.Find and Repo.Reads.
-- * Monitor.Alerts has the queries of monitor/alerts/db_alerts_provider.go on the same tables, with
--   the JOIN, LEFT JOIN and ORDER BY of Repo.Join, and the jobs of alert_manager.go and job.go.
-- * Cmd has what the programs of cmd/*/main.go do with their configuration and arguments, and the
--   repair of block timestamps (Cmd.Timestamps);
--   Monitor.ContractMonitor.Reprocess has the ProcessBlockRange that one of them calls.
-- * Tests has runs on small inputs and the theorems applied to them.
--
-- How code is modelled. A number is a natural number; `uint` arithmetic wraps at 2^64 where it is
-- written, `uint32` at 2^32 and `uint8` at 2^8. Code that calls the database or a node is a function
-- `Exec` from a session to a result and a session (Exec): the session holds the store, which of the
-- coming calls fail, and whether the context is cancelled; a panic is a result of its own. What was
-- written before an error stays written, as in the source, which has no transaction around a batch.
-- A loop that repeats an action until it succeeds (Exec.Retry) takes the number of waits that the
-- context lives through, so it ends; one wait for each failing call is enough. The loop of
-- SplitBlockRange takes fuel, one unit for each block and one more, which is shown to be enough.
-- A channel is the list of what was sent on it.
--
-- Parameters. The node (`Node`, `HomeClient`), go-ethereum (`Geth`, `Abi`, the hash of a text, the
-- recovery of a signer), the files of a form and the time of a block are arguments of what uses
-- them. `ConvertsExactly` states of go-ethereum's conversions what their
-- documentation says: bytes of the right length stay as they are.
--
-- Not modelled: logging and metrics; SQL itself, whose statements are given by their meaning; the
-- checks of single columns; interleavings finer than the steps of Monitor.ContractMonitor.Steps, so
-- that the two halves of processLogsBatch, which touch different tables, are run one after the
-- other; the loop in which ProcessBlockRange waits for the channels to run empty; JSON, the routes of
-- HTTP requests and the answers' headers; calls of a contract through the node (contract/), whose
-- answer is a parameter; the dashboards.
pub mod Base
pub mod Entity
pub mod Repo
pub mod Exec
pub mod Geth
pub mod Ethclient
pub mod Config
pub mod Contract
pub mod Monitor
pub mod Presenter
pub mod Cmd
pub mod Tests
