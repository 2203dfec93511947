-- ===== src/Lib.antt =====
-- Verification of the trading system's deterministic core: what an order goes through between the
-- proposal and the books. The program is the repository's Python; each definition here is a
-- translation of one class or function, and carries its name.
--
-- The parts, the files that model them, and how they interact:
--
-- * Orders (services/execution/state_machine.py): `OrderStateMachine`, the whitelist of transitions,
--   the record and the history of each order, and the event log. Orders/Steps takes the calls as a
--   sequence; Orders/History, Orders/Submission and Orders/Terminal prove what holds after any calls.
-- * Risk (services/risk/master_controller.py, packages/common/risk_config.py): Risk/Review is
--   `MasterRiskController.review`, check by check; a BUY or SELL reaches the broker only with its
--   approval. Risk/Gate, Risk/Exits and Risk/Config say what an approval guarantees and what MASTER
--   STOP blocks and does not block.
-- * Approval (packages/schemas/core.py, packages/schemas/audit.py): the intents, approvals and frozen
--   snapshots that the controller signs and the execution compares.
-- * Execution (services/execution/engine.py): `ExecutionEngine`, which takes an approved order and its
--   snapshot, notes it in Orders and in the store, calls the broker, and follows the order up.
--   Execution/Calls has `submit` and the other calls; Execution/Gate and Execution/Once say what
--   reaches the broker and that nothing does twice; Execution/Frame holds their lemmas.
-- * Broker (packages/broker_adapters/base.py): the interface of a broker, a parameter of the engine.
-- * Paper (packages/broker_adapters/paper.py): `PaperBroker`, which fills that interface with orders,
--   positions and cash in memory, and injects faults. Paper/Calls has its methods; Paper/Run takes the
--   calls as a sequence, Paper/Covered is about the execution of one order, and Paper/Positions follows
--   what the broker holds.
-- * Store (packages/common/durable_store.py): the table of submitted orders that survives a restart.
-- * Sizing (services/position_sizing/engine.py): how large an order may be; Sizing/Caps bounds it.
-- * Allocation (services/capital_allocation/engine.py): which sized proposals get the settled cash.
-- * Integrity (services/data_validation/integrity.py): the checks of bars and quotes, which give the data
--   health that Risk reads; Integrity/Clean says what bars without issues are.
-- * Recovery (services/supervisor/recovery.py): incidents, and who may end them.
-- * LossControl (services/loss_control/engine.py): the stop that a position is planned with.
-- * AuditStore (packages/common/durable_store.py): the table of audit records.
-- * Audit (services/decision/audit.py, packages/schemas/audit.py): the audit of an order before Risk, by a
--   model that is a parameter; Audit/Closed is about what it lets through.
-- * PreTrade (services/pdca/audit_log.py): the log of the order attempts, the near misses and the orders
--   that wait for a human. PreTrade/Laws is about these, PreTrade/Summary about the month's figures.
-- * Calendar (packages/common/calendar.py): the days and the hours of the market. Calendar/Session is
--   about when it is open, and about the search for the next trading day.
-- * Costs (services/cost_manager/engine.py): the running costs and the two profits; Costs/Fees is about fees.
-- * Reconciliation (services/reconciliation/engine.py): Ledger against what the broker reports; a
--   mismatch sets the state of the risk controller.
-- * Heartbeat (services/supervisor/heartbeat.py): which services are alive.
-- * Ledger (packages/common/ledger.py): cash, lots and the entry log, into which fills are booked.
--   Ledger/Fill, Ledger/Moves, Ledger/Invariant, Ledger/Calls and Ledger/Snapshot hold its theorems.
-- * Settlement (packages/common/settlement.py): which cash is spendable, a day after a sale.
-- * Reservation (services/capital_cells/reservation.py): what one capital cell has reserved.
-- * Cells (services/capital_cells, packages/schemas/capital_cell.py): the virtual portfolios inside the
--   account. Cells/Book (ledger.py) is a cell's own ledger, which Cells/Book/Refinement compares with
--   Ledger. Cells/Netting (netting.py) crosses the cells' intents and leaves one order for each symbol;
--   Cells/Netting/Loop is about its loop, Cells/Netting/Order about the order of the intents, and
--   Cells/Netting/Apply posts the crosses. Cells/Fills (fill_allocation.py) shares a broker's fill out.
--   Cells/Match (reconciliation.py) compares the cells with Ledger, and sets the state of the risk
--   controller. Cells/Governor (allocation_governor.py, estimation.py) scores the
--   cells, which Cells/Governor/Score is about. Cells/Stops (stops.py) turns a stop into exits, which Cells/Stops/Exits is about.
-- * Schema has the enumerations that they share. Base, Text, Int, Dict and Exec: lists and native
--   numbers, Python's strings, integers, dictionaries and exceptions. Tests: concrete runs.
--
-- Exceptions are values: a method that may raise is a function of the state to a result and the state
-- that it leaves, so that what was written before a `raise` stays written. A dictionary is an
-- association list in the order of insertion.
--
-- Floats are a parameter (Float): the operations that the code applies, and `IsFloat`, the laws that
-- IEEE 754 promises of finite doubles under rounding to the nearest (monotone, with a neutral 0), which
-- hold no exact or associative sum; `sum` adds from the left, as Python 3.11 does, which the tests run on
-- (from 3.12 on it compensates). Theorems that need them take `IsFloat` as a hypothesis;
-- Float/Fixed instantiates it with fixed-point numbers, in which the tests compute. Hashing is a
-- parameter too. The loops of the modelled code run over lists, but for two
-- `while`s, which have fuel. The netting's has as many rounds as there are intents; the calendar's needs
-- as many as there are days up to one that is not closed.
--
-- Every number that is annotated as a float is one: an int that JSON puts in its place is not modelled.
-- The durable store's JSON and instants are read back as they were written.
--
-- Not modelled: NaN and infinities (the schemas refuse them), the texts of check details, random
-- identifiers, network input, language models, statistics, the HTTP interface and the dashboard.
pub mod Base
pub mod Text
pub mod Int
pub mod Float
pub mod Dict
pub mod Exec
pub mod Schema
pub mod Orders
pub mod Ledger
pub mod Settlement
pub mod Approval
pub mod Risk
pub mod Reservation
pub mod Store
pub mod Broker
pub mod Cells
pub mod Execution
pub mod Reconciliation
pub mod Allocation
pub mod Recovery
pub mod Audit
pub mod PreTrade
pub mod Costs
pub mod Calendar
pub mod Integrity
pub mod Heartbeat
pub mod Sizing
pub mod AuditStore
pub mod LossControl
pub mod Paper
pub mod Tests
