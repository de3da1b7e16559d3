-- ===== src/Lib.antt =====
-- CryptTool: order execution, portfolio accounting, risk limits and paper trading.
--
-- The program researches and simulates perpetual-futures strategies. A strategy's signal goes to
-- the risk manager, which checks the limits, trips the circuit breaker and sizes the position; the
-- simulator matches submitted orders against later market snapshots; the ledger books the fills and
-- the funding; the paper broker does the same for live quotes, with a kill switch and data halts;
-- the leg machine follows a cross-venue trade of two legs. Before live
-- trading a preflight checks the settings and the adapter, and the bindings of a signal's preflight
-- are changed by compare and set; the gateway of live orders validates an order against its
-- evidence, the venue, the risk decision and the kill switch, reserves the binding of its
-- signal, checks the exchange and submits it once, and reconciles a binding whose order is in
-- doubt; in an emergency an exposure is hedged at the best venue that passes every gate. A
-- backtest takes its events from a queue in the order of time, and the validation of a strategy
-- splits its observations in time.
--
--   Execution/Leg         src/app/domain/execution/leg_state.py: `LegExecutionMachine`
--   Execution/Orders      src/app/domain/execution/models.py: rules, snapshots, orders, fills
--   Execution/Simulator   src/app/domain/execution/simulator.py: `ExecutionSimulator`; `submit` and
--                         the details of a match, Matching for one turn of the loop of `match`, Run
--                         for the whole of it
--   Backtest/Events       src/app/services/backtest/events.py: the events and `EventQueue`; Least for
--                         the entry that is taken out, Runs for what any calls leave
--   Portfolio/Position    src/app/domain/portfolio/models.py: `Position`
--   Portfolio/Ledger      src/app/domain/portfolio/ledger.py: `PortfolioLedger`
--   Risk/Models           src/app/domain/risk/models.py, and the signals of
--                         src/app/domain/strategies/models.py, as risk management reads them
--   Risk/Breaker          src/app/domain/risk/manager.py: `CircuitBreaker`
--   Risk/Sizing           src/app/domain/risk/sizing.py: `PositionSizer`
--   Risk/Manager          src/app/domain/risk/manager.py: `RiskManager`
--   Paper/Models          src/app/services/paper_trading/models.py
--   Paper/Account         src/app/services/paper_trading/broker.py: state, valuation, accounting
--   Paper/Broker          the same file: orders, cancellation, halts and the kill switch
--   Paper/Matching        the same file: `on_quote` and `_try_fill`
--   Live/Preflight        src/app/services/live_trading/preflight.py, and the test of its report in
--                         src/app/services/live_trading/gateway.py
--   Live/Bindings         src/app/services/live_trading/cross_venue_preflight.py; Versions for the
--                         compare and set, Issue for the issuer
--   Live/Evidence         src/app/domain/market_data/evidence.py and source_event_repository.py
--   Live/Orders           src/app/domain/execution/live_models.py: requests, receipts, the audit
--   Live/Exchange         the same file: what is read back from an exchange; the adapter of
--                         src/app/adapters/exchanges/base.py
--   Live/Gateway          src/app/services/live_trading/gateway.py: `LiveExecutionGateway`;
--                         Validation for `_validate_request`, Reserve for the binding of an order,
--                         Snapshot and Reconcile for what is read back, Place for `place_order`,
--                         Calls for the rest; Worlds, Frame, Permitted, Outcome, Runs, Reserved, Settled and
--                         Aborted for their properties
--   Venues/Eligibility    src/app/domain/venues/models.py, src/app/services/venue_eligibility.py
--   Venues/Capability     src/app/domain/venues/models.py: `VenueCapability`; Lifecycle for what any
--                         transitions leave
--   Venues/Trusted        src/app/domain/venues/trusted_capabilities.py
--   Strategies/Capabilities  src/app/domain/strategies/capabilities.py
--   Live/Hedge            src/app/services/emergency_hedge.py; Selection for the venue it chooses
--   Validation/Splits     src/app/services/validation/splits.py; Gaps for the parts of a split,
--                         Windows for the walk-forward loop
--   Base, Decimal, Time   what the parts share: lists, dictionaries, exceptions, numbers, instants
--
-- The state of an object is a record, and a method a function from it to what it returns and the
-- state that it leaves. Where a method raises only before it changes anything, the state comes back
-- only on success (the leg machine, orders, the breaker); where it can raise later (the ledger, the
-- simulator, the paper broker), the state is returned beside the exception, with the changes made
-- until then. The functions are named after the methods; each has the branches of the source in
-- their order. A loop over a list recurs on the list. Messages are kept as their literal parts.
--
-- A `Decimal` is a whole number and a count of decimal places. Products and quotients are rounded to
-- the 28 digits of the default context, a tie to the even one; sums and differences are exact, which
-- differs from the program only where they have more than 28 digits. The digits of a
-- number n are counted with the fuel n + 1, which is enough since each step divides by ten.
-- Comparisons compare values. Floats are read as the decimals that they print as. Instants are
-- microseconds in UTC; a timestamp with no zone is a value of its own, which `_utc` refuses.
-- Identifiers from `uuid4` and the numbers in fill identifiers are natural numbers.
-- The loop of `walk_forward_splits` runs on one more turn of fuel than there are observations, since
-- each turn raises the offset; what numpy and floats do there is a parameter.
-- The heap of the event queue is the collection of its entries: `heappop` takes out a least one.
-- A call of the gateway is a function from its state to a result and the state it leaves, also
-- when it raises. What is awaited may change the exchange and the bindings, by any function, and
-- may set the kill switch, as `activate_kill_switch` can be called meanwhile, which takes no lock; what
-- else such a call does to the gateway (its audit event), and other calls of the same gateway, come
-- before or after a call, not inside one, although only `place_order` has a lock. The list of the requests that were sent is a record the program does
-- not keep. The sink of the audit does not raise; the identifiers of audit events and the
-- formatted notional are left out, and so is the cancellation of a task. What `__init__` takes
-- from the adapter when it is not given is what the configuration holds. The retry of a
-- reservation is one call of the same function without a retry.
-- A repository under a lock is a sequence of whole calls. SHA-256 and HMAC are parameters.
-- The callbacks of `ExecutionSimulator.match` are parameters over a state of any type; they do not
-- raise and do not touch the simulator.
--
-- Not modelled: single-field bounds of the pydantic models that no operation depends on, the texts
-- that only format values, floating-point statistics and indicators, adapters, storage, the
-- command line, and the services that the components of the manifest list as planned.

pub mod Base
pub mod Decimal
pub mod Time
pub mod Execution
pub mod Backtest
pub mod Portfolio
pub mod Risk
pub mod Paper
pub mod Strategies
pub mod Venues
pub mod Live
pub mod Validation
