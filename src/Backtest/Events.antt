-- ===== src/Backtest/Events.antt =====
-- services/backtest/events.py: the events of a backtest and their priority queue.
use crypt_tool.Base.{
  ℕ, suc, Bool, true, false, ◌&&◌, ◌||◌, not, String, Option, none, some, List, [], ◌∷◌, ltb, ◌==◌,
  if◌then◌else◌, is_some, str_eq,
}
use crypt_tool.Base.Int.{ℤ, pos, ◌+ℤ◌, leb_ℤ, ltb_ℤ}
use crypt_tool.Base.Results.{Result, ok, err, value_error, index_error, refuse_if, ◌>>=◌, ◌>>◌}
use crypt_tool.Time.{Timestamp, aware, naive}
use crypt_tool.Decimal.{Decimal, zero_dec, le}
use crypt_tool.Execution.Orders.{Side, OrderType, TimeInForce, is_market, Snapshot, Order}
pub mod Least
pub mod Runs

unfoldable pub utc : Timestamp → Result ℕ
utc (aware t) = ok t
utc (naive t) = err (value_error "event timestamp must be timezone-aware")

-- The fields of a signal that its constructor leaves as they are.
pub record SignalFields : Type 0 where
  pub signal_id : String
  pub exchange : String
  pub symbol : String
  pub side : Side
  pub quantity : Decimal
  pub order_type : OrderType
  pub time_in_force : TimeInForce
  pub limit_price : Option Decimal
  pub calculation_delay : ℤ
  pub submission_delay : ℤ
  pub post_only : Bool
  pub reduce_only : Bool
  pub stop_loss : Option Decimal
  pub take_profit : Option Decimal
  pub reason : String

pub record SignalEvent : Type 0 where
  pub fields : SignalFields
  pub timestamp : ℕ
  pub expires_at : Option ℕ

unfoldable pub signal_expiry : SignalFields → ℕ → Option Timestamp → Result (Option ℕ)
signal_expiry f timestamp none = ok none
signal_expiry f timestamp (some e) = do
  t ← utc e
  refuse_if (leb_ℤ (pos t) (pos timestamp +ℤ f.calculation_delay +ℤ f.submission_delay))
      "signal expiry must follow submission"
  ok (some t)

-- The constructor of `SignalEvent`, with `__post_init__`.
unfoldable pub new_signal : SignalFields → Timestamp → Option Timestamp → Result SignalEvent
new_signal f at expires_at = do
  timestamp ← utc at
  refuse_if (str_eq f.signal_id "") "signal_id is required"
  refuse_if (le f.quantity zero_dec) "signal quantity must be positive"
  refuse_if (ltb_ℤ f.calculation_delay (pos 0) || ltb_ℤ f.submission_delay (pos 0))
      "delays cannot be negative"
  refuse_if (not (is_market f.order_type) && not (is_some f.limit_price))
      "limit signal requires limit_price"
  refuse_if (is_market f.order_type && is_some f.limit_price)
      "market signal cannot include limit_price"
  expiry ← signal_expiry f timestamp expires_at
  ok (record { fields = f; timestamp = timestamp; expires_at = expiry })

pub record FundingEvent : Type 0 where
  pub timestamp : ℕ
  pub exchange : String
  pub symbol : String
  pub rate : Decimal
  pub mark_price : Decimal

unfoldable pub new_funding : Timestamp → String → String → Decimal → Decimal → Result FundingEvent
new_funding at exchange symbol rate mark_price = do
  t ← utc at
  refuse_if (le mark_price zero_dec) "funding mark price must be positive"
  ok (record {
    timestamp = t;
    exchange = exchange;
    symbol = symbol;
    rate = rate;
    mark_price = mark_price;
  })

-- `BacktestEvent`; the creation and the submission of an order carry their own time.
pub data Event : Type 0 where
  signal : SignalEvent → Event
  order_creation : ℕ → SignalEvent → Event
  order_submission : ℕ → Order → Event
  market_data : Snapshot → Event
  funding : FundingEvent → Event

unfoldable pub new_order_creation : Timestamp → SignalEvent → Result Event
new_order_creation at s = do t ← utc at; ok (order_creation t s)

unfoldable pub new_order_submission : Timestamp → Order → Result Event
new_order_submission at o = do t ← utc at; ok (order_submission t o)

unfoldable pub timestamp_of : Event → ℕ
timestamp_of (signal s) = s.timestamp
timestamp_of (order_creation t s) = t
timestamp_of (order_submission t o) = t
timestamp_of (market_data s) = s.timestamp
timestamp_of (funding f) = f.timestamp

unfoldable pub event_priority : Event → ℕ
event_priority (market_data s) = 10
event_priority (funding f) = 20
event_priority (signal s) = 30
event_priority (order_creation t s) = 40
event_priority (order_submission t o) = 50

pub record QueuedEvent : Type 0 where
  pub timestamp : ℕ
  pub priority : ℕ
  pub sequence : ℕ
  pub event : Event

-- `<` of the data class: the event itself is not compared.
unfoldable pub queued_lt : QueuedEvent → QueuedEvent → Bool
queued_lt x y =
    if x.timestamp == y.timestamp
    then if x.priority == y.priority then ltb x.sequence y.sequence else ltb x.priority y.priority
    else ltb x.timestamp y.timestamp

-- The heap as the entries that it holds, in any order: `heappush` adds one, and `heappop` takes
-- out a least one.
pub record EventQueue : Type 0 where
  pub heap : List QueuedEvent
  pub sequence : ℕ

abbrev pub new_queue : EventQueue
new_queue = record { heap = []; sequence = 0 }

unfoldable pub push : EventQueue → Event → EventQueue
push q e =
    let n = suc q.sequence in
    record {
      heap =
          record {
            timestamp = timestamp_of e;
            priority = event_priority e;
            sequence = n;
            event = e;
          }
          ∷ q.heap;
      sequence = n;
    }

unfoldable pub take_least : QueuedEvent → List QueuedEvent → QueuedEvent × List QueuedEvent
take_least least [] = (least, [])
take_least least (x ∷ xs) =
    let less = queued_lt x least in
    let taken = take_least (if less then x else least) xs in
    (taken.0, (if less then least else x) ∷ taken.1)

abbrev pub pop_from : List QueuedEvent → ℕ → Result (Event × EventQueue)
pop_from [] n = err (index_error "event queue is empty")
pop_from (x ∷ xs) n =
    let taken = take_least x xs in ok (taken.0.event, record { heap = taken.1; sequence = n })

unfoldable pub pop : EventQueue → Result (Event × EventQueue)
pop q = pop_from q.heap q.sequence
