-- ===== src/Paper/Matching/KillSwitch.antt =====
-- services/paper_trading/broker.py: what the kill switch stops, whatever is called after it.
use crypt_tool.Base.{
  ℕ, ◌≡◌, refl, Bool, true, String, Option, none, some, List, [], ◌∷◌, All, arith,
}
use crypt_tool.Base.Results.{Result, ok, err}
use crypt_tool.Time.{Timestamp}
use crypt_tool.Decimal.{Decimal}
use crypt_tool.Paper.Models.{Request, Order, Quote, is_rejected}
use crypt_tool.Paper.Account.{Broker, audit, apply_funding}
use crypt_tool.Paper.Broker.{
  truthy, stopped, placed, submit, cancel, cancel_order, cancel_each, cancel_all, report,
  activate_kill_switch, clear_data_halt, halt, resume,
}
use crypt_tool.Paper.Matching.Calls.{
  Call, submitting, canceling, killing, clearing, halting, resuming, quoting, funding_at, call, run,
}
use crypt_tool.Paper.Matching.{
  on_quote, on_quote_after, use_quote, take_quote, quote_blocked, note_gap,
}

-- A call that does not replace the reason of the kill switch by an empty one.
abbrev pub Keeps : Call → Type 0
Keeps (killing now reason t) = truthy (some reason) ≡ true
Keeps _ = Unit

-- What stays while the switch is on.
abbrev pub Stopped : Broker → Broker → Type 0
Stopped b c =
    (truthy c.kill_switch_reason ≡ true) × (c.fills ≡ b.fills) × (c.fees_paid ≡ b.fees_paid)

cancel-Stopped :
    (b c : Broker) (now : ℕ) (i : String) (t : Option Timestamp)
    → Stopped b c
    → Stopped b (cancel c now i t).1
unfolding cancel cancel_order audit
cancel-Stopped b c now i t h = ground arith

cancel_each-Stopped :
    (b c : Broker) (now : ℕ) (os : List (String × Order))
    → Stopped b c
    → Stopped b (cancel_each c now os)
unfolding cancel_each
cancel_each-Stopped b c now [] h = h
cancel_each-Stopped b c now ((i, _) ∷ os) h =
    cancel_each-Stopped b (cancel c now i none).1 now os (cancel-Stopped b c now i none h)

killing-Stopped :
    (b c : Broker) (now : ℕ) (reason : String) (t : Option Timestamp)
    → truthy (some reason) ≡ true
    → Stopped b c
    → Stopped b (activate_kill_switch c now reason t).1
unfolding activate_kill_switch cancel_all report audit
killing-Stopped b c now reason t k h =
    let c' = record c { kill_switch_reason = some reason } in
    ground (arith, cancel_each-Stopped b c' now c.orders (k, h.1, h.2))

submit-Stopped :
    (b c : Broker) (r : Request) (t : Timestamp) → Stopped b c → Stopped b (submit c r t).1
unfolding submit audit
submit-Stopped b c r t h = ground arith

on_quote-Stopped : (b c : Broker) (q : Quote) → Stopped b c → Stopped b (on_quote c q).1
unfolding on_quote on_quote_after use_quote take_quote quote_blocked stopped note_gap audit
on_quote-Stopped b c q h = ground arith

fund-Stopped :
    (b c : Broker) (s : String) (rate : Decimal) (t : Timestamp)
    → Stopped b c
    → Stopped b (apply_funding c s rate t).1
unfolding apply_funding audit
fund-Stopped b c s rate t h = ground arith

call-Stopped : (b c : Broker) (x : Call) → Keeps x → Stopped b c → Stopped b (call c x)
unfolding call clear_data_halt halt resume report audit
call-Stopped b c (submitting r t) k h = submit-Stopped b c r t h
call-Stopped b c (canceling now i t) k h = cancel-Stopped b c now i t h
call-Stopped b c (killing now reason t) k h = killing-Stopped b c now reason t k h
call-Stopped b c (clearing s reason t) k h = ground arith
call-Stopped b c (halting reason t) k h = ground arith
call-Stopped b c (resuming reason t) k h = ground arith
call-Stopped b c (quoting q) k h = on_quote-Stopped b c q h
call-Stopped b c (funding_at s rate t) k h = fund-Stopped b c s rate t h

run-Stopped : (b c : Broker) (xs : List Call) → All Keeps xs → Stopped b c → Stopped b (run c xs)
unfolding run
run-Stopped b c [] k h = h
run-Stopped b c (x ∷ xs) k h = run-Stopped b (call c x) xs k.1 (call-Stopped b c x k.0 h)

-- A request that is not accepted: it raises, or its order is rejected.
abbrev pub not_accepted : Result Order → Bool
not_accepted (err e) = true
not_accepted (ok o) = is_rejected o.status

submit-not_accepted :
    (b : Broker) (r : Request) (t : Timestamp)
    → truthy b.kill_switch_reason ≡ true
    → not_accepted (submit b r t).0 ≡ true
unfolding submit placed stopped
submit-not_accepted b r t k = ground arith

-- From a broker whose kill switch has a reason that is not empty, no sequence of calls makes a
-- fill, charges a fee or turns the switch off, and a request after it is not accepted, if no
-- call of the sequence activates the switch again with an empty reason.
pub killed_forever :
    (b : Broker) (xs : List Call) (r : Request) (t : Timestamp)
    → truthy b.kill_switch_reason ≡ true
    → All Keeps xs
    → Stopped b (run b xs) × (not_accepted (submit (run b xs) r t).0 ≡ true)
killed_forever b xs r t k keeps =
    let h = run-Stopped b b xs keeps (k, refl, refl) in (h, submit-not_accepted (run b xs) r t h.0)
