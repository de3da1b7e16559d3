-- ===== src/Paper/Matching/Gaps.antt =====
-- services/paper_trading/broker.py: the sequence numbers of quotes.
use crypt_tool.Base.{
  ℕ, ◌≡◌, ◌≢◌, refl, true, String, eq_iff, Option, none, some, List, [], ◌∷◌, All, arith,
}
use crypt_tool.Base.Int.{ℤ, pos, ◌+ℤ◌, ltb_ℤ, +ℤ_parts}
use crypt_tool.Base.Dict
use crypt_tool.Base.Results.{ok}
use crypt_tool.Time.{Timestamp}
use crypt_tool.Paper.Models.{Order, Quote, Fill}
use crypt_tool.Paper.Account.{Broker, audit, apply_fill, apply_funding}
use crypt_tool.Paper.Broker.{
  contains, discard, submit, cancel, cancel_order, cancel_each, cancel_all, report,
  activate_kill_switch, clear_data_halt, halt, resume,
}
use crypt_tool.Paper.Matching.Calls.{
  Call, submitting, canceling, killing, clearing, halting, resuming, quoting, funding_at, call, run,
}
use crypt_tool.Paper.Matching.{
  on_quote, on_quote_after, use_quote, take_quote, quote_blocked, note_gap, store, book, execute,
  try_fill, after_try, fill_each,
}

-- A call that does not clear the data halt of a symbol.
abbrev pub Leaves : String → Call → Type 0
Leaves s (clearing t reason at) = t ≢ s
Leaves s _ = Unit

abbrev pub Halted : String → Broker → Type 0
Halted s b = contains s b.data_halted_symbols ≡ true

contains-discard :
    (s t : String) (xs : List String)
    → t ≢ s
    → contains s xs ≡ true
    → contains s (discard t xs) ≡ true
unfolding contains discard
contains-discard s t [] n h = h
contains-discard s t (x ∷ xs) n h = ground (arith, eq_iff s x, eq_iff t x, contains-discard s t xs)

cancel-symbols :
    (b : Broker) (now : ℕ) (i : String) (t : Option Timestamp)
    → (cancel b now i t).1.data_halted_symbols ≡ b.data_halted_symbols
unfolding cancel cancel_order audit
cancel-symbols b now i t = ground arith

cancel_each-symbols :
    (b : Broker) (now : ℕ) (os : List (String × Order))
    → (cancel_each b now os).data_halted_symbols ≡ b.data_halted_symbols
unfolding cancel_each
cancel_each-symbols b now [] = refl
cancel_each-symbols b now ((i, _) ∷ os) =
    ground (arith, cancel-symbols b now i none, cancel_each-symbols (cancel b now i none).1 now os)

killing-symbols :
    (b : Broker) (now : ℕ) (reason : String) (t : Option Timestamp)
    → (activate_kill_switch b now reason t).1.data_halted_symbols ≡ b.data_halted_symbols
unfolding activate_kill_switch cancel_all report audit
killing-symbols b now reason t =
    ground (arith, cancel_each-symbols (record b { kill_switch_reason = some reason }) now b.orders)

try_fill-symbols :
    (b : Broker) (i : String) (o : Order) (q : Quote)
    → (try_fill b i o q).1.data_halted_symbols ≡ b.data_halted_symbols
unfolding try_fill execute book store audit apply_fill
try_fill-symbols b i o q = ground arith

fill_each-symbols :
    (b : Broker) (q : Quote) (os : List (String × Order))
    → (fill_each b q os).1.data_halted_symbols ≡ b.data_halted_symbols
unfolding fill_each after_try
fill_each-symbols b q [] = refl
fill_each-symbols b q ((i, o) ∷ os) =
    let b' = (try_fill b i o q).1 in
    ground (arith, try_fill-symbols b i o q, fill_each-symbols b q os, fill_each-symbols b' q os)

quoting-Halted : (s : String) (b : Broker) (q : Quote) → Halted s b → Halted s (on_quote b q).1
unfolding on_quote on_quote_after use_quote take_quote note_gap audit contains
quoting-Halted s b q h = ground (arith, fill_each-symbols (take_quote b q) q b.orders)

call-Halted : (s : String) (b : Broker) (x : Call) → Leaves s x → Halted s b → Halted s (call b x)
unfolding call submit clear_data_halt halt resume report audit apply_funding
call-Halted s b (submitting r t) k h = ground arith
call-Halted s b (canceling now i t) k h = ground (arith, cancel-symbols b now i t)
call-Halted s b (killing now reason t) k h = ground (arith, killing-symbols b now reason t)
call-Halted s b (clearing u reason t) k h =
    ground (arith, contains-discard s u b.data_halted_symbols)
call-Halted s b (halting reason t) k h = ground arith
call-Halted s b (resuming reason t) k h = ground arith
call-Halted s b (quoting q) k h = quoting-Halted s b q h
call-Halted s b (funding_at u rate t) k h = ground arith

run-Halted :
    (s : String) (b : Broker) (xs : List Call)
    → All (Leaves s) xs
    → Halted s b
    → Halted s (run b xs)
unfolding run
run-Halted s b [] k h = h
run-Halted s b (x ∷ xs) k h = run-Halted s (call b x) xs k.1 (call-Halted s b x k.0 h)

on_quote-Halted :
    (b : Broker) (q : Quote) (fs : List Fill) (c : Broker)
    → Halted q.symbol b
    → on_quote b q ≡ (ok fs, c)
    → fs ≡ []
unfolding on_quote on_quote_after use_quote take_quote quote_blocked
on_quote-Halted b q fs c h e = ground arith

gap-Halted :
    (b : Broker) (q : Quote) (m n : ℤ)
    → q.sequence ≡ some m
    → Dict.get q.symbol b.last_sequence ≡ some n
    → ltb_ℤ (n +ℤ pos 1) m ≡ true
    → Halted q.symbol (on_quote b q).1
unfolding on_quote on_quote_after note_gap audit contains
gap-Halted b q m n h k g = ground (arith, +ℤ_parts n (pos 1), eq_iff q.symbol q.symbol)

-- A quote whose sequence number jumps over the next one halts its symbol: through any later
-- calls that do not clear the data halt of that symbol, no quote of the symbol makes a fill.
pub gap_halts :
    (b : Broker) (q : Quote) (m n : ℤ) (xs : List Call)
    → q.sequence ≡ some m
    → Dict.get q.symbol b.last_sequence ≡ some n
    → ltb_ℤ (n +ℤ pos 1) m ≡ true
    → All (Leaves q.symbol) xs
    → (p : Quote) (fs : List Fill) (c : Broker) → p.symbol ≡ q.symbol
    → on_quote (run (call b (quoting q)) xs) p ≡ (ok fs, c)
    → fs ≡ []
unfolding call
gap_halts b q m n xs h k g l p fs c e r =
    on_quote-Halted (run (call b (quoting q)) xs) p fs c
      (rw e (run-Halted q.symbol (on_quote b q).1 xs l (gap-Halted b q m n h k g))) r
