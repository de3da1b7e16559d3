-- ===== src/Paper/Matching/Calls.antt =====
-- services/paper_trading/broker.py: sequences of calls of the broker.
use crypt_tool.Base.{ℕ, String, Option, List, [], ◌∷◌}
use crypt_tool.Time.{Timestamp}
use crypt_tool.Decimal.{Decimal}
use crypt_tool.Paper.Models.{Request, Quote}
use crypt_tool.Paper.Account.{Broker, apply_funding}
use crypt_tool.Paper.Broker.{submit, cancel, activate_kill_switch, clear_data_halt, halt, resume}
use crypt_tool.Paper.Matching.{on_quote}

-- The calls of the broker that change it.
pub data Call : Type 0 where
  submitting : Request → Timestamp → Call
  canceling : ℕ → String → Option Timestamp → Call
  killing : ℕ → String → Option Timestamp → Call
  clearing : String → String → Timestamp → Call
  halting resuming : String → Timestamp → Call
  quoting : Quote → Call
  funding_at : String → Decimal → Timestamp → Call

unfoldable pub call : Broker → Call → Broker
call b (submitting r t) = (submit b r t).1
call b (canceling now i t) = (cancel b now i t).1
call b (killing now reason t) = (activate_kill_switch b now reason t).1
call b (clearing s reason t) = (clear_data_halt b s reason t).1
call b (halting reason t) = (halt b reason t).1
call b (resuming reason t) = (resume b reason t).1
call b (quoting q) = (on_quote b q).1
call b (funding_at s rate t) = (apply_funding b s rate t).1

unfoldable pub run : Broker → List Call → Broker
run b [] = b
run b (c ∷ cs) = run (call b c) cs
