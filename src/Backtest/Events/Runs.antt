-- ===== src/Backtest/Events/Runs.antt =====
-- services/backtest/events.py: what a queue gives after any calls.
use crypt_tool.Base.{
  ℕ, suc, ◌≤◌, ◌<◌, ◌≡◌, ◌≢◌, ◌⊎◌, refl, false, List, [], ◌∷◌, length, All, All-In, All-map_imp, In,
  arith,
}
use crypt_tool.Base.Results.{Result, ok, err}
use crypt_tool.Backtest.Events.{
  Event, timestamp_of, event_priority, QueuedEvent, queued_lt, EventQueue, new_queue, push,
  take_least, pop_from, pop,
}
use crypt_tool.Backtest.Events.Least.{
  All-take_least, take_least-Minimal, In-take_least, take_least-In, length-take_least, IsDistinct,
  take_least-AreDistinct,
}

pub data Call : Type 0 where
  pushes : Event → Call
  pops : Call

-- A `pop` that raises leaves the queue as it is.
abbrev after_pop : EventQueue → Result (Event × EventQueue) → EventQueue
after_pop q (ok r) = r.1
after_pop q (err e) = q

unfoldable pub step : EventQueue → Call → EventQueue
step q (pushes e) = push q e
step q pops = after_pop q (pop q)

unfoldable pub run : EventQueue → List Call → EventQueue
run q [] = q
run q (c ∷ cs) = run (step q c) cs

-- An entry has its event's time and priority, and a number that was used.
record Faithful (n : ℕ) (x : QueuedEvent) : Type 0 where
  time : x.timestamp ≡ timestamp_of x.event
  rank : x.priority ≡ event_priority x.event
  used : x.sequence ≤ n

record IsValid (q : EventQueue) : Type 0 where
  entries : All (Faithful q.sequence) q.heap
  distinct : IsDistinct q.heap

push-IsValid : (q : EventQueue) (e : Event) → IsValid q → IsValid (push q e)
unfolding push
push-IsValid q e v = record {
  entries = (
    record { time = refl; rank = refl; used = omega arith },
    All-map_imp {Q = Faithful (suc q.sequence)}
        (λ (y : QueuedEvent) (f : Faithful q.sequence y). record {
          time = f.time;
          rank = f.rank;
          used = omega (arith, f.used);
        })
        q.heap v.entries,
  );
  distinct = (
    All-map_imp {Q = λ (y : QueuedEvent). y.sequence ≢ suc q.sequence}
        (λ (y : QueuedEvent) (f : Faithful q.sequence y) e'. omega (arith, f.used, e')) q.heap
        v.entries,
    v.distinct,
  );
}

after_pop-IsValid :
    (xs : List QueuedEvent) (n : ℕ)
    → IsValid (record { heap = xs; sequence = n })
    → IsValid (after_pop (record { heap = xs; sequence = n }) (pop_from xs n))
after_pop-IsValid [] n v = v
after_pop-IsValid (x ∷ xs) n v = record {
  entries = (All-take_least (Faithful n) x xs v.entries.0 v.entries.1).1;
  distinct = (take_least-AreDistinct x xs v.distinct).all_distinct.1;
}

run-IsValid : (q : EventQueue) (cs : List Call) → IsValid q → IsValid (run q cs)
unfolding run step pop
run-IsValid q [] v = v
run-IsValid q (pushes e ∷ cs) v = run-IsValid (push q e) cs (push-IsValid q e v)
run-IsValid q (pops ∷ cs) v =
    run-IsValid (after_pop q (pop q)) cs (after_pop-IsValid q.heap q.sequence v)

-- By the time, then by the kind of the event, then by the order of the pushes.
abbrev pub Before : QueuedEvent → QueuedEvent → Type 0
Before x y =
    (timestamp_of x.event < timestamp_of y.event)
    ⊎ ((timestamp_of x.event ≡ timestamp_of y.event)
        × ((event_priority x.event < event_priority y.event)
            ⊎ ((event_priority x.event ≡ event_priority y.event) × (x.sequence < y.sequence))))

before :
    (n : ℕ) (x y : QueuedEvent)
    → Faithful n x
    → Faithful n y
    → y.sequence ≢ x.sequence
    → queued_lt y x ≡ false
    → Before x y
unfolding queued_lt
before n x y f g d h = ground arith

-- The entry that was taken out: it is before each that stays, and nothing else was lost.
pub record IsNext (before after : EventQueue) (x : QueuedEvent) : Type 0 where
  pub first : (y : QueuedEvent) → In y after.heap → Before x y
  pub taken : (y : QueuedEvent) → In y before.heap → (y ≡ x) ⊎ In y after.heap
  pub kept : (y : QueuedEvent) → (y ≡ x) ⊎ In y after.heap → In y before.heap
  pub counted : length before.heap ≡ suc (length after.heap)

-- The outcome of `pop`: an exception is raised only by an empty queue.
abbrev pub Popped : EventQueue → Result (Event × EventQueue) → Type 0
Popped q (ok r) = (x : QueuedEvent) × (x.event ≡ r.0) × IsNext q r.1 x
Popped q (err e) = q.heap ≡ []

pop_from-Popped :
    (xs : List QueuedEvent) (n : ℕ)
    → IsValid (record { heap = xs; sequence = n })
    → Popped (record { heap = xs; sequence = n }) (pop_from xs n)
pop_from-Popped [] n v = refl
pop_from-Popped (x ∷ xs) n v =
    let t = take_least x xs in
    let f = All-take_least (Faithful n) x xs v.entries.0 v.entries.1 in
    let d = take_least-AreDistinct x xs v.distinct in
    let m = take_least-Minimal x xs in
    (
      t.0,
      refl,
      record {
        first = λ y i.
            before n t.0 y f.0 (All-In (Faithful n) y t.1 f.1 i)
              (All-In (λ (z : QueuedEvent). z.sequence ≢ t.0.sequence) y t.1 d.all_distinct.0 i)
              (All-In (λ (z : QueuedEvent). queued_lt z t.0 ≡ false) y t.1 m.rest i);
        taken = λ y i. In-take_least y x xs i;
        kept = λ y i. take_least-In y x xs i;
        counted = omega (arith, length-take_least x xs);
      },
    )

-- After any pushes and pops on a new queue, `pop` takes out the entry of the event that it
-- returns, and it alone: the rest stays. The event comes before that of every entry that stays:
-- it is earlier, or as early and of a lower `event_priority`, or equal in both and pushed
-- earlier. An exception is raised only by an empty queue.
pub run-pop-Popped : (cs : List Call) → Popped (run new_queue cs) (pop (run new_queue cs))
unfolding pop
run-pop-Popped cs =
    let q = run new_queue cs in
    pop_from-Popped q.heap q.sequence
      (run-IsValid new_queue cs (record { entries = tt; distinct = tt }))
