-- ===== src/Session/Queue.antt =====
-- `SessionCallbackQueue`: callbacks are made in the order in which they were posted, each once.
use mathlib.Core.List.{append-nil, append_assoc}
use android_vendor_extra_fac.Common.{
  ℕ, zero, suc, ◌≤◌, ◌≡◌, refl, sym, ap, ◌∙◌, Bool, true, false, List, [], ◌∷◌, ◌++◌, arith, ◌↔◌,
  length,
}
use android_vendor_extra_fac.Session.State.{Callback, CallbackQueue, push, deliver, is_finished}

pub data QueueEvent : Type 0 where
  posts : Callback → QueueEvent
  round : QueueEvent
  stop : QueueEvent

-- The three who take the queue's lock: `postCallback`, the thread, and the destructor.
unfoldable pub queue_step : QueueEvent → CallbackQueue → CallbackQueue
unfolding push deliver
queue_step (posts task) q = push task q
queue_step round q = deliver q
queue_step stop q = record q { running = false }

unfoldable pub queue_run : List QueueEvent → CallbackQueue → CallbackQueue
queue_run [] q = q
queue_run (e ∷ es) q = queue_run es (queue_step e q)

abbrev pub fresh : CallbackQueue
fresh = record { queue = []; running = true; delivered = [] }

-- What was posted before the first `stop`.
abbrev pub accepted : List QueueEvent → List Callback
accepted [] = []
accepted (posts task ∷ es) = task ∷ accepted es
accepted (round ∷ es) = accepted es
accepted (stop ∷ es) = []

-- All that a queue has taken in, in order.
abbrev pub history : CallbackQueue → List Callback
history q = q.delivered ++ q.queue

delivered_parts :
    (tasks made : List Callback) (on : Bool)
    → history (deliver (record { queue = tasks; running = on; delivered = made })) ≡ made ++ tasks
unfolding deliver
delivered_parts [] made on = refl
delivered_parts (task ∷ tasks) made on = append_assoc made (task ∷ []) tasks

history-deliver : (q : CallbackQueue) → history (deliver q) ≡ history q
history-deliver q = delivered_parts q.queue q.delivered q.running

running-deliver : (q : CallbackQueue) → (deliver q).running ≡ q.running
unfolding deliver
running-deliver q = ground arith

-- A stopped queue takes nothing in.
stopped_history :
    (es : List QueueEvent) (q : CallbackQueue)
    → q.running ≡ false
    → (history (queue_run es q) ≡ history q) × ((queue_run es q).running ≡ false)
unfolding queue_run queue_step
stopped_history [] q h = (refl, h)
stopped_history (posts task ∷ es) q h = simp h (stopped_history es q h)
stopped_history (round ∷ es) q h =
    let (same, off) = stopped_history es (deliver q) (running-deliver q ∙ h) in
    (same ∙ history-deliver q, off)
stopped_history (stop ∷ es) q h = stopped_history es (record q { running = false }) refl

running_history :
    (es : List QueueEvent) (q : CallbackQueue)
    → q.running ≡ true
    → history (queue_run es q) ≡ history q ++ accepted es
unfolding queue_run queue_step
running_history [] q h = sym (append-nil (history q))
running_history (posts task ∷ es) q h = simp h (
    running_history es (record q { queue = q.queue ++ task ∷ []; running = true }) refl
    ∙ ap (λ (l : List Callback). l ++ accepted es)
        (sym (append_assoc q.delivered q.queue (task ∷ [])))
    ∙ append_assoc (history q) (task ∷ []) (accepted es))
running_history (round ∷ es) q h =
    running_history es (deliver q) (running-deliver q ∙ h)
    ∙ ap (λ (l : List Callback). l ++ accepted es) (history-deliver q)
running_history (stop ∷ es) q h =
    (stopped_history es (record q { running = false }) refl).0 ∙ sym (append-nil (history q))

-- Whatever the three threads do, in whatever order, the callbacks that were made and those that
-- still wait are together the ones posted before the session was destroyed, in the order of posting.
pub history-queue_run : (es : List QueueEvent) → history (queue_run es fresh) ≡ accepted es
history-queue_run es = running_history es fresh refl

-- The thread's rounds on their own.
abbrev pub rounds : ℕ → List QueueEvent
rounds zero = []
rounds (suc n) = round ∷ rounds n

drained :
    (n : ℕ) (tasks made : List Callback) (on : Bool)
    → length tasks ≤ n
    → queue_run (rounds n) (record { queue = tasks; running = on; delivered = made })
      ≡ record { queue = []; running = on; delivered = made ++ tasks }
unfolding queue_run queue_step
drained zero [] made on h =
    ap (λ (l : List Callback). record { queue = []; running = on; delivered = l })
      (sym (append-nil made))
drained zero (task ∷ tasks) made on h = absurd (omega arith)
drained (suc n) [] made on h = drained n [] made on (omega arith)
drained (suc n) (task ∷ tasks) made on h =
    drained n tasks (made ++ task ∷ []) on (omega arith)
    ∙ ap (λ (l : List Callback). record { queue = []; running = on; delivered = l })
        (append_assoc made (task ∷ []) tasks)

-- As many rounds as callbacks wait are enough to make them all, also after the session is destroyed;
-- then, and only if it is destroyed, the thread ends.
pub queue_run-rounds :
    (q : CallbackQueue) (n : ℕ)
    → length q.queue ≤ n
    → (queue_run (rounds n) q ≡ record q { queue = []; delivered = history q })
      × ((is_finished (queue_run (rounds n) q) ≡ true) ↔ (q.running ≡ false))
unfolding is_finished
queue_run-rounds q n h =
    let empty = drained n q.queue q.delivered q.running h in (empty, rw empty (ground arith))
