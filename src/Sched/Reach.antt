-- ===== src/Sched/Reach.antt =====
-- Yielding, sleeping and the clock tick of kernel/core/task.c as steps of a running system.
use wjos.Common.{
  ℕ, ◌+◌, ◌≡◌, refl, ◌≢◌, inl, inr, List, [], ◌∷◌, ◌++◌, arith, ltb, if◌then◌else◌, Bool-cases,
  length, ap, ◌∙◌, sym,
}
use wjos.Sched.{
  Manager, TaskState, idle_task, list_remove, update, task_next_run, task_set_ready, task_set_block,
  task_set_sleep, task_dispatch, sys_yeild, tick_slice, tick_sleepers, task_time_tick,
  sleep_ticks_of, sys_sleep,
}
use wjos.Sched.Lists.{count, count-append, count-list_remove_self}
use wjos.Sched.Queues.{
  placed, IsOnce, IsQueued, set_ready-placed, set_block-placed, dispatch-ready, dispatch-placed,
  dispatch-IsQueued, requeue-placed, task_time_tick-placed,
}

sys_yeild-placed : (m : Manager) → IsQueued m → (u : ℕ) → placed (sys_yeild m) u ≡ placed m u
unfolding sys_yeild
sys_yeild-placed m q u = elim (Bool-cases (ltb 1 (length m.ready_list))) [
  | inl e ↦
      rw (e, if◌then◌else◌)
        (dispatch-placed (task_set_ready (task_set_block m m.curr_task) m.curr_task) u
          ∙ requeue-placed m m.curr_task q.running u)
  | inr e ↦ rw (e, if◌then◌else◌) refl
]

-- Yielding is a rotation: with the task that runs at the head of the ready list and another behind
-- it, the first goes to the end and the second runs, marked so.
pub sys_yeild-rotates :
    (m : Manager) (c d : ℕ) (ts : List ℕ)
    → m.curr_task ≡ c
    → m.ready_list ≡ c ∷ d ∷ ts
    → c ≢ idle_task
    → c ≢ d
    → ((sys_yeild m).ready_list ≡ d ∷ (ts ++ (c ∷ [])))
      × ((sys_yeild m).curr_task ≡ d)
      × (((sys_yeild m).tasks d).state ≡ TaskState.running)
unfolding sys_yeild task_set_block task_set_ready task_dispatch task_next_run list_remove update
sys_yeild-rotates m c d ts curr ready busy ne = rw (curr, ready) (ground arith)

set_sleep-placed :
    (m : Manager) (t ticks : ℕ)
    → ticks ≢ 0
    → (u : ℕ) → placed (task_set_sleep m t ticks) u ≡ placed m u + count u (t ∷ [])
unfolding task_set_sleep update
set_sleep-placed m t ticks ne u = ground (arith, count-append u m.sleep_list (t ∷ []), ne)

set_sleep-zero : (m : Manager) (t : ℕ) → task_set_sleep m t 0 ≡ m
unfolding task_set_sleep
set_sleep-zero m t = refl

set_sleep-ready : (m : Manager) (t ticks : ℕ) → (task_set_sleep m t ticks).ready_list ≡ m.ready_list
unfolding task_set_sleep update
set_sleep-ready m t ticks = ground arith

set_block-ready :
    (m : Manager) (t : ℕ)
    → t ≢ idle_task
    → (task_set_block m t).ready_list ≡ list_remove m.ready_list t
unfolding task_set_block
set_block-ready m t ne = ground arith

-- Sleeping for at least a tick moves the task that runs from the ready list to the sleep list and
-- leaves every other task where it is.
pub sys_sleep-placed :
    (m : Manager) (ms : ℕ)
    → IsQueued m
    → m.curr_task ≢ idle_task
    → sleep_ticks_of ms ≢ 0
    → ((u : ℕ) → placed (sys_sleep m ms) u ≡ placed m u)
      × (count m.curr_task (sys_sleep m ms).ready_list ≡ 0)
unfolding sys_sleep
sys_sleep-placed m ms q ne ticks =
    let t = m.curr_task in
    let one : count t m.ready_list ≡ 1 = elim q.running [ inl i ↦ absurd (ne i) | inr h ↦ h ] in
    let m' = task_set_block m t in
    let m'' = task_set_sleep m' t (sleep_ticks_of ms) in
    (
      λ u. omega (
        arith,
        dispatch-placed m'' u,
        set_sleep-placed m' t (sleep_ticks_of ms) ticks u,
        set_block-placed m t ne one u,
      ),
      ap (count t)
            (dispatch-ready m'' ∙ set_sleep-ready m' t (sleep_ticks_of ms) ∙ set_block-ready m t ne)
          ∙ count-list_remove_self t m.ready_list
          ∙ omega (arith, one),
    )

-- Sleeping for no tick at all, which 0 milliseconds are and so is a number of them that wraps
-- around, takes the task that runs out of both lists: it never runs again.
sys_sleep-lost :
    (m : Manager) (ms : ℕ)
    → IsQueued m
    → m.curr_task ≢ idle_task
    → sleep_ticks_of ms ≡ 0
    → placed (sys_sleep m ms) m.curr_task ≡ 0
unfolding sys_sleep
sys_sleep-lost m ms q ne none =
    let t = m.curr_task in
    let one : count t m.ready_list ≡ 1 = elim q.running [ inl i ↦ absurd (ne i) | inr h ↦ h ] in
    let m' = task_set_block m t in
    dispatch-placed (task_set_sleep m' t (sleep_ticks_of ms)) t
    ∙ ap (λ k. placed (task_set_sleep m' t k) t) none
    ∙ ap (λ x. placed x t) (set_sleep-zero m' t)
    ∙ ground (arith, set_block-placed m t ne one t, q.once.0 t)

-- The steps of a running system: the clock tick, yielding, sleeping for at least a tick, and the
-- start of a task that is in no list.
pub data Step : Manager → Manager → Type 0 where
  tick : (m : Manager) → Step m (task_time_tick m)
  yield : (m : Manager) → Step m (sys_yeild m)
  sleep :
      (m : Manager) (ms : ℕ)
      → m.curr_task ≢ idle_task
      → sleep_ticks_of ms ≢ 0
      → Step m (sys_sleep m ms)
  start : (m : Manager) (t : ℕ) → t ≢ idle_task → placed m t ≡ 0 → Step m (task_set_ready m t)

pub data Reach : Manager → Manager → Type 0 where
  here : (m : Manager) → Reach m m
  step : (m m' m'' : Manager) → Reach m m' → Step m' m'' → Reach m m''

same_placed-IsOnce : (m m' : Manager) → IsOnce m → ((u : ℕ) → placed m' u ≡ placed m u) → IsOnce m'
same_placed-IsOnce m m' (once, idle) same =
    ((λ t. omega (arith, once t, same t)), omega (arith, same idle_task, idle))

-- What is dispatched with the same tasks queued.
dispatched-IsQueued :
    (m m' : Manager)
    → IsQueued m
    → ((u : ℕ) → placed (task_dispatch m') u ≡ placed m u)
    → IsQueued (task_dispatch m')
dispatched-IsQueued m m' q same =
    dispatch-IsQueued m' (same_placed-IsOnce m m' q.once (λ u. sym (dispatch-placed m' u) ∙ same u))

tick-IsQueued : (m : Manager) → IsQueued m → IsQueued (task_time_tick m)
unfolding task_time_tick
tick-IsQueued m q =
    dispatched-IsQueued m (tick_sleepers (tick_slice m).sleep_list (tick_slice m)) q
      (task_time_tick-placed m q)

yield-IsQueued : (m : Manager) → IsQueued m → IsQueued (sys_yeild m)
unfolding sys_yeild
yield-IsQueued m q = elim (Bool-cases (ltb 1 (length m.ready_list))) [
  | inl e ↦
      let m' = task_set_ready (task_set_block m m.curr_task) m.curr_task in
      rw (e, if◌then◌else◌)
        (dispatched-IsQueued m m' q
          (λ u. dispatch-placed m' u ∙ requeue-placed m m.curr_task q.running u))
  | inr e ↦ rw (e, if◌then◌else◌) q
]

sleep-IsQueued :
    (m : Manager) (ms : ℕ)
    → m.curr_task ≢ idle_task
    → sleep_ticks_of ms ≢ 0
    → IsQueued m
    → IsQueued (sys_sleep m ms)
unfolding sys_sleep
sleep-IsQueued m ms ne ticks q =
    dispatched-IsQueued m
      (task_set_sleep (task_set_block m m.curr_task) m.curr_task (sleep_ticks_of ms)) q
      (sys_sleep-placed m ms q ne ticks).0

set_ready-curr : (m : Manager) (t : ℕ) → (task_set_ready m t).curr_task ≡ m.curr_task
unfolding task_set_ready update
set_ready-curr m t = ground arith

set_ready-ready :
    (m : Manager) (t : ℕ)
    → t ≢ idle_task
    → (task_set_ready m t).ready_list ≡ m.ready_list ++ (t ∷ [])
unfolding task_set_ready update
set_ready-ready m t ne = ground arith

start-IsQueued :
    (m : Manager) (t : ℕ)
    → t ≢ idle_task
    → placed m t ≡ 0
    → IsQueued m
    → IsQueued (task_set_ready m t)
start-IsQueued m t ne out q = record {
  once = (
    (λ u. ground (arith, set_ready-placed m t ne u, q.once.0 u, out)),
    ground (arith, set_ready-placed m t ne idle_task, q.once.1, ne),
  );
  running =
      rw (set_ready-curr m t, set_ready-ready m t ne)
        (elim q.running [
          | inl i ↦ inl i
          | inr h ↦ inr (ground (arith, count-append m.curr_task m.ready_list (t ∷ []), h, out))
        ]);
}

Step-IsQueued : (m m' : Manager) → Step m m' → IsQueued m → IsQueued m'
Step-IsQueued _ _ (tick m) q = tick-IsQueued m q
Step-IsQueued _ _ (yield m) q = yield-IsQueued m q
Step-IsQueued _ _ (sleep m ms ne ticks) q = sleep-IsQueued m ms ne ticks q
Step-IsQueued _ _ (start m t ne out) q = start-IsQueued m t ne out q

-- In every state reached by ticks, yields, sleeps of at least a tick and starts of tasks that are in
-- no list, no task is queued twice, the idle task never, and the task that runs is ready or idle.
pub Reach-IsQueued : (m m' : Manager) → Reach m m' → IsQueued m → IsQueued m'
Reach-IsQueued _ _ (here m) q = q
Reach-IsQueued _ _ (step m m' m'' r s) q = Step-IsQueued m' m'' s (Reach-IsQueued m m' r q)
