-- ===== src/Sched/Queues.antt =====
-- Where the tasks of kernel/core/task.c are queued, ready or asleep, under its list functions and
-- the clock tick.
use wjos.Common.{
  ℕ, ◌+◌, ◌-◌, ◌≤◌, ◌≡◌, refl, ◌≢◌, ◌⊎◌, inl, inr, List, [], ◌∷◌, arith, ◌==◌, if◌then◌else◌,
  Bool-cases, ==_iff, ap, ◌∙◌, sym, subst,
}
use wjos.Sched.{
  Manager, Task, idle_task, update, task_next_run, task_set_ready, task_set_block, task_set_wakeup,
  task_dispatch, tick_slice, tick_sleeper, count_slice, end_slice, count_sleep, end_sleep,
  tick_sleepers, task_time_tick,
}
use wjos.Sched.Lists.{count, count-append, count-list_remove_self, count-list_remove_ne}

-- How often a task is queued, ready or asleep.
abbrev pub placed : Manager → ℕ → ℕ
placed m t = count t m.ready_list + count t m.sleep_list

abbrev pub IsOnce : Manager → Type 0
IsOnce m = ((t : ℕ) → placed m t ≤ 1) × (placed m idle_task ≡ 0)

-- No task is queued twice, the idle task never, and the task that runs is ready or the idle task.
pub record IsQueued (m : Manager) : Type 0 where
  pub once : IsOnce m
  pub running : (m.curr_task ≡ idle_task) ⊎ (count m.curr_task m.ready_list ≡ 1)

pub set_ready-placed :
    (m : Manager) (t : ℕ)
    → t ≢ idle_task
    → (u : ℕ) → placed (task_set_ready m t) u ≡ placed m u + count u (t ∷ [])
unfolding task_set_ready update
set_ready-placed m t ne u = ground (arith, count-append u m.ready_list (t ∷ []), ne)

pub set_block-placed :
    (m : Manager) (t : ℕ)
    → t ≢ idle_task
    → count t m.ready_list ≡ 1
    → (u : ℕ) → placed (task_set_block m t) u + count u (t ∷ []) ≡ placed m u
unfolding task_set_block
set_block-placed m t ne h u = elim (Bool-cases (t == u)) [
  | inl e ↦ ground (arith, count-list_remove_self t m.ready_list)
  | inr e ↦ ground (arith, count-list_remove_ne t u m.ready_list)
]

pub dispatch-ready : (m : Manager) → (task_dispatch m).ready_list ≡ m.ready_list
unfolding task_dispatch update
dispatch-ready m = ground arith

pub dispatch-sleep : (m : Manager) → (task_dispatch m).sleep_list ≡ m.sleep_list
unfolding task_dispatch update
dispatch-sleep m = ground arith

pub dispatch-curr : (m : Manager) → (task_dispatch m).curr_task ≡ task_next_run m
unfolding task_dispatch update
dispatch-curr m = ground arith

pub dispatch-placed : (m : Manager) (u : ℕ) → placed (task_dispatch m) u ≡ placed m u
dispatch-placed m u =
    ap (λ l. count u l + count u (task_dispatch m).sleep_list) (dispatch-ready m)
    ∙ ap (λ l. count u m.ready_list + count u l) (dispatch-sleep m)

next_run-cases :
    (m : Manager) → (task_next_run m ≡ idle_task) ⊎ (1 ≤ count (task_next_run m) m.ready_list)
unfolding task_next_run
next_run-cases m = go m.ready_list
  where
    go :
        (l : List ℕ)
        → let n : ℕ = elim l [ [] ↦ idle_task | t ∷ ts ↦ t ] in (n ≡ idle_task) ⊎ (1 ≤ count n l)
    go [] = inl refl
    go (x ∷ xs) = inr (ground arith)

pub dispatch-IsQueued : (m : Manager) → IsOnce m → IsQueued (task_dispatch m)
dispatch-IsQueued m (once, idle) = record {
  once = ((λ t. omega (arith, dispatch-placed m t, once t)), dispatch-placed m idle_task ∙ idle);
  running = elim (next_run-cases m) [
    | inl e ↦ inl (dispatch-curr m ∙ e)
    | inr h ↦
        inr (rw (dispatch-curr m, dispatch-ready m) (omega (arith, h, once (task_next_run m))))
  ];
}

set_ready-idle : (m : Manager) → task_set_ready m idle_task ≡ m
unfolding task_set_ready
set_ready-idle m = refl

set_block-idle : (m : Manager) → task_set_block m idle_task ≡ m
unfolding task_set_block
set_block-idle m = refl

-- Blocking the task that runs and making it ready again.
requeue : Manager → ℕ → Manager
unfolding task_set_ready task_set_block
requeue m t = task_set_ready (task_set_block m t) t

module _ (m : Manager) (t : ℕ) where
  pub requeue-placed :
      (t ≡ idle_task) ⊎ (count t m.ready_list ≡ 1)
      → (u : ℕ) → placed (task_set_ready (task_set_block m t) t) u ≡ placed m u
  requeue-placed run u = elim (Bool-cases (t == idle_task)) [
    | inl e ↦
        let i : t ≡ idle_task = (==_iff t idle_task).0 e in
        rw (i, set_block-idle, set_ready-idle) refl
    | inr e ↦
        let ne : t ≢ idle_task = ground (arith, e) in
        let one : count t m.ready_list ≡ 1 = elim run [ inl i ↦ absurd (ne i) | inr h ↦ h ] in
        omega (arith, set_ready-placed (task_set_block m t) t ne u, set_block-placed m t ne one u)
  ]

-- A change of a record changes no list.
update-ready : (m : Manager) (t : ℕ) (f : Task → Task) → (update m t f).ready_list ≡ m.ready_list
unfolding update
update-ready m t f = refl

update-placed :
    (m : Manager) (t : ℕ) (f : Task → Task) (u : ℕ) → placed (update m t f) u ≡ placed m u
unfolding update
update-placed m t f u = refl

end_slice-placed :
    (m : Manager) (t : ℕ)
    → (t ≡ idle_task) ⊎ (count t m.ready_list ≡ 1)
    → (u : ℕ) → placed (end_slice m t) u ≡ placed m u
unfolding end_slice
end_slice-placed m t run u = elim (Bool-cases ((m.tasks t).slice_ticks == 0)) [
  | inl e ↦
      let f : Task → Task = λ task. record task { slice_ticks = task.time_ticks } in
      rw (e, if◌then◌else◌)
        (requeue-placed (update m t f) t
            (subst (λ l. (t ≡ idle_task) ⊎ (count t l ≡ 1)) (sym (update-ready m t f)) run) u
          ∙ update-placed m t f u)
  | inr e ↦ rw (e, if◌then◌else◌) refl
]

tick_slice-placed : (m : Manager) → IsQueued m → (u : ℕ) → placed (tick_slice m) u ≡ placed m u
unfolding tick_slice
tick_slice-placed m q u =
    let run =
      subst (λ l. (m.curr_task ≡ idle_task) ⊎ (count m.curr_task l ≡ 1))
        (sym (update-ready m m.curr_task count_slice)) q.running in
    end_slice-placed (update m m.curr_task count_slice) m.curr_task run u
    ∙ update-placed m m.curr_task count_slice u

wakeup-placed :
    (m : Manager) (t : ℕ)
    → 1 ≤ count t m.sleep_list
    → (u : ℕ) → placed (task_set_wakeup m t) u + count u (t ∷ []) ≡ placed m u
unfolding task_set_wakeup
wakeup-placed m t h u = elim (Bool-cases (t == u)) [
  | inl e ↦ ground (arith, count-list_remove_self t m.sleep_list)
  | inr e ↦ ground (arith, count-list_remove_ne t u m.sleep_list)
]

-- A sleeper stays in its list or moves to the ready list, and the others stay asleep.
end_sleep-placed :
    (m : Manager) (t : ℕ)
    → t ≢ idle_task
    → 1 ≤ count t m.sleep_list
    → (u : ℕ) → placed (end_sleep m t) u ≡ placed m u
unfolding end_sleep
end_sleep-placed m t ne h u = elim (Bool-cases ((m.tasks t).sleep_ticks == 0)) [
  | inl e ↦
      rw (e, if◌then◌else◌)
        (omega (arith, set_ready-placed (task_set_wakeup m t) t ne u, wakeup-placed m t h u))
  | inr e ↦ rw (e, if◌then◌else◌) refl
]

end_sleep-sleep :
    (m : Manager) (t u : ℕ)
    → count u m.sleep_list - count u (t ∷ []) ≤ count u (end_sleep m t).sleep_list
unfolding end_sleep task_set_wakeup task_set_ready update
end_sleep-sleep m t u = elim (Bool-cases (t == u)) [
  | inl e ↦ ground (arith, count-list_remove_self t m.sleep_list)
  | inr e ↦ ground (arith, count-list_remove_ne t u m.sleep_list)
]

tick_sleepers-placed :
    (ts : List ℕ) (m : Manager)
    → ((u : ℕ) → count u ts ≤ count u m.sleep_list)
    → count idle_task ts ≡ 0
    → (u : ℕ) → placed (tick_sleepers ts m) u ≡ placed m u
unfolding tick_sleepers tick_sleeper update
tick_sleepers-placed [] m sub idle u = refl
tick_sleepers-placed (t ∷ ts) m sub idle u =
    let m' = update m t count_sleep in
    tick_sleepers-placed ts (end_sleep m' t) (λ v. ground (arith, end_sleep-sleep m' t v, sub v))
      (ground arith) u
    ∙ end_sleep-placed m' t (ground arith) (ground (arith, sub t)) u

-- A clock tick neither loses a task nor queues it twice: each stays where it is, or moves from the
-- sleep list to the ready list, for a state in which no task is queued twice.
pub task_time_tick-placed :
    (m : Manager) → IsQueued m → (u : ℕ) → placed (task_time_tick m) u ≡ placed m u
unfolding task_time_tick
task_time_tick-placed m q u =
    let m' = tick_slice m in
    dispatch-placed (tick_sleepers m'.sleep_list m') u
    ∙ tick_sleepers-placed m'.sleep_list m' (λ v. omega arith)
        (omega (arith, tick_slice-placed m q idle_task, q.once.1)) u
    ∙ tick_slice-placed m q u
