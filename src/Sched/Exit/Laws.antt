-- ===== src/Sched/Exit/Laws.antt =====
-- Waiting in kernel/core/task.c, over the task table.
use wjos.Common.{
  ℕ, zero, suc, ◌+◌, ◌≤◌, ◌<◌, ◌≡◌, refl, ◌≢◌, inl, inr, Bool, true, false, ◌&&◌, Option, none,
  some, List, [], ◌∷◌, arith, ◌==◌, if◌then◌else◌, Bool-cases, ap, ◌∙◌, sym, subst,
}
use wjos.Sched.{
  TaskState, Manager, task_nr, update, task_set_block, task_dispatch, task_next_run, list_remove,
  idle_task,
}
use wjos.Sched.Lists.{count, count-list_remove_self}
use wjos.Sched.Exit.{
  is_free, alloc_from, alloc_task, is_state, is_parent, Wait, reaped, blocked, zombie_from,
  wait_end, wait_round,
}

-- The search of `alloc_task` finds the first free entry, or there is none.
pub alloc_from-some :
    (n i : ℕ) (m : Manager) (t : ℕ)
    → alloc_from n i m ≡ some t
    → (i ≤ t) × (t < i + n) × (is_free (m.tasks t) ≡ true)
unfolding alloc_from
alloc_from-some zero i m t h = absurd (ground arith)
alloc_from-some (suc n) i m t h = ground (arith, alloc_from-some n (i + 1) m t)

-- alloc_task returns an entry of the table that is free.
pub alloc_task-free :
    (m : Manager) (t : ℕ) → alloc_task m ≡ some t → (t < 128) × (is_free (m.tasks t) ≡ true)
unfolding alloc_task
alloc_task-free m t h = ground (arith, alloc_from-some task_nr 0 m t h)

-- Whether task `i` is a zombie child of the running task.
abbrev pub is_dead_child : Manager → ℕ → Bool
is_dead_child m i = is_parent m.curr_task (m.tasks i) && is_state (m.tasks i).state TaskState.zombie

zombie_from-some :
    (n i : ℕ) (m : Manager) (t : ℕ)
    → zombie_from n i m ≡ some t
    → (t < i + n) × (is_dead_child m t ≡ true)
unfolding zombie_from
zombie_from-some zero i m t h = absurd (ground arith)
zombie_from-some (suc n) i m t h = elim (Bool-cases (is_dead_child m i)) [
  | inl e ↦ ground (arith, e)
  | inr e ↦ ground (arith, e, zombie_from-some n (i + 1) m t)
]

zombie_from-none :
    (n i : ℕ) (m : Manager)
    → zombie_from n i m ≡ none
    → (t : ℕ) → i ≤ t
    → t < i + n
    → is_dead_child m t ≡ false
unfolding zombie_from
zombie_from-none zero i m h t lo hi = absurd (omega arith)
zombie_from-none (suc n) i m h t lo hi = elim (Bool-cases (is_dead_child m i)) [
  | inl e ↦ absurd (ground (arith, e))
  | inr e ↦
      let rest : zombie_from n (i + 1) m ≡ none =
        sym (ap (λ b. if b then some i else zombie_from n (i + 1) m) e) ∙ h in
      elim (Bool-cases (t == i)) [
        | inl s ↦ subst (λ k. is_dead_child m k ≡ false) (ground (arith, s)) e
        | inr s ↦ zombie_from-none n (i + 1) m rest t (ground (arith, s)) (omega (arith, hi))
      ]
]

-- What a wait that reaps task `t` has done: it was a zombie child, its status is handed over, its
-- entry is free, and no other record has changed.
pub record Reaped (m : Manager) (t status : ℕ) (m' : Manager) : Type 0 where
  pub in_table : t < 128
  pub dead : is_dead_child m t ≡ true
  pub status_of : status ≡ (m.tasks t).status
  pub freed : is_free (m'.tasks t) ≡ true
  pub others : (u : ℕ) → u ≢ t → m'.tasks u ≡ m.tasks u

-- What a wait that blocks the caller has done: none of the caller's children is a zombie, the caller
-- waits and is off the ready list, on which the others keep their places, its head, or the idle task,
-- runs, and no other record has changed.
pub record Blocked (m m' : Manager) : Type 0 where
  pub childless : (t : ℕ) → t < 128 → is_dead_child m t ≡ false
  pub waits : (m'.tasks m.curr_task).state ≡ TaskState.waiting
  pub ready : m'.ready_list ≡ list_remove m.ready_list m.curr_task
  pub off : count m.curr_task m'.ready_list ≡ 0
  pub next : m'.curr_task ≡ task_next_run m'
  pub runs : (m'.tasks m'.curr_task).state ≡ TaskState.running
  pub others : (u : ℕ) → u ≢ m.curr_task → u ≢ m'.curr_task → m'.tasks u ≡ m.tasks u

abbrev pub Outcome : Manager → Wait → Type 0
Outcome m (reaped t status m') = Reaped m t status m'
Outcome m (blocked m') = Blocked m m'

-- A task that is not on the ready list, nor the idle task, is not the next to run.
next_run-other :
    (l : List ℕ) (t : ℕ) (m : Manager)
    → t ≢ idle_task
    → count t l ≡ 0
    → task_next_run (record m { ready_list = l }) ≢ t
unfolding task_next_run
next_run-other [] t m ne c = λ e. ne (sym e)
next_run-other (x ∷ l) t m ne c = λ e. ground (arith, e, c)

-- The caller is marked, and another task is dispatched.
dispatch-Blocked :
    (m b : Manager)
    → b.ready_list ≡ list_remove m.ready_list m.curr_task
    → task_next_run b ≢ m.curr_task
    → b.curr_task ≡ m.curr_task
    → count m.curr_task b.ready_list ≡ 0
    → (b.tasks m.curr_task).state ≡ TaskState.waiting
    → ((u : ℕ) → u ≢ m.curr_task → b.tasks u ≡ m.tasks u)
    → ((t : ℕ) → t < 128 → is_dead_child m t ≡ false)
    → Blocked m (task_dispatch b)
unfolding task_dispatch update task_next_run
dispatch-Blocked m b ready ne curr off waits same childless =
    let other : (task_next_run b == b.curr_task) ≡ false = ground (arith, ne, curr) in
    let self : (task_next_run b == task_next_run b) ≡ true = ground arith in
    let away : (m.curr_task == task_next_run b) ≡ false = ground (arith, ne) in
    rw (other, if◌then◌else◌)
      (record {
        childless = childless;
        waits = rw (away, if◌then◌else◌) waits;
        ready = ready;
        off = off;
        next = refl;
        runs = rw (self, if◌then◌else◌) refl;
        others = λ u nu nn.
            let apart : (u == task_next_run b) ≡ false = ground (arith, nn) in
            rw (apart, if◌then◌else◌) (same u nu);
      })

wait_end-Blocked :
    (m : Manager)
    → m.curr_task ≢ idle_task
    → count m.curr_task m.ready_list ≡ 1
    → ((t : ℕ) → t < 128 → is_dead_child m t ≡ false)
    → Outcome m (wait_end m none)
unfolding wait_end update task_set_block task_next_run
wait_end-Blocked m real once childless =
    let t = m.curr_task in
    let busy : (t == idle_task) ≡ false = ground (arith, real) in
    let gone : count t (list_remove m.ready_list t) ≡ 0 =
      omega (arith, once, count-list_remove_self t m.ready_list) in
    let self : (t == t) ≡ true = ground arith in
    rw (busy, if◌then◌else◌)
      (dispatch-Blocked m
        (update (record m { ready_list = list_remove m.ready_list t }) t
          (λ task. record task { state = TaskState.waiting }))
        refl (next_run-other (list_remove m.ready_list t) t m real gone) refl gone
        (rw (self, if◌then◌else◌) refl)
        (λ u ne.
          let apart : (u == t) ≡ false = ground (arith, ne) in rw (apart, if◌then◌else◌) refl)
        childless)

wait_end-Outcome :
    (m : Manager) (o : Option ℕ)
    → m.curr_task ≢ idle_task
    → count m.curr_task m.ready_list ≡ 1
    → zombie_from task_nr 0 m ≡ o
    → Outcome m (wait_end m o)
unfolding wait_end update
wait_end-Outcome m none real once e =
    wait_end-Blocked m real once
      (λ t lt. zombie_from-none task_nr 0 m e t (omega arith) (omega (arith, lt)))
wait_end-Outcome m (some t) real once e = record {
  in_table = omega (arith, (zombie_from-some task_nr 0 m t e).0);
  dead = (zombie_from-some task_nr 0 m t e).1;
  status_of = refl;
  freed = ground arith;
  others = λ u ne. ground (arith, ne);
}

-- A round of sys_wait, called by a task other than the idle one that is once on the ready list, either
-- reaps a zombie child of the caller, with its status, and frees its entry and touches no other; or
-- none of the caller's children is a zombie, the caller waits and leaves the ready list, the task
-- behind it, or the idle task, runs, and no other record changes.
pub wait_round-Outcome :
    (m : Manager)
    → m.curr_task ≢ idle_task
    → count m.curr_task m.ready_list ≡ 1
    → Outcome m (wait_round m)
unfolding wait_round
wait_round-Outcome m real once = wait_end-Outcome m (zombie_from task_nr 0 m) real once refl
