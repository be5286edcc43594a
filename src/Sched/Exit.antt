-- ===== src/Sched/Exit.antt =====
-- The life of a process in kernel/core/task.c: taking a free entry of the task table, exiting with
-- the children handed to the first task, and waiting for a child. The table's entries are the tasks
-- 0 to 127. An exiting task has closed its files. The pages of a reaped task are freed with it.
pub mod Orphans
pub mod Laws
use wjos.Common.{
  ℕ, zero, suc, ◌+◌, ◌-◌, Bool, true, false, not, ◌&&◌, ◌||◌, Option, none, some, List, [], ◌∷◌,
  ltb, ◌==◌, if◌then◌else◌, get_or, replicate,
}
use wjos.Sched.{
  Task, TaskState, Manager, task_nr, first_task, update, task_set_ready, task_set_block,
  task_dispatch,
}

-- `name[0] == '\0'` marks a free entry.
abbrev pub is_free : Task → Bool
is_free task = get_or task.name 0 0 == 0

-- The loop of `alloc_task`, with `n` entries left.
unfoldable pub alloc_from : ℕ → ℕ → Manager → Option ℕ
alloc_from zero i m = none
alloc_from (suc n) i m =
    let rest = alloc_from n (i + 1) m in if is_free (m.tasks i) then some i else rest

unfoldable pub alloc_task : Manager → Option ℕ
alloc_task m = alloc_from task_nr 0 m

unfoldable pub free_task : Manager → ℕ → Manager
unfolding update
free_task m t = update m t (λ task. record task { name = [] })

-- A record cleared by `kernel_memset`.
abbrev pub zero_task : Task
zero_task = record {
  state = TaskState.created;
  parent = none;
  sleep_ticks = 0;
  time_ticks = 0;
  slice_ticks = 0;
  status = 0;
  file_table = replicate 128 none;
  name = [];
}

abbrev pub is_state : TaskState → TaskState → Bool
is_state TaskState.zombie TaskState.zombie = true
is_state TaskState.waiting TaskState.waiting = true
is_state TaskState.created TaskState.created = true
is_state TaskState.running TaskState.running = true
is_state TaskState.asleep TaskState.asleep = true
is_state TaskState.ready TaskState.ready = true
is_state _ _ = false

abbrev pub is_parent : ℕ → Task → Bool
is_parent t task = elim task.parent [ none ↦ false | some p ↦ p == t ]

-- What one round of the loop of `sys_wait` comes to: a child is reaped, or the caller is blocked.
pub data Wait : Type 0 where
  reaped : ℕ → (status : ℕ) → Manager → Wait
  blocked : Manager → Wait

-- The search for a zombie child, with `n` entries left.
unfoldable pub zombie_from : ℕ → ℕ → Manager → Option ℕ
zombie_from zero i m = none
zombie_from (suc n) i m =
    let rest = zombie_from n (i + 1) m in
    if is_parent m.curr_task (m.tasks i) && is_state (m.tasks i).state TaskState.zombie
    then some i
    else rest

unfoldable pub wait_end : Manager → Option ℕ → Wait
unfolding update task_set_block task_dispatch
wait_end m (some t) = reaped t (m.tasks t).status (update m t (λ task. zero_task))
wait_end m none = blocked (
    task_dispatch (
      update (task_set_block m m.curr_task) m.curr_task
        (λ task. record task { state = TaskState.waiting })))

unfoldable pub wait_round : Manager → Wait
unfolding wait_end
wait_round m = wait_end m (zombie_from task_nr 0 m)

-- A child of the exiting task goes to the first task.
abbrev pub adopt : ℕ → Task → Task
adopt t task = if is_parent t task then record task { parent = some first_task } else task

unfoldable pub adopt_from : ℕ → ℕ → Manager → Manager
unfolding update
adopt_from zero i m = m
adopt_from (suc n) i m = adopt_from n (i + 1) (update m i (adopt m.curr_task))

-- `move_child`: whether a child is a zombie already.
unfoldable pub move_child : ℕ → ℕ → Manager → Bool
move_child zero i m = false
move_child (suc n) i m =
    (is_parent m.curr_task (m.tasks i) && is_state (m.tasks i).state TaskState.zombie)
    || move_child n (i + 1) m

-- A task that waits is made ready.
unfoldable pub wake_waiting : Manager → ℕ → Manager
unfolding task_set_ready
wake_waiting m t = if is_state (m.tasks t).state TaskState.waiting then task_set_ready m t else m

-- The first task is woken for a zombie that it inherits, unless it is the parent, which is woken next.
unfoldable pub wake_parents : Manager → ℕ → Bool → Manager
unfolding wake_waiting
wake_parents m parent moved =
    wake_waiting (if moved && not (parent == first_task) then wake_waiting m first_task else m)
      parent

-- The end of `sys_exit`: the task becomes a zombie and leaves the ready list.
unfoldable pub leave : Manager → ℕ → Manager
unfolding update task_set_block task_dispatch
leave m status = task_dispatch (
    task_set_block
      (update m m.curr_task (λ task. record task { state = TaskState.zombie; status = status }))
      m.curr_task)

-- What follows the closing of the files, for the parent that the task has.
unfoldable pub exit_to : Manager → ℕ → ℕ → Manager
unfolding adopt_from move_child wake_parents leave
exit_to m parent status =
    leave (wake_parents (adopt_from task_nr 0 m) parent (move_child task_nr 0 m)) status

-- `none` is a task without a parent, the first one, whose exit reads through the null pointer.
unfoldable pub sys_exit : Manager → ℕ → Option Manager
unfolding exit_to
sys_exit m status = elim (m.tasks m.curr_task).parent [
  | none ↦ none
  | some parent ↦ some (exit_to m parent status)
]
