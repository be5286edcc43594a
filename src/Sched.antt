-- ===== src/Sched.antt =====
-- kernel/core/task.c and task.h: the task records, the ready and sleep lists, dispatching and the
-- clock tick, process exit and wait, and the descriptor table. A `task_t *` is a number: the task
-- table's entries come first, then the first task and the idle task. A `list_t` of run nodes is the
-- sequence of its tasks. Interrupts are off in each of these functions, which are therefore steps.
pub mod Lists
pub mod Queues
pub mod Reach
pub mod Exit
mod Tests
use wjos.Common.{
  ℕ, zero, suc, ◌+◌, ◌-◌, ◌/◌, Bool, true, false, not, Option, none, some, List, [], ◌∷◌, ◌++◌, ltb,
  leb, ◌==◌, if◌then◌else◌, length,
}
use wjos.Common.Words.{add32, sub32}

pub data TaskState : Type 0 where
  created running asleep ready waiting zombie : TaskState

pub record Task : Type 0 where
  pub state : TaskState
  pub parent : Option ℕ
  pub sleep_ticks : ℕ
  pub time_ticks : ℕ
  pub slice_ticks : ℕ
  pub status : ℕ
  pub file_table : List (Option ℕ)
  pub name : List ℕ

pub record Manager : Type 0 where
  pub curr_task : ℕ
  pub ready_list : List ℕ
  pub sleep_list : List ℕ
  pub tasks : ℕ → Task

abbrev pub task_nr : ℕ
task_nr = 128

abbrev pub first_task : ℕ
first_task = 128

abbrev pub idle_task : ℕ
idle_task = 129

-- `list_remove` of a node that stands in the list.
unfoldable pub list_remove : List ℕ → ℕ → List ℕ
list_remove [] t = []
list_remove (x ∷ xs) t = if x == t then xs else x ∷ list_remove xs t

-- A change of one task's record.
unfoldable pub update : Manager → ℕ → (Task → Task) → Manager
update m t f = record m { tasks = λ x. if x == t then f (m.tasks x) else m.tasks x }

unfoldable pub task_next_run : Manager → ℕ
task_next_run m = elim m.ready_list [ [] ↦ idle_task | t ∷ ts ↦ t ]

unfoldable pub task_set_ready : Manager → ℕ → Manager
unfolding update
task_set_ready m t =
    if t == idle_task
    then m
    else update (record m { ready_list = m.ready_list ++ (t ∷ []) }) t
        (λ task. record task { state = TaskState.ready })

unfoldable pub task_set_block : Manager → ℕ → Manager
unfolding list_remove
task_set_block m t =
    if t == idle_task then m else record m { ready_list = list_remove m.ready_list t }

unfoldable pub task_set_sleep : Manager → ℕ → ℕ → Manager
unfolding update
task_set_sleep m t ticks =
    if ticks == 0
    then m
    else update (record m { sleep_list = m.sleep_list ++ (t ∷ []) }) t
        (λ task. record task { sleep_ticks = ticks; state = TaskState.asleep })

unfoldable pub task_set_wakeup : Manager → ℕ → Manager
unfolding list_remove
task_set_wakeup m t = record m { sleep_list = list_remove m.sleep_list t }

unfoldable pub task_dispatch : Manager → Manager
unfolding task_next_run update
task_dispatch m =
    if task_next_run m == m.curr_task
    then m
    else update (record m { curr_task = task_next_run m }) (task_next_run m)
        (λ task. record task { state = TaskState.running })

unfoldable pub sys_yeild : Manager → Manager
unfolding task_set_block task_set_ready task_dispatch
sys_yeild m =
    if ltb 1 (length m.ready_list)
    then task_dispatch (task_set_ready (task_set_block m m.curr_task) m.curr_task)
    else m

-- The running task's part of a clock tick: the decrement, and what follows when it gives 0.
unfoldable pub count_slice : Task → Task
count_slice task = record task { slice_ticks = sub32 task.slice_ticks 1 }

unfoldable pub end_slice : Manager → ℕ → Manager
unfolding update task_set_block task_set_ready
end_slice m t =
    if (m.tasks t).slice_ticks == 0
    then task_set_ready
        (task_set_block (update m t (λ task. record task { slice_ticks = task.time_ticks })) t) t
    else m

unfoldable pub tick_slice : Manager → Manager
unfolding update count_slice end_slice
tick_slice m = end_slice (update m m.curr_task count_slice) m.curr_task

-- A sleeper's part.
unfoldable pub count_sleep : Task → Task
count_sleep task = record task { sleep_ticks = sub32 task.sleep_ticks 1 }

unfoldable pub end_sleep : Manager → ℕ → Manager
unfolding task_set_wakeup task_set_ready
end_sleep m t = if (m.tasks t).sleep_ticks == 0 then task_set_ready (task_set_wakeup m t) t else m

unfoldable pub tick_sleeper : Manager → ℕ → Manager
unfolding update count_sleep end_sleep
tick_sleeper m t = end_sleep (update m t count_sleep) t

-- The walk of the sleep list; the next node is taken before a sleeper leaves the list.
unfoldable pub tick_sleepers : List ℕ → Manager → Manager
tick_sleepers [] m = m
tick_sleepers (t ∷ ts) m = tick_sleepers ts (tick_sleeper m t)

unfoldable pub task_time_tick : Manager → Manager
unfolding tick_slice tick_sleepers task_dispatch
task_time_tick m = let m' = tick_slice m in task_dispatch (tick_sleepers m'.sleep_list m')

abbrev pub os_ticks_ms : ℕ
os_ticks_ms = 10

-- The milliseconds in ticks, rounded up; the `uint32_t` sum wraps around.
abbrev pub sleep_ticks_of : ℕ → ℕ
sleep_ticks_of ms = sub32 (add32 ms os_ticks_ms) 1 / os_ticks_ms

unfoldable pub sys_sleep : Manager → ℕ → Manager
unfolding task_set_block task_set_sleep task_dispatch
sys_sleep m ms =
    task_dispatch (task_set_sleep (task_set_block m m.curr_task) m.curr_task (sleep_ticks_of ms))
