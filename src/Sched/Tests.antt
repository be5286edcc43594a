-- ===== src/Sched/Tests.antt =====
-- The scheduler's theorems at a system of three tasks.
use wjos.Common.{◌≡◌, refl, inr, false, none, some, [], ◌∷◌, arith, ◌==◌, if◌then◌else◌}
use wjos.Sched.{
  Manager, sys_yeild, tick_sleepers, tick_sleeper, count_sleep, end_sleep, task_set_wakeup,
  task_time_tick, task_set_ready, task_set_block, task_dispatch, task_next_run, list_remove, update,
  end_slice, count_slice, tick_slice,
}
use wjos.Sched.Queues.{IsQueued}
use wjos.Sched.Reach.{here, step, tick, yield, Reach-IsQueued}
use wjos.Sched.Exit.{sys_exit, exit_to, is_parent, zero_task, wait_round}
use wjos.Sched.Exit.Orphans.{sys_exit-orphans}
use wjos.Sched.Exit.Laws.{Outcome, wait_round-Outcome}

-- Tasks 1 and 2 are ready, 1 runs, and 3, its child, sleeps.
abbrev three : Manager
three = record {
  curr_task = 1;
  ready_list = 1 ∷ 2 ∷ [];
  sleep_list = 3 ∷ [];
  tasks = λ t. record zero_task {
    slice_ticks = 1;
    time_ticks = 10;
    sleep_ticks = 1;
    parent = if t == 3 then some 1 else none;
  };
}

three-IsQueued : IsQueued three
three-IsQueued = record { once = ((λ t. ground arith), refl); running = inr refl }

-- At a tick the slice of task 1 ends and task 3 wakes.
tick_three : (task_time_tick three).ready_list ≡ 2 ∷ 1 ∷ 3 ∷ []
unfolding task_time_tick tick_slice count_slice end_slice update task_set_block task_set_ready
    list_remove task_dispatch task_next_run tick_sleepers tick_sleeper count_sleep end_sleep
    task_set_wakeup
tick_three = refl

Reach-IsQueued_example : IsQueued (sys_yeild (task_time_tick three))
Reach-IsQueued_example =
    Reach-IsQueued three (sys_yeild (task_time_tick three))
      (step three (task_time_tick three) (sys_yeild (task_time_tick three))
        (step three three (task_time_tick three) (here three) (tick three))
        (yield (task_time_tick three)))
      three-IsQueued

wait_round-Outcome_example : Outcome three (wait_round three)
wait_round-Outcome_example = wait_round-Outcome three (ground arith) (ground arith)

-- Task 1 has the parent 2.
abbrev child_of_two : Manager
child_of_two = record three {
  tasks =
      λ t. record zero_task { parent = if t == 1 then some 2 else if t == 3 then some 1 else none };
}

sys_exit-orphans_example : is_parent 1 ((exit_to child_of_two 2 7).tasks 3) ≡ false
unfolding sys_exit
sys_exit-orphans_example =
    sys_exit-orphans child_of_two (exit_to child_of_two 2 7) 7 3 refl (ground arith) (omega arith)
