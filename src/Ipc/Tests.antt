-- ===== src/Ipc/Tests.antt =====
-- The mutex's and the semaphore's theorems at a few tasks.
use wjos.Common.{◌≡◌, refl, inr, some, [], ◌∷◌, arith}
use wjos.Sched.{Manager}
use wjos.Sched.Exit.{zero_task}
use wjos.Ipc.Mutex.{Mutex, IsValid, mutex_lock, mutex_unlock}
use wjos.Ipc.Relock.{mutex_unlock-mutex_lock}
use wjos.Ipc.Sem.{Sem, sem_init, sem_wait, sem_notify, start, wait, notify, Balance, Run-Balance}

-- Task 1 runs and 2 is ready.
abbrev two_tasks : Manager
two_tasks = record {
  curr_task = 1;
  ready_list = 1 ∷ 2 ∷ [];
  sleep_list = [];
  tasks = λ t. zero_task;
}

-- A mutex that task 1, which runs, has locked, and on which task 3 waits.
abbrev mine : Mutex
mine = record { locked_count = 1; owner = some 1; wait_list = 3 ∷ [] }

mine-IsValid : IsValid mine
mine-IsValid = record {
  held = inr (omega arith);
  free = λ e. absurd (ground arith);
  once = λ t. ground arith;
  not_owner = λ t e. ground (arith, e);
}

mutex_unlock-mutex_lock_example :
    mutex_unlock (mutex_lock mine two_tasks).0 (mutex_lock mine two_tasks).1 ≡ (mine, two_tasks)
mutex_unlock-mutex_lock_example = mutex_unlock-mutex_lock mine two_tasks mine-IsValid (inr refl)

-- One unit, then a wait, another one, which waits, and a notification.
abbrev passed : Sem
passed = (sem_wait (sem_init 1) two_tasks).0

Run-Balance_example : Balance 1 2 1 (sem_notify (sem_wait passed two_tasks).0 two_tasks).0
Run-Balance_example = Run-Balance 1 2 1 (sem_notify (sem_wait passed two_tasks).0 two_tasks).0 (
    notify 2 0 (sem_wait passed two_tasks).0 two_tasks
      (wait 1 0 passed two_tasks (wait 0 0 (sem_init 1) two_tasks start)))
