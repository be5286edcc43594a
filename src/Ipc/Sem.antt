-- ===== src/Ipc/Sem.antt =====
-- kernel/ipc/sem.c: a counting semaphore, and its runs of waits and notifications.
use wjos.Common.{
  ℕ, suc, ◌+◌, ◌-◌, ◌≡◌, refl, ◌⊎◌, inl, inr, List, [], ◌∷◌, ◌++◌, arith, ltb, if◌then◌else◌,
  Bool-cases, length, length-append, ap,
}
use wjos.Sched.{Manager, task_set_ready, task_set_block, task_dispatch}

pub record Sem : Type 0 where
  pub sem_count : ℕ
  pub wait_list : List ℕ

-- The counts given are not negative.
unfoldable pub sem_init : ℕ → Sem
sem_init init_count = record { sem_count = init_count; wait_list = [] }

unfoldable pub sem_wait : Sem → Manager → Sem × Manager
sem_wait sem m =
    if ltb 0 sem.sem_count then (record sem { sem_count = sem.sem_count - 1 }, m) else (
      record sem { wait_list = sem.wait_list ++ (m.curr_task ∷ []) },
      task_dispatch (task_set_block m m.curr_task),
    )

unfoldable pub wake_first : Sem → List ℕ → Manager → Sem × Manager
wake_first sem [] m = (record sem { sem_count = sem.sem_count + 1 }, m)
wake_first sem (t ∷ ts) m = (record sem { wait_list = ts }, task_dispatch (task_set_ready m t))

unfoldable pub sem_notify : Sem → Manager → Sem × Manager
unfolding wake_first
sem_notify sem m = wake_first sem sem.wait_list m

-- A run of a semaphore: its waits so far and its notifications so far. Between two calls the
-- scheduler's state changes in any way.
pub data Run (init_count : ℕ) : ℕ → ℕ → Sem → Type 0 where
  start : Run init_count 0 0 (sem_init init_count)
  wait :
      (waits notes : ℕ) (sem : Sem) (m : Manager)
      → Run init_count waits notes sem
      → Run init_count (suc waits) notes (sem_wait sem m).0
  notify :
      (waits notes : ℕ) (sem : Sem) (m : Manager)
      → Run init_count waits notes sem
      → Run init_count waits (suc notes) (sem_notify sem m).0

-- Units in hand and waiting tasks exclude each other, and the balance of units holds.
pub record Balance (init_count waits notes : ℕ) (sem : Sem) : Type 0 where
  pub idle : (sem.sem_count ≡ 0) ⊎ (sem.wait_list ≡ [])
  pub units : sem.sem_count + waits ≡ init_count + notes + length sem.wait_list

wait-Balance :
    (i w n : ℕ) (sem : Sem) (m : Manager)
    → Balance i w n sem
    → Balance i (suc w) n (sem_wait sem m).0
unfolding sem_wait
wait-Balance i w n sem m b = elim (Bool-cases (ltb 0 sem.sem_count)) [
  | inl e ↦
      rw (e, if◌then◌else◌)
        (record {
          idle = elim b.idle [ inl z ↦ inl (omega (arith, z)) | inr l ↦ inr l ];
          units = ground (arith, e, b.units);
        })
  | inr e ↦
      rw (e, if◌then◌else◌)
        (record {
          idle = inl (ground (arith, e));
          units = omega (arith, b.units, length-append sem.wait_list (m.curr_task ∷ []));
        })
]

wake_first-Balance :
    (i w n : ℕ) (sem : Sem) (l : List ℕ) (m : Manager)
    → sem.wait_list ≡ l
    → Balance i w n sem
    → Balance i w (suc n) (wake_first sem l m).0
unfolding wake_first
wake_first-Balance i w n sem [] m e b = record { idle = inr e; units = omega (arith, b.units) }
wake_first-Balance i w n sem (t ∷ ts) m e b = record {
  idle = inl (elim b.idle [ inl z ↦ z | inr l ↦ absurd (ground (arith, e, l)) ]);
  units = omega (arith, b.units, ap length e);
}

-- After any run of waits and notifications, in any order, of a semaphore that started with
-- init_count units: waits that have been passed and units left add up to the units given, and no
-- task waits while a unit is left.
pub Run-Balance : (i w n : ℕ) (sem : Sem) → Run i w n sem → Balance i w n sem
unfolding sem_init sem_notify
Run-Balance i _ _ _ start = record { idle = inr refl; units = omega arith }
Run-Balance i _ _ _ (wait w n sem m r) = wait-Balance i w n sem m (Run-Balance i w n sem r)
Run-Balance i _ _ _ (notify w n sem m r) =
    wake_first-Balance i w n sem sem.wait_list m refl (Run-Balance i w n sem r)
