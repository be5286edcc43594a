-- ===== src/Ipc/Relock.antt =====
-- A lock of kernel/ipc/mutex.c that is taken without waiting, and its unlock.
use wjos.Common.{
  ◌+◌, ◌-◌, ◌≡◌, refl, ◌⊎◌, inl, inr, true, false, none, some, [], arith, ◌==◌, if◌then◌else◌,
  ==_iff, ap, ◌∙◌, subst,
}
use wjos.Sched.{Manager}
use wjos.Ipc.Mutex.{Mutex, mutex_init, is_owner, mutex_lock, hand_over, mutex_unlock, IsValid}

free-mutex_init :
    (mutex : Mutex)
    → mutex.owner ≡ none
    → mutex.locked_count ≡ 0
    → mutex.wait_list ≡ []
    → mutex_init ≡ mutex
unfolding mutex_init
free-mutex_init mutex own zero_count nobody = ground (arith, own, zero_count, nobody)

unlock-lock_init :
    (m : Manager)
    → mutex_unlock (mutex_lock mutex_init m).0 (mutex_lock mutex_init m).1 ≡ (mutex_init, m)
unfolding mutex_unlock mutex_lock hand_over mutex_init
unlock-lock_init m =
    let o : (m.curr_task == m.curr_task) ≡ true = (==_iff m.curr_task m.curr_task).1 refl in
    rw (o, if◌then◌else◌) refl

lock_owned :
    (mutex : Mutex) (m : Manager)
    → (mutex.locked_count == 0) ≡ false
    → is_owner mutex m.curr_task ≡ true
    → mutex_lock mutex m ≡ (record mutex { locked_count = mutex.locked_count + 1 }, m)
unfolding mutex_lock
lock_owned mutex m locked own = rw (locked, own, if◌then◌else◌) refl

unlock_owned :
    (mutex : Mutex) (m : Manager)
    → is_owner mutex m.curr_task ≡ true
    → (mutex.locked_count - 1 == 0) ≡ false
    → mutex_unlock mutex m ≡ (record mutex { locked_count = mutex.locked_count - 1 }, m)
unfolding mutex_unlock
unlock_owned mutex m own again = rw (own, again, if◌then◌else◌) refl

unlock-lock_owned :
    (mutex : Mutex) (m : Manager)
    → (mutex.locked_count == 0) ≡ false
    → is_owner mutex m.curr_task ≡ true
    → mutex_unlock (mutex_lock mutex m).0 (mutex_lock mutex m).1 ≡ (mutex, m)
unlock-lock_owned mutex m locked own =
    ap (λ (p : Mutex × Manager). mutex_unlock p.0 p.1) (lock_owned mutex m locked own)
    ∙ unlock_owned (record mutex { locked_count = mutex.locked_count + 1 }) m own
        (ground (arith, locked))
    ∙ ap (λ k. (record mutex { locked_count = k }, m)) (omega arith)

-- A lock that is taken without waiting, and its unlock, leave mutex and scheduler as they were.
pub mutex_unlock-mutex_lock :
    (mutex : Mutex) (m : Manager)
    → IsValid mutex
    → (mutex.owner ≡ none) ⊎ (mutex.owner ≡ some m.curr_task)
    → mutex_unlock (mutex_lock mutex m).0 (mutex_lock mutex m).1 ≡ (mutex, m)
mutex_unlock-mutex_lock mutex m v (inl own) =
    subst (λ x. mutex_unlock (mutex_lock x m).0 (mutex_lock x m).1 ≡ (x, m))
      (free-mutex_init mutex own (v.free own).0 (v.free own).1) (unlock-lock_init m)
mutex_unlock-mutex_lock mutex m v (inr own) =
    unlock-lock_owned mutex m (ground (arith, v.held, own)) (ground (arith, own))
