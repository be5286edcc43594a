-- ===== src/Ipc/Mutex.antt =====
-- kernel/ipc/mutex.c: a recursive mutex with a list of waiters.
use wjos.Common.{
  ℕ, suc, ◌+◌, ◌-◌, ◌≤◌, ◌≡◌, refl, ◌≢◌, ◌⊎◌, inl, inr, Bool, true, false, Option, none, some, List,
  [], ◌∷◌, ◌++◌, arith, ◌==◌, if◌then◌else◌, Bool-cases,
}
use wjos.Sched.{Manager, idle_task, task_set_ready, task_set_block, task_dispatch, update}
use wjos.Sched.Lists.{count, count-append}

pub record Mutex : Type 0 where
  pub locked_count : ℕ
  pub owner : Option ℕ
  pub wait_list : List ℕ

unfoldable pub mutex_init : Mutex
mutex_init = record { locked_count = 0; owner = none; wait_list = [] }

abbrev pub is_owner : Mutex → ℕ → Bool
is_owner mutex t = elim mutex.owner [ none ↦ false | some o ↦ o == t ]

unfoldable pub mutex_lock : Mutex → Manager → Mutex × Manager
mutex_lock mutex m =
    let curr = m.curr_task in
    if mutex.locked_count == 0
    then (record mutex { locked_count = mutex.locked_count + 1; owner = some curr }, m)
    else if is_owner mutex curr
    then (record mutex { locked_count = mutex.locked_count + 1 }, m)
    else (
      record mutex { wait_list = mutex.wait_list ++ (curr ∷ []) },
      task_dispatch (task_set_block m curr),
    )

-- The lock is free: it goes to the first waiter, when there is one.
unfoldable pub hand_over : List ℕ → Manager → Mutex × Manager
hand_over [] m = (record { locked_count = 0; owner = none; wait_list = [] }, m)
hand_over (t ∷ ts) m = (
  record { locked_count = 1; owner = some t; wait_list = ts },
  task_dispatch (task_set_ready m t),
)

unfoldable pub mutex_unlock : Mutex → Manager → Mutex × Manager
unfolding hand_over
mutex_unlock mutex m =
    if is_owner mutex m.curr_task
    then (if mutex.locked_count - 1 == 0
        then hand_over mutex.wait_list m
        else (record mutex { locked_count = mutex.locked_count - 1 }, m))
    else (mutex, m)

-- A mutex has an owner exactly while it is locked, its waiters wait for a lock that is held, and
-- no task waits twice, nor for a lock of its own.
pub record IsValid (mutex : Mutex) : Type 0 where
  pub held : (mutex.owner ≡ none) ⊎ (1 ≤ mutex.locked_count)
  pub free : mutex.owner ≡ none → (mutex.locked_count ≡ 0) × (mutex.wait_list ≡ [])
  pub once : (t : ℕ) → count t mutex.wait_list ≤ 1
  pub not_owner : (t : ℕ) → is_owner mutex t ≡ true → count t mutex.wait_list ≡ 0

pub mutex_init-IsValid : IsValid mutex_init
unfolding mutex_init
mutex_init-IsValid = record {
  held = inl refl;
  free = λ e. (refl, refl);
  once = λ t. omega arith;
  not_owner = λ t e. refl;
}

-- Locking keeps a mutex valid: the lock is taken, taken once more by its owner, or the task joins
-- the waiters, where it was not waiting already.
pub mutex_lock-IsValid :
    (mutex : Mutex) (m : Manager)
    → IsValid mutex
    → count m.curr_task mutex.wait_list ≡ 0
    → IsValid (mutex_lock mutex m).0
unfolding mutex_lock
mutex_lock-IsValid mutex m v out =
    let joined : (t : ℕ) → count t (mutex.wait_list ++ (m.curr_task ∷ [])) ≤ 1 =
      λ t. ground (arith, count-append t mutex.wait_list (m.curr_task ∷ []), v.once t, out) in
    elim (Bool-cases (mutex.locked_count == 0)) [
      | inl e ↦
          rw (e, if◌then◌else◌)
            (record {
              held = inr (omega arith);
              free = λ n. ground arith;
              once = v.once;
              not_owner = λ t h. ground (arith, out);
            })
      | inr e ↦ elim (Bool-cases (is_owner mutex m.curr_task)) [
        | inl o ↦
            rw (e, if◌then◌else◌)
              (rw (o, if◌then◌else◌)
                (record {
                  held = inr (omega arith);
                  free = λ n. absurd (ground (arith, v.free n));
                  once = v.once;
                  not_owner = v.not_owner;
                }))
        | inr o ↦
            rw (e, if◌then◌else◌)
              (rw (o, if◌then◌else◌)
                (record {
                  held = v.held;
                  free = λ n. absurd (ground (arith, v.free n));
                  once = λ t. joined t;
                  not_owner = λ t h. elim (Bool-cases (t == m.curr_task)) [
                    | inl s ↦ absurd (ground (arith, s, h, o))
                    | inr s ↦ ground (
                      arith,
                      count-append t mutex.wait_list (m.curr_task ∷ []),
                      v.not_owner t h,
                      s,
                    )
                  ];
                }))
      ]
    ]

hand_over-IsValid :
    (ts : List ℕ) (m : Manager) → ((t : ℕ) → count t ts ≤ 1) → IsValid (hand_over ts m).0
unfolding hand_over
hand_over-IsValid [] m once = record {
  held = inl refl;
  free = λ e. (refl, refl);
  once = λ t. omega arith;
  not_owner = λ t e. refl;
}
hand_over-IsValid (x ∷ ts) m once = record {
  held = inr (omega arith);
  free = λ e. absurd (ground arith);
  once = λ t. ground (arith, once t);
  not_owner = λ t h. ground (arith, once t);
}

-- Unlocking keeps a mutex valid: it is unlocked once, it is free, or its first waiter has it.
pub mutex_unlock-IsValid :
    (mutex : Mutex) (m : Manager) → IsValid mutex → IsValid (mutex_unlock mutex m).0
unfolding mutex_unlock
mutex_unlock-IsValid mutex m v = elim (Bool-cases (is_owner mutex m.curr_task)) [
  | inr o ↦ rw (o, if◌then◌else◌) v
  | inl o ↦ elim (Bool-cases (mutex.locked_count - 1 == 0)) [
    | inl e ↦
        rw (o, if◌then◌else◌) (rw (e, if◌then◌else◌) (hand_over-IsValid mutex.wait_list m v.once))
    | inr e ↦
        rw (o, if◌then◌else◌)
          (rw (e, if◌then◌else◌)
            (record {
              held = inr (ground (arith, e));
              free = λ n. absurd (ground (arith, v.free n));
              once = v.once;
              not_owner = v.not_owner;
            }))
  ]
]

set_ready-count :
    (m : Manager) (t : ℕ)
    → t ≢ idle_task
    → count t (task_dispatch (task_set_ready m t)).ready_list ≡ suc (count t m.ready_list)
unfolding task_dispatch task_set_ready update
set_ready-count m t ne = ground (arith, count-append t m.ready_list (t ∷ []), ne)

-- Mutual exclusion: while one task holds a mutex, another that locks it does not get it. It joins
-- the end of the waiters, and owner and count stay.
pub mutex_lock-waits :
    (mutex : Mutex) (m : Manager) (t : ℕ)
    → IsValid mutex
    → mutex.owner ≡ some t
    → t ≢ m.curr_task
    → (mutex_lock mutex m).0 ≡ record mutex { wait_list = mutex.wait_list ++ (m.curr_task ∷ []) }
unfolding mutex_lock
mutex_lock-waits mutex m t v own ne =
    let locked : mutex.locked_count == 0 ≡ false = ground (arith, v.held, own) in
    let other : is_owner mutex m.curr_task ≡ false = ground (arith, own, ne) in
    rw (locked, if◌then◌else◌) (rw (other, if◌then◌else◌) refl)

-- The last unlock by the owner gives the mutex to the task that has waited longest, which becomes
-- ready; the others go on waiting in their order.
pub mutex_unlock-hands_over :
    (mutex : Mutex) (m : Manager) (t : ℕ) (ts : List ℕ)
    → mutex.owner ≡ some m.curr_task
    → mutex.locked_count ≡ 1
    → mutex.wait_list ≡ t ∷ ts
    → t ≢ idle_task
    → ((mutex_unlock mutex m).0 ≡ record { locked_count = 1; owner = some t; wait_list = ts })
      × (count t (mutex_unlock mutex m).1.ready_list ≡ suc (count t m.ready_list))
unfolding mutex_unlock hand_over
mutex_unlock-hands_over mutex m t ts own one waits ne =
    let o : is_owner mutex m.curr_task ≡ true = ground (arith, own) in
    let e : mutex.locked_count - 1 == 0 ≡ true = ground (arith, one) in
    rw (o, if◌then◌else◌) (rw (e, if◌then◌else◌) (rw waits (refl, set_ready-count m t ne)))
