-- ===== src/Sched/Exit/Orphans.antt =====
-- Exiting in kernel/core/task.c: the children of the task go to the first task.
use wjos.Common.{
  ℕ, zero, suc, ◌+◌, ◌≤◌, ◌<◌, ◌≡◌, refl, ◌≢◌, inl, inr, Bool, false, not, ◌&&◌, Option, none, some,
  arith, ◌==◌, if◌then◌else◌, Bool-cases, ap, ◌∙◌, subst,
}
use wjos.Sched.{
  Task, TaskState, Manager, task_nr, first_task, update, task_set_ready, task_set_block,
  task_dispatch,
}
use wjos.Sched.Exit.{
  is_parent, adopt, adopt_from, move_child, wake_waiting, wake_parents, leave, exit_to, sys_exit,
}

-- The records' parents, which only the adoption changes.
abbrev parent_of : Manager → ℕ → Option ℕ
parent_of m t = (m.tasks t).parent

wake_waiting-parent : (m : Manager) (t u : ℕ) → parent_of (wake_waiting m t) u ≡ parent_of m u
unfolding wake_waiting task_set_ready update
wake_waiting-parent m t u = ground arith

wake_parents-parent :
    (m : Manager) (p : ℕ) (moved : Bool) (u : ℕ)
    → parent_of (wake_parents m p moved) u ≡ parent_of m u
unfolding wake_parents
wake_parents-parent m p moved u = elim (Bool-cases (moved && not (p == first_task))) [
  | inl e ↦
      rw (e, if◌then◌else◌)
        (wake_waiting-parent (wake_waiting m first_task) p u ∙ wake_waiting-parent m first_task u)
  | inr e ↦ rw (e, if◌then◌else◌) (wake_waiting-parent m p u)
]

dispatch-parent : (m : Manager) (u : ℕ) → parent_of (task_dispatch m) u ≡ parent_of m u
unfolding task_dispatch update
dispatch-parent m u = ground arith

set_block-parent : (m : Manager) (t u : ℕ) → parent_of (task_set_block m t) u ≡ parent_of m u
unfolding task_set_block
set_block-parent m t u = ground arith

leave-parent : (m : Manager) (status u : ℕ) → parent_of (leave m status) u ≡ parent_of m u
unfolding leave update
leave-parent m status u =
    let m' =
      update m m.curr_task (λ task. record task { state = TaskState.zombie; status = status }) in
    dispatch-parent (task_set_block m' m.curr_task) u
    ∙ set_block-parent m' m.curr_task u
    ∙ ground arith

adopt_from-low : (n i : ℕ) (m : Manager) (t : ℕ) → t < i → (adopt_from n i m).tasks t ≡ m.tasks t
unfolding adopt_from update
adopt_from-low zero i m t lt = refl
adopt_from-low (suc n) i m t lt =
    adopt_from-low n (i + 1) (update m i (adopt m.curr_task)) t (omega arith) ∙ ground arith

adopt_from-adopts :
    (n i : ℕ) (m : Manager) (t : ℕ)
    → i ≤ t
    → t < i + n
    → (adopt_from n i m).tasks t ≡ adopt m.curr_task (m.tasks t)
unfolding adopt_from update
adopt_from-adopts zero i m t lo hi = absurd (omega arith)
adopt_from-adopts (suc n) i m t lo hi = elim (Bool-cases (t == i)) [
  | inl e ↦
      adopt_from-low n (i + 1) (update m i (adopt m.curr_task)) t (ground arith) ∙ ground arith
  | inr e ↦
      adopt_from-adopts n (i + 1) (update m i (adopt m.curr_task)) t (ground arith) (omega arith)
      ∙ ground arith
]

adopt-not_parent : (t : ℕ) (task : Task) → t ≢ first_task → is_parent t (adopt t task) ≡ false
adopt-not_parent t task ne = elim (Bool-cases (is_parent t task)) [
  | inl e ↦ rw (e, if◌then◌else◌) (ground (arith, ne))
  | inr e ↦ rw (e, if◌then◌else◌) e
]

exit_to-orphans :
    (m : Manager) (parent status t : ℕ)
    → m.curr_task ≢ first_task
    → t < 128
    → is_parent m.curr_task ((exit_to m parent status).tasks t) ≡ false
unfolding exit_to
exit_to-orphans m parent status t ne lt =
    let m' = adopt_from task_nr 0 m in
    let moved = move_child task_nr 0 m in
    let same : parent_of (leave (wake_parents m' parent moved) status) t
        ≡ (adopt m.curr_task (m.tasks t)).parent =
      leave-parent (wake_parents m' parent moved) status t
      ∙ wake_parents-parent m' parent moved t
      ∙ ap (λ task. task.parent)
          (adopt_from-adopts task_nr 0 m t (omega arith) (omega (arith, lt))) in
    ap (λ (o : Option ℕ). elim o [ none ↦ false | some p ↦ p == m.curr_task ]) same
    ∙ adopt-not_parent m.curr_task (m.tasks t) ne

-- After sys_exit of a task other than the first, which has a parent, no entry of the table has the
-- task for a parent: its children have gone to the first task.
pub sys_exit-orphans :
    (m m' : Manager) (status t : ℕ)
    → sys_exit m status ≡ some m'
    → m.curr_task ≢ first_task
    → t < 128
    → is_parent m.curr_task (m'.tasks t) ≡ false
unfolding sys_exit
sys_exit-orphans m m' status t e ne lt = go (m.tasks m.curr_task).parent e
  where
    go :
        (o : Option ℕ)
        → let r : Option Manager = elim o [
          | none ↦ none
          | some parent ↦ some (exit_to m parent status)
        ] in
          r ≡ some m' → is_parent m.curr_task (m'.tasks t) ≡ false
    go none h = absurd (ground arith)
    go (some parent) h =
        subst
          (λ (o : Option Manager). elim o [
            | none ↦ Unit
            | some x ↦ is_parent m.curr_task (x.tasks t) ≡ false
          ])
          h (exit_to-orphans m parent status t ne lt)
