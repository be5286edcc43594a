-- ===== src/Sched/Lists.antt =====
-- How often a task stands in a list, under the list operations of kernel/core/task.c.
use wjos.Common.{ℕ, suc, ◌+◌, ◌-◌, ◌≡◌, refl, ◌≢◌, List, [], ◌∷◌, ◌++◌, arith, ◌==◌, if◌then◌else◌}
use wjos.Sched.{list_remove}

abbrev pub count : ℕ → List ℕ → ℕ
count t [] = 0
count t (x ∷ xs) = if x == t then suc (count t xs) else count t xs

pub count-append : (t : ℕ) (xs ys : List ℕ) → count t (xs ++ ys) ≡ count t xs + count t ys
count-append t [] ys = omega arith
count-append t (x ∷ xs) ys = ground (arith, count-append t xs ys)

pub count-list_remove_self : (t : ℕ) (xs : List ℕ) → count t (list_remove xs t) ≡ count t xs - 1
unfolding list_remove
count-list_remove_self t [] = refl
count-list_remove_self t (x ∷ xs) = ground (arith, count-list_remove_self t xs)

pub count-list_remove_ne : (t u : ℕ) (xs : List ℕ) → u ≢ t → count u (list_remove xs t) ≡ count u xs
unfolding list_remove
count-list_remove_ne t u [] ne = refl
count-list_remove_ne t u (x ∷ xs) ne = ground (arith, count-list_remove_ne t u xs ne)
