-- ===== src/Process/Exec/Args.antt =====
-- `copy_args` of kernel/core/task.c: the arguments of a new program, their table and their count.
use wjos.Common.{
  ℕ, ◌+◌, ◌*◌, ◌/◌, ◌%◌, Bool, true, false, Option, none, some, List, [], ◌∷◌, ◌++◌, ◌==◌,
  if◌then◌else◌, length,
}
use wjos.Common.Words.{add32}
use wjos.Memory.Table.{Memory, store, get_paddr}
use wjos.Memory.Copy.{Copy, copied, unmapped, memory_copy_uvm_data}

-- `strings_count`.
pub args_count : List (List ℕ) → ℕ
args_count argv = length argv

abbrev word_bytes : ℕ → List ℕ
word_bytes w = w % 256 ∷ w / 256 % 256 ∷ w / 0x1_0000 % 256 ∷ w / 0x100_0000 % 256 ∷ []

-- A write of the table of the arguments, in memory.
abbrev put_arg : Memory → ℕ → ℕ → ℕ → Memory
put_arg m table i v = record m { word = store m.word (table + 4 * i) v }

-- A copy that must not fail.
abbrev must_copy : Option (Copy × Memory) → Option Memory
must_copy none = none
must_copy (some (copied, m)) = some m
must_copy (some (unmapped, m)) = none

abbrev if_some : Option Memory → (Memory → Option Memory) → Option Memory
if_some none rest = none
if_some (some m) rest = rest m

-- The loop over the arguments, from `i` on.
unfoldable pub copy_strings : ℕ → ℕ → ℕ → ℕ → List (List ℕ) → Memory → Option Memory
unfolding memory_copy_uvm_data
copy_strings page_dir table i dest_arg [] m = some m
copy_strings page_dir table i dest_arg (from ∷ argv) m =
    let len = length from + 1 in
    if_some (must_copy (memory_copy_uvm_data dest_arg page_dir (from ++ (0 ∷ [])) m)) λ m'.
      copy_strings page_dir table (i + 1) (add32 dest_arg len) argv (put_arg m' table i dest_arg)

abbrev copy_answer : Option (Copy × Memory) → Option (Bool × Memory)
copy_answer none = none
copy_answer (some (copied, m)) = some (true, m)
copy_answer (some (unmapped, m)) = some (false, m)

-- The null pointer behind the table, and the `task_args_t`, whose return address is not set.
unfoldable pub copy_head : ℕ → ℕ → ℕ → ℕ → ℕ → Option Memory → Option (Bool × Memory)
unfolding memory_copy_uvm_data
copy_head ret to page_dir table argc none = none
copy_head ret to page_dir table argc (some m) = copy_answer (
    memory_copy_uvm_data to page_dir (word_bytes ret ++ word_bytes argc ++ word_bytes (add32 to 12))
      (if argc == 0 then m else put_arg m table argc 0))

unfoldable pub copy_args : ℕ → ℕ → ℕ → ℕ → List (List ℕ) → Memory → Option (Bool × Memory)
unfolding copy_strings copy_head get_paddr
copy_args ret to page_dir argc argv m =
    let table = get_paddr m page_dir (add32 to 12) in
    copy_head ret to page_dir table argc
      (copy_strings page_dir table 0 (add32 to (12 + 4 * (argc + 1))) argv m)
