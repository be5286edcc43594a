-- ===== src/Dev/History.antt =====
-- The command history of a console: kernel/base/history_cmd.c, and `pre_cmd`, `peek_pre_cmd` and
-- `next_cmd` of kernel/dev/console.c. A command is its bytes before the final 0, fewer than 128. An
-- index that may be -1 is its 32-bit pattern.
pub mod Ring
pub mod Order
pub mod Moves
use wjos.Common.{
  ℕ, ◌+◌, ◌-◌, Bool, true, false, ◌&&◌, Option, none, some, List, [], ◌∷◌, ◌++◌, ltb, ◌==◌,
  if◌then◌else◌, length, get_or, set, take, drop, replicate, map,
}
use wjos.Common.Words.{add32, sub32}
use wjos.Tools.Strings.{strncpy}

-- A `history_command_t`.
pub record Command : Type 0 where
  pub time : ℕ
  pub cmd : List ℕ

pub record History : Type 0 where
  pub his_idx : ℕ
  pub curr_his_idx : ℕ
  pub his_cmds : List Command

abbrev pub max_save_cmds : ℕ
max_save_cmds = 100

abbrev pub no_index : ℕ
no_index = 0xffff_ffff

unfoldable pub history_command_init : Command
history_command_init = record { time = 0; cmd = [] }

-- What `console_init` does for the history.
unfoldable pub history_init : History
history_init = record {
  his_idx = max_save_cmds - 1;
  curr_his_idx = max_save_cmds - 1;
  his_cmds = replicate max_save_cmds history_command_init;
}

-- An entry of the array, for an index in range.
abbrev pub command_at : History → ℕ → Command
command_at h i = get_or h.his_cmds i (record { time = 0; cmd = [] })

-- Whether the first byte is 0.
abbrev pub is_blank : Command → Bool
is_blank c = elim c.cmd [ [] ↦ true | _ ∷ _ ↦ false ]

unfoldable pub peek_pre_idx : History → ℕ
peek_pre_idx h = if ltb 0 h.his_idx then h.his_idx - 1 else max_save_cmds - 1

unfoldable pub peek_pre_cmd : History → Command
unfolding peek_pre_idx
peek_pre_cmd h = command_at h (peek_pre_idx h)

-- Whether `kernel_all_strcmp` answers 0.
unfoldable pub all_equal : List ℕ → List ℕ → Bool
all_equal [] [] = true
all_equal [] (d ∷ s2) = false
all_equal (c ∷ s1) [] = false
all_equal (c ∷ s1) (d ∷ s2) = let rest = all_equal s1 s2 in if c == d then rest else false

-- The index of the next entry to write.
abbrev pub next_idx : ℕ → ℕ
next_idx i = if i + 1 == max_save_cmds then 0 else i + 1

-- `now` is what `sys_time` gives.
unfoldable pub add : History → List ℕ → ℕ → History
unfolding peek_pre_cmd peek_pre_idx all_equal
add h cmd now =
    if all_equal (peek_pre_cmd h).cmd cmd
    then record h {
      his_cmds =
          set h.his_cmds (peek_pre_idx h) (record { time = now; cmd = (peek_pre_cmd h).cmd });
    }
    else record {
      his_idx = next_idx h.his_idx;
      curr_his_idx = no_index;
      his_cmds = set h.his_cmds (next_idx h.his_idx) (record { time = now; cmd = cmd });
    }

unfoldable pub history_count : History → ℕ
history_count h =
    if is_blank (command_at h 99)
    then if h.his_idx == 99 then 0 else h.his_idx + 1
    else max_save_cmds

-- Where the oldest command stands.
unfoldable pub history_head : History → ℕ
history_head h =
    if is_blank (command_at h 99)
    then 0
    else if h.his_idx + 1 == max_save_cmds
    then 0
    else h.his_idx + 1

-- The commands that `sys_get_history` copies, in its order.
unfoldable pub get_history : History → List Command
unfolding history_count history_head
get_history h =
    if history_head h == 0
    then take (history_count h) h.his_cmds
    else drop (history_head h) h.his_cmds ++ take (history_head h) h.his_cmds

-- The loop of `sys_get_history` from the destination `s` on: the bytes that each copy leaves, and none
-- at destination 0, which `kernel_memset` has set to null, so that `kernel_strncpy` returns at once.
unfoldable pub copy_cmds : ℕ → List Command → List (Option (List ℕ))
unfolding strncpy
copy_cmds s [] = []
copy_cmds s (c ∷ cmds) =
    (if s == 0 then none else some (strncpy c.cmd (length c.cmd))) ∷ copy_cmds (s + 1) cmds

unfoldable pub sys_get_history : History → List (Option (List ℕ))
unfolding get_history copy_cmds
sys_get_history h = copy_cmds 0 (get_history h)

-- The command before the one that is shown, and the index that stays. `local` is what the variable
-- holds that the function has not set where `curr_his_idx` is -1; with none, it reads outside the
-- array.
unfoldable pub pre_cmd : History → ℕ → Option (Command × History)
pre_cmd h local =
    let curr = if h.curr_his_idx == no_index then h.his_idx else sub32 h.curr_his_idx 1 in
    let idx = if curr == no_index then 99 else if h.curr_his_idx == no_index then local else curr in
    let curr' = if curr == no_index then 99 else curr in
    let back = if curr' + 1 == max_save_cmds then 0 else curr' + 1 in
    let pre = command_at h idx in
    if ltb idx max_save_cmds
    then some (pre, record h { curr_his_idx = if is_blank pre then back else curr' })
    else none

-- The command behind the one that is shown, and the index that stays.
unfoldable pub next_cmd : History → Command × History
next_cmd h =
    let up = add32 h.curr_his_idx 1 in
    let curr = if up == max_save_cmds then 0 else up in
    let next = command_at h curr in
    let back = if sub32 curr 1 == 0 then 99 else sub32 curr 1 in
    (next, record h { curr_his_idx = if is_blank next then back else curr })
