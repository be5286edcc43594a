-- ===== src/Dev/History/Moves.antt =====
-- The indices of a console's history in kernel/dev/console.c, through recording and browsing.
use wjos.Common.{
  ℕ, ◌≤◌, ◌<◌, ◌≡◌, refl, ◌⊎◌, inl, inr, Option, none, some, Bool, true, false, not, ◌&&◌, ◌==◌,
  ltb, List, arith, if◌then◌else◌, Bool-cases, length, length-set, length-replicate, ◌∙◌,
}
use wjos.Dev.History.{
  Command, History, no_index, history_command_init, history_init, peek_pre_cmd, peek_pre_idx,
  all_equal, next_idx, add, pre_cmd, next_cmd,
}

-- The last entry, and the one that is shown or none.
pub record IsValid (h : History) : Type 0 where
  pub sized : length h.his_cmds ≡ 100
  pub index : h.his_idx < 100
  pub shown : (h.curr_his_idx < 100) ⊎ (h.curr_his_idx ≡ no_index)

-- A history after any sequence of commands and moves. `local` is what `pre_cmd` finds in the variable
-- that it has not set.
pub data Reach : History → Type 0 where
  start : Reach history_init
  recorded : (h : History) (cmd : List ℕ) (now : ℕ) → Reach h → Reach (add h cmd now)
  up :
      (h h' : History) (local : ℕ) (pre : Command)
      → Reach h
      → pre_cmd h local ≡ some (pre, h')
      → Reach h'
  down : (h : History) → Reach h → Reach (next_cmd h).1

add-IsValid : (h : History) (cmd : List ℕ) (now : ℕ) → IsValid h → IsValid (add h cmd now)
unfolding add
add-IsValid h cmd now v = elim (Bool-cases (all_equal (peek_pre_cmd h).cmd cmd)) [
  | inl e ↦
      rw (e, if◌then◌else◌)
        (record {
          sized =
              length-set h.his_cmds (peek_pre_idx h)
                (record { time = now; cmd = (peek_pre_cmd h).cmd })
              ∙ v.sized;
          index = v.index;
          shown = v.shown;
        })
  | inr e ↦
      rw (e, if◌then◌else◌)
        (record {
          sized =
              length-set h.his_cmds (next_idx h.his_idx) (record { time = now; cmd = cmd })
              ∙ v.sized;
          index = ground (arith, v.index);
          shown = inr refl;
        })
]

next_cmd-IsValid : (h : History) → IsValid h → IsValid (next_cmd h).1
unfolding next_cmd
next_cmd-IsValid h v = record { sized = v.sized; index = v.index; shown = ground (arith, v.shown) }

pre_cmd-IsValid :
    (h h' : History) (local : ℕ) (pre : Command)
    → IsValid h
    → pre_cmd h local ≡ some (pre, h')
    → IsValid h'
unfolding pre_cmd
pre_cmd-IsValid h h' local pre v e = ground (arith, v.sized, v.index, v.shown, e)

history_init-IsValid : IsValid history_init
unfolding history_init
history_init-IsValid = record {
  sized = length-replicate 100 history_command_init;
  index = omega arith;
  shown = inl (omega arith);
}

pub Reach-IsValid : (h : History) → Reach h → IsValid h
Reach-IsValid h start = history_init-IsValid
Reach-IsValid h (recorded g cmd now r) = add-IsValid g cmd now (Reach-IsValid g r)
Reach-IsValid h (up g h' local pre r e) = pre_cmd-IsValid g h local pre (Reach-IsValid g r) e
Reach-IsValid h (down g r) = next_cmd-IsValid g (Reach-IsValid g r)

-- Whether the move up reads inside the ring.
abbrev pub is_inside : Option (Command × History) → Bool
is_inside none = false
is_inside (some r) = true

-- In every history that commands and moves lead to, the last entry is in the ring, and the entry that
-- is shown is in it or there is none. A move up reads inside the ring but where no entry is shown and
-- the variable that it has not set holds 100 or more.
pub pre_cmd-inside :
    (h : History) (local : ℕ)
    → Reach h
    → (h.his_idx < 100)
      × ((h.curr_his_idx < 100) ⊎ (h.curr_his_idx ≡ no_index))
      × (is_inside (pre_cmd h local) ≡ not ((h.curr_his_idx == no_index) && not (ltb local 100)))
unfolding pre_cmd
pre_cmd-inside h local r =
    let v = Reach-IsValid h r in (v.index, v.shown, ground (arith, v.index, v.shown))

-- A move down in the history of a new console leads to no entry, as recording a command does.
pub next_cmd-history_init : (next_cmd history_init).1.curr_his_idx ≡ no_index
unfolding next_cmd history_init history_command_init
next_cmd-history_init = refl

-- The move up where no entry is shown reads the entry that the unset variable happens to name, and
-- outside the ring where it names none.
pub pre_cmd-unset :
    (h : History) (local : ℕ)
    → IsValid h
    → h.curr_his_idx ≡ no_index
    → (100 ≤ local)
    → pre_cmd h local ≡ none
unfolding pre_cmd
pre_cmd-unset h local v fresh far = ground (arith, v.index, fresh, far)
