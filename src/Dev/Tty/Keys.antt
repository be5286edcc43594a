-- ===== src/Dev/Tty/Keys.antt =====
-- The keys for the command history in kernel/dev/tty.c.
use wjos.Common.{ℕ, Option, none, some, List, [], ◌∷◌, ◌==◌, if◌then◌else◌}
use wjos.Sched.{Manager}
use wjos.Dev.Fifo.{Input, tty_in}
use wjos.Dev.Console.{Console, erase_backword}
use wjos.Dev.History.{Command, History, is_blank, pre_cmd, next_cmd}

abbrev key_up : ℕ
key_up = 0x48

abbrev key_down : ℕ
key_down = 0x50

-- The characters of a command, typed for the user; the last two parts are the terminal's input and
-- the scheduler.
unfoldable pub type_all : List ℕ → Input → Manager → Input × Manager
unfolding tty_in
type_all [] input m = (input, m)
type_all (ch ∷ cmd) input m = let (input', m') = tty_in input ch m in type_all cmd input' m'

-- The line that is typed goes, and the command comes in its place.
unfoldable pub show_his_cmd : Console → Command → Input → Manager → Console × (Input × Manager)
unfolding erase_backword type_all
show_his_cmd con c input m = (erase_backword con con.input_len, type_all c.cmd input m)

unfoldable pub show_found :
    Console → History → Command → Input → Manager → Console × History × Input × Manager
unfolding show_his_cmd
show_found con h c input m =
    if is_blank c
    then (con, h, input, m)
    else let (con', typed) = show_his_cmd con c input m in (con', h, typed.0, typed.1)

unfoldable pub show_move :
    Option (Command × History)
    → Console
    → Input
    → Manager
    → Option (Console × History × Input × Manager)
unfolding show_found
show_move none con input m = none
show_move (some (c, h)) con input m = some (show_found con h c input m)

-- For a console in the mode for commands; `none` where `pre_cmd` reads outside the array.
unfoldable pub tty_handle_key :
    ℕ → ℕ → Console → History → Input → Manager → Option (Console × History × Input × Manager)
unfolding show_move pre_cmd next_cmd
tty_handle_key key local con h input m =
    if key == key_up
    then show_move (pre_cmd h local) con input m
    else if key == key_down
    then show_move (some (next_cmd h)) con input m
    else some (con, h, input, m)
