-- ===== src/Dev/Tty/Tests.antt =====
-- The theorems on the console, its history and the terminal, at small texts.
use wjos.Common.{
  ℕ, ◌<◌, ◌≡◌, refl, inl, ◌⊎◌, false, true, none, some, [], ◌∷◌, ◌++◌, All, arith, length-replicate,
  replicate,
}
use wjos.Sched
use wjos.Sched.{Task, Manager}
use wjos.Ipc.Mutex.{mutex_init, mutex_init-IsValid}
use wjos.Dev.Console.{Console, WriteState}
use wjos.Dev.Console.Write.{write_in, write_normal, write_esc, write_esc_square, write_all}
use wjos.Dev.Console.Bounds
use wjos.Dev.Console.Bounds.{Kept, is_inside}
use wjos.Dev.Console.Escapes.{write_all-Kept}
use wjos.Dev.History.{
  history_init, history_command_init, peek_pre_cmd, peek_pre_idx, all_equal, add, pre_cmd, next_cmd,
  no_index, sys_get_history,
}
use wjos.Dev.History.Moves
use wjos.Dev.History.Moves.{Reach-IsValid, start, down, pre_cmd-inside}
use wjos.Dev.History.Order.{most_recent, but_oldest, texts, sys_get_history-add}
use wjos.Dev.Tty.{Terminal, get_tty, tty_write, read_loop}
use wjos.Dev.Tty.Puts.{IsIdle, Written}
use wjos.Dev.Tty.Output.{tty_write-Written}
use wjos.Dev.Tty.Pending.{IsPart, IsPending}
use wjos.Dev.Tty.Line.{read_loop-line}

abbrev screen : Console
screen = record {
  write_state = WriteState.plain;
  disp_base = 2000;
  cursor_row = 24;
  cursor_col = 79;
  foreground = 7;
  background = 0;
  old_cursor_row = 0;
  old_cursor_col = 0;
  esc_param = replicate 10 0;
  curr_param_index = 0;
  input_len = 0;
  cells = λ i. record { c = 32; foreground = 7; background = 0 };
}

screen-IsValid : Bounds.IsValid screen
screen-IsValid = record {
  row = omega arith;
  col = omega arith;
  old_row = omega arith;
  old_col = omega arith;
}

-- A red `A` in the last cell of the display, and the scrolling that it makes.
write_all-Kept_example : Kept screen (write_all screen (27 ∷ 91 ∷ 51 ∷ 49 ∷ 109 ∷ 65 ∷ []))
unfolding write_in write_normal write_esc write_esc_square
write_all-Kept_example =
    write_all-Kept (27 ∷ 91 ∷ 51 ∷ 49 ∷ 109 ∷ 65 ∷ []) screen screen-IsValid
      (refl, (refl, (refl, (refl, (refl, (refl, tt))))))

-- `ls`, the first command.
sys_get_history-add_example :
    sys_get_history (add history_init (108 ∷ 115 ∷ []) 5)
    ≡ but_oldest (most_recent (texts history_init ++ ((108 ∷ 115 ∷ 0 ∷ []) ∷ [])))
unfolding history_init peek_pre_cmd peek_pre_idx all_equal history_command_init
sys_get_history-add_example =
    sys_get_history-add history_init (108 ∷ 115 ∷ []) 5 (Reach-IsValid history_init start) refl refl

-- A move down, which leads to no entry, on a new console.
pre_cmd-inside_example :
    ((next_cmd history_init).1.his_idx < 100)
    × (((next_cmd history_init).1.curr_his_idx < 100)
        ⊎ ((next_cmd history_init).1.curr_his_idx ≡ no_index))
    × (Moves.is_inside (pre_cmd (next_cmd history_init).1 700) ≡ false)
unfolding history_init next_cmd history_command_init
pre_cmd-inside_example = pre_cmd-inside (next_cmd history_init).1 700 (down history_init start)

abbrev tasks : ℕ → Task
tasks i = record {
  state = Sched.TaskState.ready;
  parent = none;
  sleep_ticks = 0;
  time_ticks = 10;
  slice_ticks = 10;
  status = 0;
  file_table = [];
  name = [];
}

-- A terminal with `b`, a rubout, `a` and a line feed to read.
abbrev terminal : Terminal
terminal = record {
  tty = record {
    ofifo = record { buf = replicate 512 0; size = 512; read = 0; write = 0; count = 0 };
    osem = record { sem_count = 512; wait_list = [] };
    input = record {
      ififo = record { buf = 98 ∷ 127 ∷ 97 ∷ 10 ∷ []; size = 4; read = 0; write = 0; count = 4 };
      isem = record { sem_count = 4; wait_list = [] };
    };
    ocrlf = true;
    inclr = true;
    iecho = true;
  };
  con = screen;
  mutex = mutex_init;
  sched = record { curr_task = 1; ready_list = 1 ∷ []; sleep_list = []; tasks = tasks };
}

terminal-IsIdle : IsIdle terminal
unfolding mutex_init
terminal-IsIdle = record {
  valid = record {
    sized = length-replicate {A = ℕ} 512 0;
    start = omega arith;
    bound = omega arith;
    tail = refl;
  };
  size = refl;
  empty = refl;
  units = refl;
  waiters = refl;
  mutex = mutex_init-IsValid;
  owner = inl refl;
}

tty_write-Written_example :
    (t' : Terminal) × (tty_write 0 1 terminal (65 ∷ 10 ∷ []) ≡ some (some 2, t'))
    × Written (65 ∷ 13 ∷ 10 ∷ []) terminal t'
unfolding get_tty
tty_write-Written_example = tty_write-Written 0 1 (65 ∷ 10 ∷ []) terminal terminal-IsIdle refl

read_loop-line_example :
    (u : Terminal) × (read_loop 4 80 [] terminal ≡ some (10 ∷ 13 ∷ 97 ∷ [], u)) × IsPending [] u
read_loop-line_example =
    read_loop-line (98 ∷ 127 ∷ 97 ∷ []) [] [] 80 terminal parts pending (omega arith)
  where
    parts : All IsPart (98 ∷ 127 ∷ 97 ∷ [])
    parts = ground arith

    pending : IsPending (98 ∷ 127 ∷ 97 ∷ 10 ∷ []) terminal
    pending = record {
      idle = terminal-IsIdle;
      valid = record { sized = refl; start = omega arith; bound = omega arith; tail = refl };
      contents = refl;
      count = refl;
      units = refl;
      inclr = refl;
    }
