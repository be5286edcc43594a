-- ===== src/Shell/Exec.antt =====
-- The execution of a command in shell/cmd_executor.c. What the shell does is a sequence of events; for
-- each command the answers of `open` and of its one `fork`, with those of the `execve` or the `wait`
-- behind it, are parameters.
use wjos.Common.{
  ℕ, ◌+◌, Bool, true, false, ◌&&◌, Option, none, some, List, [], ◌∷◌, ◌++◌, ◌==◌, if◌then◌else◌,
}
use wjos.Shell.{parse_arg, arg_string}

pub data Event : Type 0 where
  saved : List ℕ → Event
  built_in : ℕ → List (List ℕ) → Event
  fork_failed : List ℕ → Event
  executed : List ℕ → List (List ℕ) → Event
  exec_failed : List ℕ → Event
  exited : ℕ → Event
  waited : List ℕ → ℕ → ℕ → Event
  not_found : List ℕ → Event

-- `strcmp(a, b) == 0`.
abbrev pub same : List ℕ → List ℕ → Bool
same [] [] = true
same [] (d ∷ b) = false
same (c ∷ a) [] = false
same (c ∷ a) (d ∷ b) = let rest = same a b in (c == d) && rest

-- The place of the first command of a name.
unfoldable pub find_builtin : List (List ℕ) → List ℕ → Option ℕ
find_builtin [] name = none
find_builtin (cmd ∷ cmds) name =
    let rest : Option ℕ = elim (find_builtin cmds name) [ none ↦ none | some i ↦ some (i + 1) ] in
    if same cmd name then some 0 else rest

abbrev pub elf : List ℕ
elf = b'.' ∷ b'e' ∷ b'l' ∷ b'f' ∷ []

-- The path to execute, and what the static buffer `path` holds then. A file that opens under the name
-- that was given leaves the buffer as it is. The descriptor is closed again.
unfoldable pub find_exec_path : (List ℕ → Bool) → List ℕ → List ℕ → Option (List ℕ) × List ℕ
find_exec_path opens path filename =
    if opens filename
    then (some path, path)
    else if opens (filename ++ elf)
    then (some (filename ++ elf), filename ++ elf)
    else (none, filename ++ elf)

-- What `fork` comes to: the process that runs on, with whether `execve` fails and comes back, or with
-- what `wait` gives, the status and the child's number.
pub data Fork : Type 0 where
  failed : Fork
  child : Bool → Fork
  parent : ℕ → ℕ → Fork

unfoldable pub run_exec_file : Fork → List ℕ → List (List ℕ) → List Event
run_exec_file failed path argv = fork_failed path ∷ []
run_exec_file (child false) path argv = executed path argv ∷ []
run_exec_file (child true) path argv =
    executed path argv ∷ exec_failed path ∷ exited 0xFFFF_FFFF ∷ []
run_exec_file (parent status pid) path argv = waited path status pid ∷ []

-- The spaces that a line begins with.
abbrev pub leading : List ℕ → List ℕ
leading [] = []
leading (c ∷ line) = let rest = leading line in if c == 32 then c ∷ rest else []

module _ (cmds : List (List ℕ)) (opens : List ℕ → Bool) (fork : Fork) where
  -- The end of `exec`, behind the search of a file.
  unfoldable pub run_found : List ℕ → List (List ℕ) → Option (List ℕ) × List ℕ → List Event × List ℕ
  unfolding run_exec_file arg_string
  run_found input argv (none, path) = (not_found input ∷ [], path)
  run_found input argv (some file, path) =
      (saved (arg_string argv) ∷ run_exec_file fork file argv, path)

  -- `exec`, of which `pre_exec` saves the arguments in the history; `input` is the line, cut behind
  -- its first word. There is a first argument.
  unfoldable pub exec : List ℕ → List ℕ → List (List ℕ) → List Event × List ℕ
  unfolding find_builtin find_exec_path run_found arg_string
  exec path input [] = ([], path)
  exec path input (name ∷ args) = elim (find_builtin cmds name) [
    | some i ↦ (saved (arg_string (name ∷ args)) ∷ built_in i (name ∷ args) ∷ [], path)
    | none ↦ run_found input (name ∷ args) (find_exec_path opens path name)
  ]

  -- A round of `hang`, for a line that `fgets` has given, or none. `none` is a line of more arguments than
  -- there is room for.
  unfoldable pub round : List ℕ → Option (List ℕ) → Option (List Event × List ℕ)
  unfolding exec parse_arg
  round path none = some ([], path)
  round path (some line) = elim (parse_arg line) [
    | none ↦ none
    | some [] ↦ some ([], path)
    | some (name ∷ args) ↦ some (exec path (leading line ++ name) (name ∷ args))
  ]
