-- ===== src/Shell.antt =====
-- The shell of shell/main.c and shell/cmd_executor.c: the parsing of a line, and the execution of a
-- command. A string is the list of its characters, without the 0 behind them.
pub mod Words
pub mod Exec
pub mod Files
mod Tests
use wjos.Common.{
  ℕ, suc, ◌+◌, Bool, true, false, List, [], ◌∷◌, ◌++◌, ◌==◌, if◌then◌else◌, Option, none, some, leb,
  length,
}

-- The part before the first `c`, as `strchr` and the 0 put there leave it.
unfoldable pub cut : ℕ → List ℕ → List ℕ
cut c [] = []
cut c (x ∷ xs) = let rest = cut c xs in if x == c then [] else x ∷ rest

abbrev pub flush : List ℕ → List (List ℕ)
flush [] = []
flush (c ∷ word) = (c ∷ word) ∷ []

-- The tokens of `strtok` at spaces, behind the characters of a token that has begun.
unfoldable pub tokens : List ℕ → List ℕ → List (List ℕ)
tokens word [] = flush word
tokens word (c ∷ cs) =
    let next = flush word ++ tokens [] cs in
    let more = tokens (word ++ (c ∷ [])) cs in if c == b' ' then next else more

abbrev pub cli_max_arg_count : ℕ
cli_max_arg_count = 10

-- The arguments, of which `argv` has room for ten. The loop stores an eleventh behind the array, over
-- another variable of `hang`, and what follows is not defined: `none`.
unfoldable pub parse_arg : List ℕ → Option (List (List ℕ))
unfolding cut tokens
parse_arg curr_input =
    let argv = tokens [] (cut b'\r' (cut b'\n' curr_input)) in
    if leb (length argv) cli_max_arg_count then some argv else none

-- `arg_string` of `pre_exec`, which goes to the history.
unfoldable pub arg_string : List (List ℕ) → List ℕ
arg_string [] = []
arg_string (arg ∷ []) = arg
arg_string (arg ∷ next ∷ args) = arg ++ (b' ' ∷ arg_string (next ∷ args))
