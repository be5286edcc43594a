-- ===== src/Syscall/Tests.antt =====
-- Calls of the system with a kernel that records the handlers it runs.
use wjos.Common.{ℕ, ◌≡◌, refl, some, List, [], ◌∷◌}
use wjos.Syscall.{Handler, Args, handle_syscall, minus_one}
use wjos.Syscall.Meaning.{Call}
use wjos.Syscall.Calls.{call, call-handler}

abbrev recording : Handler → Args → List (Handler × Args) → ℕ × List (Handler × Args)
recording h a s = (7, (h, a) ∷ s)

abbrev stack : Args
stack = record { arg0 = 11; arg1 = 12; arg2 = 13; arg3 = 14 }

call-handler_example :
    call recording stack (Call.read 1 2 3) []
    ≡ (some 7, (Handler.sys_read, record { arg0 = 1; arg1 = 2; arg2 = 3; arg3 = 14 }) ∷ [])
call-handler_example = call-handler recording stack (Call.read 1 2 3) []

-- There is no call of the number 7.
unknown_call :
    handle_syscall recording (record { func_id = 7; args = stack; eax = 0 }) []
    ≡ (record { func_id = 7; args = stack; eax = minus_one }, [])
unfolding handle_syscall
unknown_call = refl
