-- ===== src/Dev/History/Order.antt =====
-- The command history of kernel/base/history_cmd.c as the sequence of its commands, oldest first.
use wjos.Common.{
  map-append, map-drop, length-map, ℕ, zero, suc, ◌-◌, ◌<◌, ◌≡◌, refl, ◌≢◌, inl, inr, Option, none,
  some, Bool, true, false, List, [], ◌∷◌, ◌++◌, arith, ltb, ◌==◌, if◌then◌else◌, Bool-cases, length,
  length-append, length-drop, length-take, map, get_or, set, take, drop, get_or-set_self,
  get_or-set_ne, ap, ◌∙◌, sym,
}
use wjos.Dev.History.{
  Command, History, command_at, is_blank, peek_pre_cmd, peek_pre_idx, all_equal, next_idx, add,
  get_history, copy_cmds, sys_get_history,
}
use wjos.Dev.History.Moves.{IsValid}
use wjos.Dev.History.Ring.{
  added, get_history-full, get_history-part, next_idx-lt, add-added, added-full, added-part,
}
use wjos.Tools.Strings.{strncpy, copy_loop, cut}

-- At most the last hundred.
abbrev pub most_recent {ℓ} : {A : Type ℓ} → List A → List A
most_recent xs = drop (length xs - 100) xs

length-get_history :
    (h : History) → IsValid h → is_blank (command_at h 99) ≡ false → length (get_history h) ≡ 100
length-get_history h v full =
    let k = next_idx h.his_idx in
    ap length (get_history-full h v full)
    ∙ omega (
      arith,
      length-append (drop k h.his_cmds) (take k h.his_cmds),
      length-drop k h.his_cmds,
      length-take k h.his_cmds,
      v.sized,
      next_idx-lt h.his_idx v.index,
    )

length-get_history_part :
    (h : History) → IsValid h → is_blank (command_at h 99) ≡ true → length (get_history h) < 100
length-get_history_part h v blank =
    let n = ap length (get_history-part h blank) in
    omega (arith, n, length-take (next_idx h.his_idx) h.his_cmds, next_idx-lt h.his_idx v.index)

drop_front {ℓ} :
    {A : Type ℓ} (xs : List A) (x : A)
    → length xs ≡ 100
    → drop 1 xs ++ (x ∷ []) ≡ most_recent (xs ++ (x ∷ []))
drop_front [] x len = absurd (omega (arith, len))
drop_front (y ∷ xs) x len =
    let one : suc (length (xs ++ (x ∷ []))) - 100 ≡ 1 =
      omega (arith, len, length-append xs (x ∷ [])) in
    ap (λ n. drop n (y ∷ (xs ++ (x ∷ [])))) (sym one)

drop_none {ℓ} :
    {A : Type ℓ} (xs : List A) (x : A)
    → length xs < 100
    → xs ++ (x ∷ []) ≡ most_recent (xs ++ (x ∷ []))
drop_none xs x len =
    let none : length (xs ++ (x ∷ [])) - 100 ≡ 0 = omega (arith, len, length-append xs (x ∷ [])) in
    ap (λ n. drop n (xs ++ (x ∷ []))) (sym none)

add-get_history :
    (h : History) (cmd : List ℕ) (now : ℕ)
    → IsValid h
    → is_blank (record { time = now; cmd = cmd }) ≡ false
    → all_equal (peek_pre_cmd h).cmd cmd ≡ false
    → get_history (add h cmd now)
      ≡ most_recent (get_history h ++ (record { time = now; cmd = cmd } ∷ []))
add-get_history h cmd now v written new =
    let c : Command = record { time = now; cmd = cmd } in
    ap get_history (add-added h cmd now new) ∙ elim (Bool-cases (is_blank (command_at h 99))) [
      | inl e ↦
          added-part h cmd now v written e
          ∙ drop_none (get_history h) c (length-get_history_part h v e)
      | inr e ↦
          added-full h cmd now v written e ∙ drop_front (get_history h) c (length-get_history h v e)
    ]

-- The copy of a whole string.
copy_loop_whole : (s : List ℕ) → copy_loop (length s) s ≡ (s, false)
unfolding copy_loop
copy_loop_whole [] = refl
copy_loop_whole (c ∷ s) = ap (λ (r : List ℕ × Bool). (c ∷ r.0, r.1)) (copy_loop_whole s)

strncpy_whole :
    (c : Command) → is_blank c ≡ false → strncpy c.cmd (length c.cmd) ≡ c.cmd ++ (0 ∷ [])
unfolding strncpy
strncpy_whole c written =
    let more : (length c.cmd == 0) ≡ false = nonempty c.cmd written in
    rw (more, if◌then◌else◌)
      (ap (λ (r : List ℕ × Bool). if r.1 then cut r.0 ++ (0 ∷ []) else r.0 ++ (0 ∷ []))
        (copy_loop_whole c.cmd))
  where
    nonempty :
        (s : List ℕ) → is_blank (record { time = 0; cmd = s }) ≡ false → (length s == 0) ≡ false
    nonempty [] h = h
    nonempty (x ∷ s) h = ground arith

-- The texts of the commands, oldest first, each with the 0 behind it.
abbrev pub texts : History → List (List ℕ)
texts h = map (λ c. strncpy c.cmd (length c.cmd)) (get_history h)

-- All but the oldest, which has no destination.
abbrev pub but_oldest : List (List ℕ) → List (Option (List ℕ))
but_oldest [] = []
but_oldest (x ∷ xs) = none ∷ map some xs

copy_cmds_rest :
    (s : ℕ) (cmds : List Command)
    → copy_cmds (suc s) cmds ≡ map some (map (λ c. strncpy c.cmd (length c.cmd)) cmds)
unfolding copy_cmds
copy_cmds_rest s [] = refl
copy_cmds_rest s (c ∷ cmds) =
    let later : (suc s == 0) ≡ false = ground arith in
    rw (later, if◌then◌else◌)
      (ap (λ l. some (strncpy c.cmd (length c.cmd)) ∷ l)
        (ap (λ k. copy_cmds k cmds) (omega arith) ∙ copy_cmds_rest (suc s) cmds))

copy_cmds_lem :
    (cmds : List Command)
    → copy_cmds 0 cmds ≡ but_oldest (map (λ c. strncpy c.cmd (length c.cmd)) cmds)
unfolding copy_cmds
copy_cmds_lem [] = refl
copy_cmds_lem (c ∷ cmds) = ap (λ l. none ∷ l) (copy_cmds_rest 0 cmds)

texts-add :
    (h : History) (cmd : List ℕ) (now : ℕ)
    → IsValid h
    → is_blank (record { time = now; cmd = cmd }) ≡ false
    → all_equal (peek_pre_cmd h).cmd cmd ≡ false
    → texts (add h cmd now) ≡ most_recent (texts h ++ ((cmd ++ (0 ∷ [])) ∷ []))
texts-add h cmd now v written new =
    let c : Command = record { time = now; cmd = cmd } in
    let f : Command → List ℕ = λ c. strncpy c.cmd (length c.cmd) in
    let all = get_history h ++ (c ∷ []) in
    let split : map f all ≡ map f (get_history h) ++ ((cmd ++ (0 ∷ [])) ∷ []) =
      map-append f (get_history h) (c ∷ [])
      ∙ ap (λ s. map f (get_history h) ++ (s ∷ [])) (strncpy_whole c written) in
    ap (map f) (add-get_history h cmd now v written new)
    ∙ map-drop f (length all - 100) all
    ∙ ap (λ n. drop (n - 100) (map f all)) (sym (length-map f all))
    ∙ ap (λ l. most_recent l) split

-- A command that is not empty, and not the one before the last, is recorded last, behind the commands
-- there were, of which the oldest is dropped where there are a hundred. Of the commands that are then
-- recorded sys_get_history gives all but the oldest, for which the destination is null.
pub sys_get_history-add :
    (h : History) (cmd : List ℕ) (now : ℕ)
    → IsValid h
    → is_blank (record { time = now; cmd = cmd }) ≡ false
    → all_equal (peek_pre_cmd h).cmd cmd ≡ false
    → sys_get_history (add h cmd now)
      ≡ but_oldest (most_recent (texts h ++ ((cmd ++ (0 ∷ [])) ∷ [])))
unfolding sys_get_history
sys_get_history-add h cmd now v written new =
    copy_cmds_lem (get_history (add h cmd now))
    ∙ ap (λ l. but_oldest l) (texts-add h cmd now v written new)

all_equal_refl : (s : List ℕ) → all_equal s s ≡ true
unfolding all_equal
all_equal_refl [] = refl
all_equal_refl (c ∷ s) =
    let same : (c == c) ≡ true = ground arith in rw (same, if◌then◌else◌) (all_equal_refl s)

-- The command before the last, behind two commands that were recorded.
peek_pre_cmd-added :
    (h : History) (a b : List ℕ) (t1 t2 : ℕ)
    → IsValid h
    → peek_pre_cmd (added (added h a t1) b t2) ≡ record { time = t1; cmd = a }
unfolding peek_pre_cmd peek_pre_idx added
peek_pre_cmd-added h a b t1 t2 v =
    let i = next_idx h.his_idx in
    let none : Command = record { time = 0; cmd = [] } in
    let c : Command = record { time = t1; cmd = a } in
    let d : Command = record { time = t2; cmd = b } in
    let lt = next_idx-lt h.his_idx v.index in
    let back : (if ltb 0 (next_idx i) then next_idx i - 1 else 99) ≡ i = ground (arith, lt) in
    let ne : next_idx i ≢ i = ground (arith, lt) in
    ap (λ k. get_or (set (set h.his_cmds i c) (next_idx i) d) k none) back
    ∙ get_or-set_ne (set h.his_cmds i c) (next_idx i) i d none ne
    ∙ get_or-set_self h.his_cmds i c none (omega (arith, lt, v.sized))

-- Where the command is found, only its time changes.
map-set :
    (cmds : List Command) (i now : ℕ)
    → map
        (λ c. c.cmd)
        (set cmds i
          (record { time = now; cmd = (get_or cmds i (record { time = 0; cmd = [] })).cmd }))
      ≡ map (λ c. c.cmd) cmds
map-set [] i now = refl
map-set (c ∷ cmds) zero now = refl
map-set (c ∷ cmds) (suc i) now = ap (λ l. c.cmd ∷ l) (map-set cmds i now)

add-found :
    (h : History) (cmd : List ℕ) (now : ℕ)
    → all_equal (peek_pre_cmd h).cmd cmd ≡ true
    → ((add h cmd now).his_idx ≡ h.his_idx)
      × (map (λ c. c.cmd) (add h cmd now).his_cmds ≡ map (λ c. c.cmd) h.his_cmds)
unfolding add peek_pre_cmd
add-found h cmd now same = rw (same, if◌then◌else◌) (refl, map-set h.his_cmds (peek_pre_idx h) now)

-- A command given again behind one other command is not recorded: the history keeps its commands and
-- its last entry.
add-forgets :
    (h : History) (a b : List ℕ) (t1 t2 t3 : ℕ)
    → IsValid h
    → all_equal (peek_pre_cmd h).cmd a ≡ false
    → all_equal (peek_pre_cmd (add h a t1)).cmd b ≡ false
    → let h' = add (add h a t1) b t2 in
      ((add h' a t3).his_idx ≡ h'.his_idx)
      × (map (λ c. c.cmd) (add h' a t3).his_cmds ≡ map (λ c. c.cmd) h'.his_cmds)
add-forgets h a b t1 t2 t3 v new1 new2 =
    let one = add-added h a t1 new1 in
    let two : add (add h a t1) b t2 ≡ added (added h a t1) b t2 =
      add-added (add h a t1) b t2 new2 ∙ ap (λ g. added g b t2) one in
    add-found (add (add h a t1) b t2) a t3 (
      ap (λ g. all_equal (peek_pre_cmd g).cmd a) two
      ∙ ap (λ (c : Command). all_equal c.cmd a) (peek_pre_cmd-added h a b t1 t2 v)
      ∙ all_equal_refl a)
