-- ===== src/Dev/History/Ring.antt =====
-- The command history of kernel/base/history_cmd.c as the sequence of its commands, oldest first: the ring.
use wjos.Common.{
  take-set, drop-set, drop-uncons, take_all, drop_all, append-nil, append_assoc, ℕ, suc, ◌+◌, ◌≤◌,
  ◌<◌, ◌≡◌, refl, ◌≢◌, ◌⊎◌, inl, inr, Bool, true, false, List, [], ◌∷◌, ◌++◌, arith, ◌==◌,
  if◌then◌else◌, Bool-cases, length, length-set, get_or, set, take, drop, get_or-set_self,
  get_or-set_ne, ap, ◌∙◌, sym,
}
use wjos.Dev.History.{
  Command, History, command_at, is_blank, peek_pre_cmd, all_equal, next_idx, add, history_count,
  history_head, get_history,
}
use wjos.Dev.History.Moves.{IsValid}

-- The entries from `k` on, and then those before it.
abbrev rotated : ℕ → List Command → List Command
rotated k cmds = drop k cmds ++ take k cmds

-- The last entry written or not says whether the ring is full.
pub get_history-full :
    (h : History)
    → IsValid h
    → is_blank (command_at h 99) ≡ false
    → get_history h ≡ rotated (next_idx h.his_idx) h.his_cmds
unfolding get_history history_head history_count
get_history-full h v full =
    rw (full, if◌then◌else◌)
      (elim (Bool-cases (h.his_idx + 1 == 100)) [
        | inl e ↦
            rw (e, if◌then◌else◌)
              (take_all 100 h.his_cmds (omega (arith, v.sized)) ∙ sym (append-nil h.his_cmds))
        | inr e ↦
            rw (e, if◌then◌else◌)
              (let later : (h.his_idx + 1 == 0) ≡ false = ground arith in
                ap
                  (λ (b : Bool).
                    if b then take 100 h.his_cmds else rotated (h.his_idx + 1) h.his_cmds)
                  later)
      ])

pub get_history-part :
    (h : History)
    → is_blank (command_at h 99) ≡ true
    → get_history h ≡ take (next_idx h.his_idx) h.his_cmds
unfolding get_history history_head history_count
get_history-part h blank =
    rw (blank, if◌then◌else◌)
      (let same : (if h.his_idx == 99 then 0 else h.his_idx + 1) ≡ next_idx h.his_idx =
          ground arith in
        ap (λ n. take n h.his_cmds) same)

rotated-set :
    (k : ℕ) (cmds : List Command) (c : Command)
    → k < 100
    → length cmds ≡ 100
    → rotated (next_idx k) (set cmds k c) ≡ drop (suc k) cmds ++ (take k cmds ++ (c ∷ []))
rotated-set k cmds c lt len = elim (Bool-cases (k + 1 == 100)) [
  | inl e ↦
      rw (e, if◌then◌else◌)
        (let long : length cmds ≤ suc k = ground (arith, e, len) in
          let long' : length (set cmds k c) ≤ suc k = omega (arith, long, length-set cmds k c) in
          append-nil (set cmds k c)
          ∙ sym (take_all (suc k) (set cmds k c) long')
          ∙ take-set k cmds c (omega (arith, lt, len))
          ∙ ap (λ l. l ++ (take k cmds ++ (c ∷ []))) (sym (drop_all (suc k) cmds long)))
  | inr e ↦
      rw (e, if◌then◌else◌)
        (let one : k + 1 ≡ suc k = omega arith in
          ap (λ n. drop n (set cmds k c) ++ take n (set cmds k c)) one
          ∙ ap (λ l. l ++ take (suc k) (set cmds k c)) (drop-set k cmds c)
          ∙ ap (λ l. drop (suc k) cmds ++ l) (take-set k cmds c (omega (arith, lt, len))))
]

-- `add` of a command that is not skipped, with the index that it writes.
unfoldable pub added : History → List ℕ → ℕ → History
added h cmd now = record {
  his_idx = next_idx h.his_idx;
  curr_his_idx = 0xffff_ffff;
  his_cmds = set h.his_cmds (next_idx h.his_idx) (record { time = now; cmd = cmd });
}

pub add-added :
    (h : History) (cmd : List ℕ) (now : ℕ)
    → all_equal (peek_pre_cmd h).cmd cmd ≡ false
    → add h cmd now ≡ added h cmd now
unfolding add added
add-added h cmd now new = rw (new, if◌then◌else◌) refl

pub next_idx-lt : (i : ℕ) → i < 100 → next_idx i < 100
next_idx-lt i lt = ground arith

pub added-IsValid : (h : History) (cmd : List ℕ) (now : ℕ) → IsValid h → IsValid (added h cmd now)
unfolding added
added-IsValid h cmd now v = record {
  sized = length-set h.his_cmds (next_idx h.his_idx) (record { time = now; cmd = cmd }) ∙ v.sized;
  index = next_idx-lt h.his_idx v.index;
  shown = inr refl;
}

-- The last entry of the ring, when it is the one written and when it is not.
added-last :
    (h : History) (cmd : List ℕ) (now : ℕ)
    → IsValid h
    → next_idx h.his_idx ≡ 99
    → command_at (added h cmd now) 99 ≡ record { time = now; cmd = cmd }
unfolding added
added-last h cmd now v last =
    let k : ℕ → Command = λ i.
      get_or (set h.his_cmds i (record { time = now; cmd = cmd })) 99
        (record { time = 0; cmd = [] }) in
    ap k last
    ∙ get_or-set_self h.his_cmds 99 (record { time = now; cmd = cmd })
        (record { time = 0; cmd = [] }) (omega (arith, v.sized))

added-other :
    (h : History) (cmd : List ℕ) (now : ℕ)
    → next_idx h.his_idx ≢ 99
    → command_at (added h cmd now) 99 ≡ command_at h 99
unfolding added
added-other h cmd now other =
    get_or-set_ne h.his_cmds (next_idx h.his_idx) 99 (record { time = now; cmd = cmd })
      (record { time = 0; cmd = [] }) other

is_last : (i : ℕ) → (i ≡ 99) ⊎ (i ≢ 99)
is_last i = elim (Bool-cases (i == 99)) [
  | inl e ↦ inl (ground (arith, e))
  | inr e ↦ inr (ground (arith, e))
]

module _ (h : History) (cmd : List ℕ) (now : ℕ) (v : IsValid h)
    (written : is_blank (record { time = now; cmd = cmd }) ≡ false) where
  added-turned :
      is_blank (command_at (added h cmd now) 99) ≡ false
      → get_history (added h cmd now)
        ≡ drop (suc (next_idx h.his_idx)) h.his_cmds
          ++ (take (next_idx h.his_idx) h.his_cmds ++ (record { time = now; cmd = cmd } ∷ []))
  unfolding added
  added-turned full =
      get_history-full (added h cmd now) (added-IsValid h cmd now v) full
      ∙ rotated-set (next_idx h.his_idx) h.his_cmds (record { time = now; cmd = cmd })
          (next_idx-lt h.his_idx v.index) v.sized

  pub added-full :
      is_blank (command_at h 99) ≡ false
      → get_history (added h cmd now)
        ≡ drop 1 (get_history h) ++ (record { time = now; cmd = cmd } ∷ [])
  added-full full =
      let k = next_idx h.his_idx in
      let still : is_blank (command_at (added h cmd now) 99) ≡ false = elim (is_last k) [
        | inl e ↦ ap is_blank (added-last h cmd now v e) ∙ written
        | inr e ↦ ap is_blank (added-other h cmd now e) ∙ full
      ] in
      let old : drop 1 (get_history h) ≡ drop (suc k) h.his_cmds ++ take k h.his_cmds =
        ap (drop 1) (
          get_history-full h v full
          ∙ ap (λ l. l ++ take k h.his_cmds)
              (drop-uncons k h.his_cmds (record { time = 0; cmd = [] })
                (omega (arith, next_idx-lt h.his_idx v.index, v.sized)))) in
      added-turned still
      ∙ sym (
          append_assoc (drop (suc k) h.his_cmds) (take k h.his_cmds)
            (record { time = now; cmd = cmd } ∷ []))
      ∙ ap (λ l. l ++ (record { time = now; cmd = cmd } ∷ [])) (sym old)

  pub added-part :
      is_blank (command_at h 99) ≡ true
      → get_history (added h cmd now) ≡ get_history h ++ (record { time = now; cmd = cmd } ∷ [])
  unfolding added
  added-part blank =
      let k = next_idx h.his_idx in
      let c : Command = record { time = now; cmd = cmd } in
      let lt = next_idx-lt h.his_idx v.index in
      elim (is_last k) [
        | inl e ↦
            added-turned (ap is_blank (added-last h cmd now v e) ∙ written)
            ∙ ap (λ l. l ++ (take k h.his_cmds ++ (c ∷ [])))
                (drop_all (suc k) h.his_cmds (omega (arith, v.sized, e)))
            ∙ ap (λ l. l ++ (c ∷ [])) (sym (get_history-part h blank))
        | inr e ↦
            let up : next_idx k ≡ suc k = ground (arith, e) in
            get_history-part (added h cmd now) (ap is_blank (added-other h cmd now e) ∙ blank)
            ∙ ap (λ n. take n (set h.his_cmds k c)) up
            ∙ take-set k h.his_cmds c (omega (arith, lt, v.sized))
            ∙ ap (λ l. l ++ (c ∷ [])) (sym (get_history-part h blank))
      ]
