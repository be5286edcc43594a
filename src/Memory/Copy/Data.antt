-- ===== src/Memory/Copy/Data.antt =====
-- The loop of `memory_copy_uvm_data` in kernel/core/memory.c.
use wjos.Common.{
  take_all, drop_all, ℕ, zero, suc, ◌+◌, ◌-◌, ◌%◌, ◌/◌, ◌<◌, ◌≡◌, refl, ◌≢◌, inl, inr, Bool, true,
  false, Option, some, List, [], arith, ◌==◌, if◌then◌else◌, Bool-cases, length, length-drop, take,
  drop, ap, ◌∙◌,
}
use wjos.Common.Words.{add32, u32_mod}
use wjos.Memory.Alloc.{mem_page_size}
use wjos.Memory.Table.{Memory, get_paddr, pte_paddr}
use wjos.Memory.Table.Space.{has_table}
use wjos.Memory.Table.Map.{entry}
use wjos.Memory.Table.Loop.{get_paddr-entry}
use wjos.Memory.Copy.{Copy, copy_bytes, round_size, copy_round, copy_data, memory_copy_uvm_data}

round_size_pos : (p n : ℕ) → n ≢ 0 → 0 < round_size p n
round_size_pos p n some_left = ground (arith, some_left)

-- A round ends the copy, or leaves fewer bytes.
copy_round_ends :
    (p : ℕ) (bytes : List ℕ) (m : Memory) (rest : ℕ → Memory → Option (Copy × Memory))
    → ((size : ℕ) (m' : Memory)
        → length bytes ≢ 0
        → 0 < size
        → (r : Copy × Memory) × (rest size m' ≡ some r))
    → (r : Copy × Memory) × (copy_round p bytes m rest ≡ some r)
unfolding copy_round
copy_round_ends p bytes m rest ends = elim (Bool-cases (length bytes == 0)) [
  | inl e ↦ rw (e, if◌then◌else◌) ((Copy.copied, m), refl)
  | inr e ↦
      rw (e, if◌then◌else◌)
        (elim (Bool-cases (p == 0)) [
          | inl z ↦ rw (z, if◌then◌else◌) ((Copy.unmapped, m), refl)
          | inr z ↦
              rw (z, if◌then◌else◌)
                (let size = round_size p (length bytes) in
                  let some_left : length bytes ≢ 0 = ground (arith, e) in
                  ends size (record m { word = copy_bytes m.word p (take size bytes) }) some_left
                    (round_size_pos p (length bytes) some_left))
        ])
]

copy_data_ends :
    (fuel to page_dir : ℕ) (bytes : List ℕ) (m : Memory)
    → length bytes < fuel
    → (r : Copy × Memory) × (copy_data fuel to page_dir bytes m ≡ some r)
unfolding copy_data
copy_data_ends zero to page_dir bytes m fuel = absurd (omega (arith, fuel))
copy_data_ends (suc n) to page_dir bytes m fuel =
    copy_round_ends (get_paddr m page_dir to) bytes m
      (λ size m'. copy_data n (add32 to size) page_dir (drop size bytes) m')
      (λ size m' some_left pos.
        copy_data_ends n (add32 to size) page_dir (drop size bytes) m'
          (omega (arith, fuel, some_left, pos, length-drop size bytes)))

-- `memory_copy_uvm_data` returns, whatever the page tables hold.
memory_copy_uvm_data_ends :
    (to page_dir : ℕ) (bytes : List ℕ) (m : Memory)
    → (r : Copy × Memory) × (memory_copy_uvm_data to page_dir bytes m ≡ some r)
unfolding memory_copy_uvm_data
memory_copy_uvm_data_ends to page_dir bytes m =
    copy_data_ends (suc (length bytes)) to page_dir bytes m (omega arith)

-- A round that copies all that is left.
copy_round_last :
    (p : ℕ) (bytes : List ℕ) (m : Memory) (rest : ℕ → Memory → Option (Copy × Memory))
    → length bytes ≢ 0
    → p ≢ 0
    → length bytes + p % mem_page_size < mem_page_size
    → copy_round p bytes m rest
      ≡ rest (length bytes) (record m { word = copy_bytes m.word p bytes })
unfolding copy_round
copy_round_last p bytes m rest some_left there fits =
    let not_done : (length bytes == 0) ≡ false = ground (arith, some_left) in
    let found : (p == 0) ≡ false = ground (arith, there) in
    let all : round_size p (length bytes) ≡ length bytes = ground (arith, fits) in
    rw (not_done, if◌then◌else◌)
      (rw (found, if◌then◌else◌)
        (ap (λ n. rest n (record m { word = copy_bytes m.word p (take n bytes) })) all
          ∙ ap (λ l. rest (length bytes) (record m { word = copy_bytes m.word p l }))
              (take_all (length bytes) bytes (omega arith))))

copy_data_done :
    (n to page_dir : ℕ) (m : Memory) → copy_data (suc n) to page_dir [] m ≡ some (Copy.copied, m)
unfolding copy_data copy_round
copy_data_done n to page_dir m = refl

-- What fits in one page, at an address that `memory_get_paddr` takes to `p`.
copy_data-page :
    (n to page_dir p : ℕ) (bytes : List ℕ) (m : Memory)
    → length bytes ≢ 0
    → get_paddr m page_dir to ≡ p
    → p ≢ 0
    → length bytes + p % mem_page_size < mem_page_size
    → copy_data (suc (suc n)) to page_dir bytes m
      ≡ some (Copy.copied, record m { word = copy_bytes m.word p bytes })
unfolding copy_data
copy_data-page n to page_dir p bytes m some_left at_p there fits =
    ap
      (λ x.
        copy_round x bytes m
          λ size m'. copy_data (suc n) (add32 to size) page_dir (drop size bytes) m')
      at_p
    ∙ copy_round_last p bytes m
        (λ size m'. copy_data (suc n) (add32 to size) page_dir (drop size bytes) m') some_left there
        fits
    ∙ ap
        (λ l.
          copy_data (suc n) (add32 to (length bytes)) page_dir l
            (record m { word = copy_bytes m.word p bytes }))
        (drop_all (length bytes) bytes (omega arith))
    ∙ copy_data_done n (add32 to (length bytes)) page_dir
        (record m { word = copy_bytes m.word p bytes })

-- A page that has been given back, or was never mapped, in a table that is there: the data are
-- written to the offset in the page, at the bottom of memory, and the result is success.
memory_copy_uvm_data-unmapped :
    (to page_dir : ℕ) (bytes : List ℕ) (m : Memory)
    → to < u32_mod
    → has_table m page_dir (to / 4096 / 1024) ≡ true
    → entry m page_dir (to / 4096) ≡ 0
    → length bytes ≢ 0
    → to % 4096 ≢ 0
    → length bytes + to % 4096 < 4096
    → memory_copy_uvm_data to page_dir bytes m
      ≡ some (Copy.copied, record m { word = copy_bytes m.word (to % 4096) bytes })
unfolding memory_copy_uvm_data
memory_copy_uvm_data-unmapped to page_dir bytes m lt there gone some_left off fits =
    let low : get_paddr m page_dir to ≡ to % 4096 =
      get_paddr-entry m page_dir to lt
      ∙ ap
          (λ (b : Bool).
            if b then add32 (pte_paddr (entry m page_dir (to / 4096))) (to % 4096) else 0)
          there
      ∙ ap (λ e. add32 (pte_paddr e) (to % 4096)) gone
      ∙ omega arith in
    let more : length bytes ≡ suc (length bytes - 1) = omega (arith, some_left) in
    ap (λ n. copy_data (suc n) to page_dir bytes m) more
    ∙ copy_data-page (length bytes - 1) to page_dir (to % 4096) bytes m some_left low off
        (omega (arith, fits))
