-- ===== src/Loader/Boot.antt =====
-- The memory map and the read of the disk in loader/loader_16.c and loader/loader_32.c. The i-th
-- answer of the BIOS is a parameter, and so is what the ports of the disk answer, as in Dev/Disk.
use wjos.Common.{
  ℕ, zero, suc, ◌+◌, ◌/◌, ◌%◌, ◌≤◌, ◌<◌, ◌≡◌, refl, inl, inr, Bool, true, false, not, ◌&&◌, Option,
  none, some, List, [], ◌∷◌, ◌++◌, arith, ltb, ◌==◌, ==_iff, if◌then◌else◌, Bool-cases, All, length,
  length-append,
}
use wjos.Dev.Disk.{Event, outb, Io, byte, put_all, words_from}

-- An `SMAP_entry_t` with the registers behind the call.
pub record Answer : Type 0 where
  pub signature : ℕ
  pub bytes : ℕ
  pub cont_id : ℕ
  pub base_l : ℕ
  pub length_l : ℕ
  pub type : ℕ
  pub acpi : ℕ

pub record Region : Type 0 where
  pub start : ℕ
  pub size : ℕ

abbrev pub region_of : Answer → Region
region_of a = record { start = a.base_l; size = a.length_l }

-- The rounds left, from the i-th answer on, with the regions that are found.
unfoldable pub detect_rounds : (ℕ → Answer) → ℕ → ℕ → List Region → List Region
detect_rounds answers zero i regions = regions
detect_rounds answers (suc left) i regions =
    let a = answers i in
    let found = if a.type == 1 then regions ++ (region_of a ∷ []) else regions in
    let skip = detect_rounds answers left (i + 1) regions in
    let next = detect_rounds answers left (i + 1) found in
    if not (a.signature == 0x534D_4150)
    then regions
    else if ltb 20 a.bytes && (a.acpi % 2 == 0)
    then skip
    else if a.cont_id == 0
    then found
    else next

abbrev pub boot_ram_region_max : ℕ
boot_ram_region_max = 10

-- `ram_region_cfg`, whose length is `ram_region_count`.
unfoldable pub detect_memory : (ℕ → Answer) → List Region
unfolding detect_rounds
detect_memory answers = detect_rounds answers boot_ram_region_max 0 []

-- A region is that of an answer for memory that may be used, among the first `n`.
pub record IsUsable (answers : ℕ → Answer) (n : ℕ) (r : Region) : Type 0 where
  pub index : ℕ
  pub among : index < n
  pub usable : (answers index).type ≡ 1
  pub region : r ≡ region_of (answers index)

-- The regions found by some rounds, beside those found before.
record Found (answers : ℕ → Answer) (n : ℕ) (bound : ℕ) (rs : List Region) : Type 0 where
  few : length rs ≤ bound
  all : All (IsUsable answers n) rs

All-append {ℓ κ} :
    {A : Type ℓ} (P : A → Type κ) (xs : List A) (x : A) → All P xs → P x → All P (xs ++ (x ∷ []))
All-append P [] x all p = (p, tt)
All-append P (y ∷ xs) x (q, all) p = (q, All-append P xs x all p)

if_lem {ℓ κ} :
    {A : Type ℓ} (P : A → Type κ) (b : Bool) (x y : A) → P x → P y → P (if b then x else y)
if_lem P true x y p q = p
if_lem P false x y p q = q

-- The regions with that of an answer, if it is for memory that may be used.
abbrev with_answer : Answer → List Region → List Region
with_answer a rs = if a.type == 1 then rs ++ (region_of a ∷ []) else rs

with_answer-Found :
    (answers : ℕ → Answer) (i n bound : ℕ) (rs : List Region)
    → i < n
    → length rs < bound
    → Found answers n bound rs
    → Found answers n bound (with_answer (answers i) rs)
with_answer-Found answers i n bound rs lt room f = elim (Bool-cases ((answers i).type == 1)) [
  | inl e ↦
      let usable : IsUsable answers n (region_of (answers i)) = record {
        index = i;
        among = lt;
        usable = (==_iff _ 1).0 e;
        region = refl;
      } in
      rw e (record {
        few = omega (arith, room, length-append rs (region_of (answers i) ∷ []));
        all = All-append (IsUsable answers n) rs (region_of (answers i)) f.all usable;
      })
  | inr e ↦ rw e f
]

length-with_answer : (a : Answer) (rs : List Region) → length (with_answer a rs) ≤ suc (length rs)
length-with_answer a rs = ground (arith, length-append rs (region_of a ∷ []))

detect_rounds-Found :
    (answers : ℕ → Answer) (left i n bound : ℕ) (rs : List Region)
    → i + left ≤ n
    → length rs + left ≤ bound
    → Found answers n bound rs
    → Found answers n bound (detect_rounds answers left i rs)
unfolding detect_rounds
detect_rounds-Found answers zero i n bound rs le room f = f
detect_rounds-Found answers (suc left) i n bound rs le room f =
    let P : List Region → Type 0 = Found answers n bound in
    let found = with_answer (answers i) rs in
    let f' = with_answer-Found answers i n bound rs (omega arith) (omega arith) f in
    let wider = length-with_answer (answers i) rs in
    if_lem P _ _ _ f (
      if_lem P _ _ _
        (detect_rounds-Found answers left (i + 1) n bound rs (omega arith) (omega arith) f)
        (if_lem P _ _ _ f' (
          detect_rounds-Found answers left (i + 1) n bound found (omega arith)
            (omega (arith, room, wider)) f')))

-- Whatever the BIOS answers, detect_memory finds at most the 10 regions that there is room for, and each
-- of them is that of one of the first 10 answers, for memory that may be used.
pub detect_memory-IsUsable :
    (answers : ℕ → Answer)
    → (length (detect_memory answers) ≤ 10) × All (IsUsable answers 10) (detect_memory answers)
unfolding detect_memory
detect_memory-IsUsable answers =
    let f =
      detect_rounds-Found answers 10 0 10 10 [] (omega arith) (omega arith)
        (record { few = omega arith; all = tt }) in
    (f.few, f.all)

-- The writes of a read command in front of the loop.
abbrev pub command : ℕ → ℕ → List Event
command sector sector_count =
    outb 0x1F6 0xE0
    ∷ outb 0x1F2 (byte (sector_count / 256))
    ∷ outb 0x1F3 (byte (sector / 0x100_0000))
    ∷ outb 0x1F4 0
    ∷ outb 0x1F5 0
    ∷ outb 0x1F2 (byte sector_count)
    ∷ outb 0x1F3 (byte sector)
    ∷ outb 0x1F4 (byte (sector / 256))
    ∷ outb 0x1F5 (byte (sector / 0x1_0000))
    ∷ outb 0x1F7 0x24
    ∷ []

module _ (status inw : ℕ → ℕ) (fuel : ℕ) where
  -- `while ((inb(0x1F7) & 0x88) != 0x8)`, at most `fuel` reads; `none` where it goes on.
  abbrev pub is_ready : ℕ → Bool
  is_ready s = (s / 8 % 2 == 1) && (s / 128 % 2 == 0)

  unfoldable pub wait_ready : ℕ → Io → Option Io
  wait_ready zero io = none
  wait_ready (suc rounds) io =
      let rest = wait_ready rounds (record io { asked = io.asked + 1 }) in
      if is_ready (status io.asked) then some (record io { asked = io.asked + 1 }) else rest

  -- The words of the sectors left.
  unfoldable pub read_rest : ℕ → Io → Option (List ℕ × Io)
  unfolding wait_ready
  read_rest zero io = some ([], io)
  read_rest (suc sector_count) io = elim (wait_ready fuel io) [
    | none ↦ none
    | some io' ↦ elim (read_rest sector_count (record io' { taken = io'.taken + 256 })) [
      | none ↦ none
      | some p ↦ some (words_from inw io'.taken 256 ++ p.0, p.1)
    ]
  ]

  unfoldable pub read_disk : ℕ → ℕ → Io → Option (List ℕ × Io)
  unfolding read_rest
  read_disk sector sector_count io =
      read_rest sector_count (put_all (command sector sector_count) io)
