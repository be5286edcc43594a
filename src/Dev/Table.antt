-- ===== src/Dev/Table.antt =====
-- The device table of kernel/dev/dev.c. A driver is known by its major number, and what its `open`
-- answers is a parameter. Interrupts are off in dev_open and dev_close.
use wjos.Common.{
  ℕ, zero, suc, ◌+◌, ◌-◌, ◌<◌, ◌≡◌, refl, ◌≢◌, inl, inr, Bool, true, false, not, ◌&&◌, ◌||◌, Option,
  none, some, arith, leb, ◌==◌, if◌then◌else◌, Bool-cases, ==_iff, sym, subst,
}

pub record Device : Type 0 where
  pub desc : Option ℕ
  pub minor : ℕ
  pub open_count : ℕ

abbrev pub Devices : Type 0
Devices = ℕ → Device

abbrev pub dev_table_size : ℕ
dev_table_size = 128

abbrev pub put_dev : Devices → ℕ → Device → Devices
put_dev tbl i dev = λ j. if j == i then dev else tbl j

abbrev pub no_device : Device
no_device = record { desc = none; minor = 0; open_count = 0 }

-- `dev_desc_tbl`: the terminal and the disk.
abbrev pub is_supported : ℕ → Bool
is_supported major = (major == 1) || (major == 2)

unfoldable pub is_devid_bad : Devices → ℕ → Bool
is_devid_bad tbl id = leb dev_table_size id || elim (tbl id).desc [ none ↦ true | some d ↦ false ]

abbrev pub is_dev : Device → ℕ → ℕ → Bool
is_dev dev major minor = elim dev.desc [
  | none ↦ false
  | some d ↦ (d == major) && (dev.minor == minor)
]

-- The search of `dev_open`: an open device of these numbers, or the last free entry.
pub data Slot : Type 0 where
  shared : ℕ → Slot
  vacant : Option ℕ → Slot

unfoldable pub find_slot : ℕ → ℕ → Option ℕ → Devices → ℕ → ℕ → Slot
find_slot zero i free tbl major minor = vacant free
find_slot (suc n) i free tbl major minor = elim ((tbl i).open_count == 0) [
  | true ↦ find_slot n (i + 1) (some i) tbl major minor
  | false ↦ elim (is_dev (tbl i) major minor) [
    | true ↦ shared i
    | false ↦ find_slot n (i + 1) free tbl major minor
  ]
]

module _ (driver_open : ℕ → ℕ → Bool) where
  -- The entry is written before the driver is asked, and stays so where it refuses.
  unfoldable pub open_slot : Slot → Devices → ℕ → ℕ → Option ℕ × Devices
  open_slot (shared i) tbl major minor =
      (some i, put_dev tbl i (record (tbl i) { open_count = (tbl i).open_count + 1 }))
  open_slot (vacant none) tbl major minor = (none, tbl)
  open_slot (vacant (some i)) tbl major minor =
      let dev = record (tbl i) { desc = some major; minor = minor } in
      if not (is_supported major)
      then (none, tbl)
      else if driver_open major minor
      then (some i, put_dev tbl i (record dev { open_count = 1 }))
      else (none, put_dev tbl i dev)

  unfoldable pub dev_open : Devices → ℕ → ℕ → Option ℕ × Devices
  unfolding find_slot open_slot
  dev_open tbl major minor =
      open_slot (find_slot dev_table_size 0 none tbl major minor) tbl major minor

unfoldable pub dev_close : Devices → ℕ → Devices
unfolding is_devid_bad
dev_close tbl id =
    if is_devid_bad tbl id
    then tbl
    else if (tbl id).open_count - 1 == 0
    then put_dev tbl id no_device
    else put_dev tbl id (record (tbl id) { open_count = (tbl id).open_count - 1 })

-- An entry is open with these numbers.
abbrev pub IsOpen : Devices → ℕ → ℕ → ℕ → Type 0
IsOpen tbl i major minor = ((tbl i).open_count ≢ 0) × (is_dev (tbl i) major minor ≡ true)

-- No device has two entries.
abbrev pub IsUnique : Devices → Type 0
IsUnique tbl =
    (i j major minor : ℕ)
    → i < 128
    → j < 128
    → IsOpen tbl i major minor
    → IsOpen tbl j major minor
    → i ≡ j

-- What the search finds.
abbrev Found : Devices → ℕ → ℕ → ℕ → Slot → Type 0
Found tbl major minor hi (shared i) = (i < hi) × IsOpen tbl i major minor
Found tbl major minor hi (vacant free) =
    ((j : ℕ) → free ≡ some j → (j < hi) × ((tbl j).open_count ≡ 0))
    × ((j : ℕ) → j < hi → (tbl j).open_count ≢ 0 → is_dev (tbl j) major minor ≡ false)

module _ (tbl : Devices) (major minor : ℕ) where
  -- No open entry of the numbers below `i`, nor at `i`.
  unmatched :
      (i : ℕ)
      → ((j : ℕ) → j < i → (tbl j).open_count ≢ 0 → is_dev (tbl j) major minor ≡ false)
      → ((tbl i).open_count ≢ 0 → is_dev (tbl i) major minor ≡ false)
      → (j : ℕ) → j < i + 1
      → (tbl j).open_count ≢ 0
      → is_dev (tbl j) major minor ≡ false
  unmatched i seen this j lt ne = elim (Bool-cases (j == i)) [
    | inl e ↦
        let same : i ≡ j = sym ((==_iff j i).0 e) in
        subst (λ k. (tbl k).open_count ≢ 0 → is_dev (tbl k) major minor ≡ false) same this ne
    | inr e ↦ seen j (ground (arith, e, lt)) ne
  ]

  find_slot-Found :
      (n i : ℕ) (free : Option ℕ)
      → ((j : ℕ) → free ≡ some j → (j < i) × ((tbl j).open_count ≡ 0))
      → ((j : ℕ) → j < i → (tbl j).open_count ≢ 0 → is_dev (tbl j) major minor ≡ false)
      → Found tbl major minor (i + n) (find_slot n i free tbl major minor)
  unfolding find_slot
  find_slot-Found zero i free fs seen =
      ((λ j e. (omega (arith, (fs j e).0), (fs j e).1)), λ j lt. seen j (omega (arith, lt)))
  find_slot-Found (suc n) i free fs seen = elim (Bool-cases ((tbl i).open_count == 0)) [
    | inl e ↦
        rw (e, find_slot)
          (subst (λ k. Found tbl major minor k (find_slot n (i + 1) (some i) tbl major minor))
            (next i n)
            (find_slot-Found n (i + 1) (some i) (λ j s. ground (arith, s, e))
              (unmatched i seen (λ ne. absurd (ground (arith, e, ne))))))
    | inr e ↦ elim (Bool-cases (is_dev (tbl i) major minor)) [
      | inl d ↦ rw (e, d, find_slot) (omega arith, (ground (arith, e), d))
      | inr d ↦
          rw (e, d, find_slot)
            (subst (λ k. Found tbl major minor k (find_slot n (i + 1) free tbl major minor))
              (next i n)
              (find_slot-Found n (i + 1) free (λ j s. (omega (arith, (fs j s).0), (fs j s).1))
                (unmatched i seen (λ ne. d))))
    ]
  ]
    where
      next : (i n : ℕ) → i + 1 + n ≡ i + suc n
      next i n = omega arith

  -- An open entry behind a write of entry `i`: it was open before, or it is entry `i`.
  was-IsOpen :
      (i : ℕ) (dev : Device) (j a b : ℕ)
      → j ≢ i
      → IsOpen (put_dev tbl i dev) j a b
      → IsOpen tbl j a b
  was-IsOpen i dev j a b ne o =
      let same : put_dev tbl i dev j ≡ tbl j = ground (arith, ne) in
      subst (λ d. (d.open_count ≢ 0) × (is_dev d a b ≡ true)) same o

  put_dev-IsOpen :
      (i : ℕ) (dev : Device) (j a b : ℕ)
      → j ≡ i
      → IsOpen (put_dev tbl i dev) j a b
      → (dev.open_count ≢ 0) × (is_dev dev a b ≡ true)
  put_dev-IsOpen i dev j a b e o =
      let same : put_dev tbl i dev j ≡ dev = ground (arith, e) in
      subst (λ d. (d.open_count ≢ 0) × (is_dev d a b ≡ true)) same o

  -- Writing an entry whose device, when open, no other entry is open for.
  put_dev-IsUnique :
      (i : ℕ) (dev : Device)
      → ((k a b : ℕ)
          → k < 128
          → k ≢ i
          → dev.open_count ≢ 0
          → is_dev dev a b ≡ true
          → IsOpen tbl k a b
          → ⊥)
      → IsUnique tbl
      → IsUnique (put_dev tbl i dev)
  put_dev-IsUnique i dev alone u j k a b ltj ltk oj ok = elim (Bool-cases (j == i)) [
    | inl ej ↦ elim (Bool-cases (k == i)) [
      | inl ek ↦ ground (arith, ej, ek)
      | inr ek ↦
          let ne : k ≢ i = ground (arith, ek) in
          let (op, d) = put_dev-IsOpen i dev j a b (ground (arith, ej)) oj in
          absurd (alone k a b ltk ne op d (was-IsOpen i dev k a b ne ok))
    ]
    | inr ej ↦
        let nej : j ≢ i = ground (arith, ej) in
        elim (Bool-cases (k == i)) [
          | inl ek ↦
              let (op, d) = put_dev-IsOpen i dev k a b (ground (arith, ek)) ok in
              absurd (alone j a b ltj nej op d (was-IsOpen i dev j a b nej oj))
          | inr ek ↦
              u j k a b ltj ltk (was-IsOpen i dev j a b nej oj)
                (was-IsOpen i dev k a b (ground (arith, ek)) ok)
        ]
  ]

  module _ (driver_open : ℕ → ℕ → Bool) where
    open_slot-IsUnique :
        (s : Slot)
        → Found tbl major minor 128 s
        → IsUnique tbl
        → IsUnique (open_slot driver_open s tbl major minor).1
    unfolding open_slot
    open_slot-IsUnique (shared i) (lt, (busy, dev)) u =
        put_dev-IsUnique i (record (tbl i) { open_count = (tbl i).open_count + 1 })
          (λ k a b ltk ne op d o. ne (u k i a b ltk lt o (busy, d))) u
    open_slot-IsUnique (vacant none) f u = u
    open_slot-IsUnique (vacant (some i)) f u = elim (Bool-cases (is_supported major)) [
      | inr e ↦ rw (e, if◌then◌else◌) u
      | inl e ↦ elim (Bool-cases (driver_open major minor)) [
        | inl o ↦
            rw (e, o, if◌then◌else◌)
              (put_dev-IsUnique i (record { desc = some major; minor = minor; open_count = 1 })
                (λ k a b ltk ne op d ok. absurd (ground (arith, d, ok, f.1 k ltk ok.0))) u)
        | inr o ↦
            rw (e, o, if◌then◌else◌)
              (put_dev-IsUnique i
                (record { desc = some major; minor = minor; open_count = (tbl i).open_count })
                (λ k a b ltk ne op d ok. op (f.0 i refl).1) u)
      ]
    ]

-- Opening a device, whether its driver agrees or not, keeps it that no device has two entries.
dev_open-IsUnique :
    (driver_open : ℕ → ℕ → Bool) (tbl : Devices) (major minor : ℕ)
    → IsUnique tbl
    → IsUnique (dev_open driver_open tbl major minor).1
unfolding dev_open
dev_open-IsUnique driver_open tbl major minor u =
    open_slot-IsUnique tbl major minor driver_open (find_slot 128 0 none tbl major minor)
      (find_slot-Found tbl major minor 128 0 none (λ j e. absurd (ground arith))
        (λ j lt. absurd (omega (arith, lt))))
      u
