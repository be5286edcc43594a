-- ===== src/Bitmap/Alloc.antt =====
-- `bitmap_alloc_nbits`: what the first-fit search finds, and what the allocation does.
use wjos.Common.{
  ℕ, zero, suc, ◌+◌, ◌-◌, ◌%◌, ◌^◌, ◌≤◌, ◌<◌, ◌≡◌, refl, ◌≢◌, ◌⊎◌, inl, inr, Option, none, some,
  arith, ltb, ◌==◌, if◌then◌else◌, Bool-cases, Option-cases, ap, sym, subst,
}
use wjos.Common.Words.{not32}
use wjos.Bitmap.{
  Bitmap, get_bit, set_bit, Scan, complete, stopped, scan, search_from, find_run, alloc_nbits,
}
use wjos.Bitmap.Set.{IsValid, set_bit-IsValid, bit_count-set_bit, get_bit-set_bit}

Scan-cases : (s : Scan) → (s ≡ complete) ⊎ ((n : ℕ) × (s ≡ stopped n))
Scan-cases complete = inl refl
Scan-cases (stopped n) = inr (n, refl)

module _ (b : Bitmap) (bit : ℕ) where
  -- The bit at `i` lies in the bitmap and has the wanted value.
  abbrev pub Good : ℕ → Type 0
  Good i = (i < b.bit_count) × (get_bit b i ≡ bit)

  scan-Good :
      (rounds index : ℕ)
      → scan b bit rounds index ≡ complete
      → (k : ℕ) → k < rounds
      → Good (index + k)
  unfolding scan
  scan-Good zero index h k lt = absurd (omega arith)
  scan-Good (suc rounds) index h zero lt =
      let e : index + 0 ≡ index = omega arith in rw e (ground arith)
  scan-Good (suc rounds) index h (suc k) lt =
      let e : index + suc k ≡ index + 1 + k = omega arith in
      rw e (scan-Good rounds (index + 1) (ground arith) k (omega arith))

  scan-complete :
      (rounds index : ℕ)
      → ((k : ℕ) → k < rounds → Good (index + k))
      → scan b bit rounds index ≡ complete
  unfolding scan
  scan-complete zero index good = refl
  scan-complete (suc rounds) index good =
      let e : index + 0 ≡ index = omega arith in
      let start : Good index = rw e at (good 0 (omega arith)) in
      let rest = scan-complete rounds (index + 1) λ k lt.
        let e : index + 1 + k ≡ index + suc k = omega arith in rw e (good (suc k) (omega arith)) in
      ground (arith, rest)

  -- A search that stopped early has moved forward, and its start was not the end of the bitmap.
  scan_forward : (rounds index n : ℕ) → scan b bit rounds index ≡ stopped n → Good index → index < n
  unfolding scan
  scan_forward zero index n h g = cc
  scan_forward (suc rounds) index n h g = ground (arith, scan-le rounds (index + 1) n)
    where
      scan-le : (rounds index n : ℕ) → scan b bit rounds index ≡ stopped n → index ≤ n
      scan-le zero index n h = cc
      scan-le (suc rounds) index n h = ground (arith, scan-le rounds (index + 1) n)

  -- What an index that the search returns satisfies.
  pub record Found (count index i : ℕ) : Type 0 where
    pub from : index ≤ i
    pub start : Good i
    pub run : (k : ℕ) → suc k < count → Good (i + k)

  module _ (count : ℕ) where
    -- Soundness of the search, for every count.
    search_from-Found :
        (fuel index i : ℕ) → search_from fuel b bit count index ≡ some i → Found count index i
    unfolding search_from
    search_from-Found zero index i h = cc
    search_from-Found (suc fuel) index i h = elim (Bool-cases (ltb index b.bit_count)) [
      | inr out ↦ cc (rw (out, search_from) at h)
      | inl inside ↦ elim (Bool-cases (get_bit b index == bit)) [
        | inr miss ↦
            let later =
              search_from-Found fuel (index + 1) i (rw (inside, miss, search_from) at h) in
            record { from = omega arith; start = later.start; run = later.run }
        | inl hit ↦ elim (Scan-cases (scan b bit (count - 1) index)) [
          | inl all ↦
              let here : index ≡ i = ground arith in
              record {
                from = omega arith;
                start = ground arith;
                run = λ k lt. rw (← here) (scan-Good (count - 1) index all k (omega arith));
              }
          | inr (n, stop) ↦
              let forward : index < n =
                scan_forward (count - 1) index n stop (ground arith, ground arith) in
              let later = search_from-Found fuel n i (rw (inside, hit, stop, search_from) at h) in
              record { from = omega arith; start = later.start; run = later.run }
        ]
      ]
    ]

  -- With a count of one the search passes over no good index.
  search_from-first :
      (fuel index i : ℕ)
      → search_from fuel b bit 1 index ≡ some i
      → (j : ℕ) → index ≤ j
      → j < i
      → get_bit b j ≢ bit
  unfolding search_from scan
  search_from-first zero index i h j le lt e = cc
  search_from-first (suc fuel) index i h j le lt e = elim (Bool-cases (index == j)) [
    | inl same ↦ ground arith
    | inr other ↦ ground (
      arith,
      λ (h' : search_from fuel b bit 1 (index + 1) ≡ some i).
          search_from-first fuel (index + 1) i h' j (ground arith) lt e,
    )
  ]

  -- With enough fuel a search that fails has seen every bit.
  search_from-none :
      (fuel index : ℕ)
      → b.bit_count < index + fuel
      → search_from fuel b bit 1 index ≡ none
      → (j : ℕ) → index ≤ j
      → j < b.bit_count
      → get_bit b j ≢ bit
  unfolding search_from scan
  search_from-none zero index f h j le lt e = absurd (omega arith)
  search_from-none (suc fuel) index f h j le lt e = elim (Bool-cases (index == j)) [
    | inl same ↦ ground arith
    | inr other ↦ ground (
      arith,
      λ (h' : search_from fuel b bit 1 (index + 1) ≡ none).
          search_from-none fuel (index + 1) (omega arith) h' j (ground arith) lt e,
    )
  ]

-- What a successful allocation of one bit does: the bit was the first clear one, it is set
-- after, and all others are as before.
pub record Allocated (b : Bitmap) (i : ℕ) (b' : Bitmap) : Type 0 where
  pub inside : i < b.bit_count
  pub was_clear : get_bit b i ≡ 0
  pub first : (j : ℕ) → j < i → get_bit b j ≢ 0
  pub after : (j : ℕ) → get_bit b' j ≡ (if j == i then 2 ^ (j % 8) else get_bit b j)
  pub valid : IsValid b'
  pub same_count : b'.bit_count ≡ b.bit_count

module _ (b : Bitmap) (v : IsValid b) where
  set_one :
      (i : ℕ)
      → i < b.bit_count
      → (j : ℕ)
      → get_bit (set_bit b i 1 (not32 0)) j ≡ (if j == i then 2 ^ (j % 8) else get_bit b j)
  set_one i h j = ground (arith, get_bit-set_bit 1 b i (not32 0) j v)

  alloc_one : (i : ℕ) → find_run b 0 1 ≡ some i → Allocated b i (set_bit b i 1 (not32 0))
  alloc_one i e =
      let found = search_from-Found b 0 1 (b.bit_count + 1) 0 i e in
      record {
        inside = found.start.0;
        was_clear = found.start.1;
        first = λ j lt. search_from-first b 0 (b.bit_count + 1) 0 i e j (omega arith) lt;
        after = set_one i found.start.0;
        valid = set_bit-IsValid 1 b i (not32 0) v;
        same_count = bit_count-set_bit 1 b i (not32 0);
      }

  -- `bitmap_alloc_nbits(bitmap, 0, 1)`, as every caller uses it, on success.
  pub alloc_nbits-Allocated :
      (i : ℕ) (b' : Bitmap) → alloc_nbits b 0 1 ≡ (some i, b') → Allocated b i b'
  unfolding alloc_nbits
  alloc_nbits-Allocated i b' h = elim (Option-cases (find_run b 0 1)) [
    | inl e ↦ cc (rw (e, alloc_nbits) at h)
    | inr (k, e) ↦
        let h' : ◌≡◌ {A = Option ℕ × Bitmap} (some k, set_bit b k 1 (not32 0)) (some i, b') =
          rw (e, alloc_nbits) at h in
        let same_index : k ≡ i = cc in
        subst (λ c. Allocated b i c) (ap (λ r. r.1) h')
          (subst (λ x. Allocated b x (set_bit b k 1 (not32 0))) same_index (alloc_one k e))
  ]

  -- The same call fails only where every bit is set, and then changes nothing.
  pub alloc_nbits-full :
      (b' : Bitmap)
      → alloc_nbits b 0 1 ≡ (none, b')
      → (b' ≡ b) × ((j : ℕ) → j < b.bit_count → get_bit b j ≢ 0)
  unfolding alloc_nbits
  alloc_nbits-full b' h = elim (Option-cases (find_run b 0 1)) [
    | inr (k, e) ↦ cc (rw (e, alloc_nbits) at h)
    | inl e ↦
        let same : ◌≡◌ {A = Option ℕ × Bitmap} (none, b) (none, b') = rw (e, alloc_nbits) at h in
        (
          sym (ap (λ r. r.1) same),
          λ j lt. search_from-none b 0 (b.bit_count + 1) 0 (omega arith) e j (omega arith) lt,
        )
  ]

  -- The search compares the start index twice and the last index of a run never: with the first
  -- `count - 1` bits clear it takes index 0, whatever the last bit of the run holds.
  alloc_nbits-skips_last :
      (count : ℕ)
      → 2 ≤ count
      → ((k : ℕ) → suc k < count → (k < b.bit_count) × (get_bit b k ≡ 0))
      → (alloc_nbits b 0 count).0 ≡ some 0
  unfolding alloc_nbits
  alloc_nbits-skips_last count two clear =
      let start = clear 0 (omega arith) in
      let all =
        scan-complete b 0 (count - 1) 0
          (λ k lt. let e : 0 + k ≡ k = omega arith in rw e (clear k (omega arith))) in
      let found : find_run b 0 count ≡ some 0 =
        let fuel : b.bit_count + 1 ≡ suc b.bit_count = omega arith in
        rw fuel (ground (arith, all)) in
      rw (found, alloc_nbits)
