-- ===== src/Fat/Link.antt =====
-- `cluster_set_next`: the link that it writes, and everything that it leaves.
use wjos.Common.{
  ℕ, zero, suc, ◌+◌, ◌*◌, ◌/◌, ◌%◌, ◌≤◌, ◌<◌, ◌≡◌, refl, true, false, some, List, arith, leb, ◌==◌,
  if◌then◌else◌, Bool-cases, length, inl, inr, ap, ◌∙◌, sym,
}
use wjos.Fat.{Fat, bread_sector, get16, put16, done, put_next, cluster_set_next}
use wjos.Fat.Table.{
  IsSound, HasEntry, SameShape, next_of, is_copy, write_copies-ok, bread_sector-cases,
  bread_sector-buffer, bread_sector-disk, bread_sector-curr, bread_sector-IsSound,
  bread_sector-SameShape, sector_eq, offset_eq, get16-put16_self, get16-put16_ne, length-put16,
}

-- What a write of link `n` for cluster `c` does.
pub record Linked (fat : Fat) (c n : ℕ) (fat' : Fat) : Type 0 where
  pub sound : IsSound fat'
  pub shape : SameShape fat fat'
  pub links : (d : ℕ) → HasEntry fat d → next_of fat' d ≡ (if d == c then n else next_of fat d)
  pub others :
      (x : ℕ) → fat.tbl_start + fat.tbl_cnt * fat.tbl_sectors ≤ x → fat'.disk x ≡ fat.disk x

module _ (fat : Fat) where
  -- Copies behind the first one do not meet the first table.
  is_copy_behind :
      (n sector q : ℕ)
      → q < fat.tbl_sectors
      → fat.tbl_sectors ≤ sector
      → is_copy fat.tbl_start fat.tbl_sectors n sector (fat.tbl_start + q) ≡ false
  is_copy_behind zero sector q h le = refl
  is_copy_behind (suc n) sector q h le =
      ground (arith, is_copy_behind n (sector + fat.tbl_sectors) q h (omega arith))

  is_copy_first :
      (n sector q : ℕ)
      → 0 < n
      → q < fat.tbl_sectors
      → is_copy fat.tbl_start fat.tbl_sectors n sector (fat.tbl_start + q) ≡ (q == sector)
  is_copy_first zero sector q pos h = absurd (omega arith)
  is_copy_first (suc n) sector q pos h =
      ground (arith, is_copy_behind n (sector + fat.tbl_sectors) q h (omega arith))

  is_copy_outside :
      (n sector x : ℕ)
      → fat.tbl_start + sector + n * fat.tbl_sectors < x + fat.tbl_sectors
      → is_copy fat.tbl_start fat.tbl_sectors n sector x ≡ false
  is_copy_outside zero sector x h = refl
  is_copy_outside (suc n) sector x h =
      ground (arith, is_copy_outside n (sector + fat.tbl_sectors) x (omega arith))

  module _ (s : IsSound fat) (c n : ℕ) (h : HasEntry fat c)
      (curr : fat.curr_sector ≡ some (fat.tbl_start + c * 2 / 512))
      (loaded : fat.fat_buffer ≡ fat.disk (fat.tbl_start + c * 2 / 512)) where
    abbrev q : ℕ
    q = c * 2 / 512

    abbrev buffer : List ℕ
    buffer = put16 fat.fat_buffer (c * 2 % 512) n

    abbrev linked : Fat
    linked = record fat {
      fat_buffer = buffer;
      disk =
          λ x. if is_copy fat.tbl_start fat.tbl_sectors fat.tbl_cnt q x then buffer else fat.disk x;
    }

    linked-first :
        (p : ℕ)
        → p < fat.tbl_sectors
        → linked.disk (fat.tbl_start + p)
          ≡ (if p == q then buffer else fat.disk (fat.tbl_start + p))
    linked-first p hp =
        ap (λ b. if b then buffer else fat.disk (fat.tbl_start + p))
          (is_copy_first fat.tbl_cnt q p s.copies hp)

    length-buffer : length buffer ≡ 512
    length-buffer = omega (
      arith,
      length-put16 fat.fat_buffer (c * 2 % 512) n,
      ap length loaded,
      s.sectors (fat.tbl_start + q),
    )

    linked-IsSound : IsSound linked
    linked-IsSound = record {
      sec_size = s.sec_size;
      sectors = λ x. ground (arith, s.sectors x, length-buffer);
      cached = λ x e.
          let here : x ≡ fat.tbl_start + q = ground arith in
          rw here (ground (arith, linked-first q h.in_table));
      readable = s.readable;
      copies = s.copies;
    }

    go_same :
        (d : ℕ)
        → d ≡ c
        → get16
            (if (d * 2 / 512) == q then buffer else fat.disk (fat.tbl_start + d * 2 / 512))
            (d * 2 % 512)
          ≡ n
    go_same d e =
        let yes_q : ((c * 2 / 512) == q) ≡ true = ground arith in
        rw (e, yes_q, if◌then◌else◌)
          (get16-put16_self fat.fat_buffer (c * 2 % 512) n
            (omega (arith, ap length loaded, s.sectors (fat.tbl_start + q))))

    linked-links :
        (d : ℕ) → HasEntry fat d → next_of linked d ≡ (if d == c then n else next_of fat d)
    linked-links d hd =
        let p = d * 2 / 512 in
        let o = d * 2 % 512 in
        let read : next_of linked d
            ≡ get16 (if p == q then buffer else fat.disk (fat.tbl_start + p)) o =
          ap (λ b. get16 b o) (linked-first p hd.in_table) in
        elim (Bool-cases (d == c)) [
          | inl e ↦ let same : d ≡ c = ground arith in rw (e, if◌then◌else◌) (read ∙ go_same d same)
          | inr e ↦
              rw (e, if◌then◌else◌)
                (read ∙ elim (Bool-cases (p == q)) [
                  | inl page ↦
                      let at : p ≡ q = ground arith in
                      rw (page, if◌then◌else◌)
                        (get16-put16_ne fat.fat_buffer (c * 2 % 512) o n (omega arith) (omega arith)
                            (ground arith)
                          ∙ ap (λ b. get16 b o)
                              (loaded ∙ ap (λ k. fat.disk (fat.tbl_start + k)) (sym at)))
                  | inr page ↦ rw (page, if◌then◌else◌)
                ])
        ]

    linked-others :
        (x : ℕ) → fat.tbl_start + fat.tbl_cnt * fat.tbl_sectors ≤ x → linked.disk x ≡ fat.disk x
    linked-others x le =
        let out : is_copy fat.tbl_start fat.tbl_sectors fat.tbl_cnt q x ≡ false =
          is_copy_outside fat.tbl_cnt q x (omega (arith, h.in_table)) in
        rw out

module _ (fat : Fat) (s : IsSound fat) (c n : ℕ) (h : HasEntry fat c) where
  abbrev loaded_fat : Fat
  loaded_fat = (bread_sector fat (fat.tbl_start + c * 2 / 512)).1

  shape1 : SameShape fat loaded_fat
  shape1 = bread_sector-SameShape fat s (fat.tbl_start + c * 2 / 512)

  HasEntry-loaded : (d : ℕ) → HasEntry fat d → HasEntry loaded_fat d
  HasEntry-loaded d e = record {
    valid = e.valid;
    in_table = omega (arith, e.in_table, shape1.tbl_sectors);
  }

  next_of-loaded : (d : ℕ) → next_of loaded_fat d ≡ next_of fat d
  next_of-loaded d =
      ap (λ (k : ℕ). get16 (loaded_fat.disk (k + d * 2 / 512)) (d * 2 % 512)) shape1.tbl_start
      ∙ ap (λ (g : ℕ → List ℕ). get16 (g (fat.tbl_start + d * 2 / 512)) (d * 2 % 512))
          (bread_sector-disk fat s (fat.tbl_start + c * 2 / 512))

  set_next_eq :
      cluster_set_next fat c n
      ≡ put_next (c * 2 / 512) (c * 2 % 512) n (bread_sector fat (fat.tbl_start + c * 2 / 512))
  unfolding cluster_set_next
  set_next_eq =
      let inside : leb fat.tbl_sectors (c * 2 / 512) ≡ false = ground (arith, h.in_table) in
      rw (sector_eq fat s c, offset_eq fat s c, h.valid, inside)

  at_sector : fat.tbl_start + c * 2 / 512 ≡ loaded_fat.tbl_start + c * 2 / 512
  at_sector = omega (arith, shape1.tbl_start)

  curr1 : loaded_fat.curr_sector ≡ some (loaded_fat.tbl_start + c * 2 / 512)
  curr1 = bread_sector-curr fat s (fat.tbl_start + c * 2 / 512) ∙ ap some at_sector

  buffer1 : loaded_fat.fat_buffer ≡ loaded_fat.disk (loaded_fat.tbl_start + c * 2 / 512)
  buffer1 =
      bread_sector-buffer fat s (fat.tbl_start + c * 2 / 512)
      ∙ ap (λ (g : ℕ → List ℕ). g (fat.tbl_start + c * 2 / 512))
          (sym (bread_sector-disk fat s (fat.tbl_start + c * 2 / 512)))
      ∙ ap loaded_fat.disk at_sector

  sound1 : IsSound loaded_fat
  sound1 = bread_sector-IsSound fat s (fat.tbl_start + c * 2 / 512)

  abbrev final_fat : Fat
  final_fat = linked loaded_fat sound1 c n (HasEntry-loaded c h) curr1 buffer1

  put_next_eq : cluster_set_next fat c n ≡ (done, final_fat)
  unfolding put_next
  put_next_eq =
      set_next_eq
      ∙ ap (put_next (c * 2 / 512) (c * 2 % 512) n)
          (bread_sector-cases fat s (fat.tbl_start + c * 2 / 512))
      ∙ write_copies-ok loaded_fat.tbl_cnt (c * 2 / 512)
          (record loaded_fat { fat_buffer = put16 loaded_fat.fat_buffer (c * 2 % 512) n })
          sound1.readable

  final-Linked : Linked fat c n final_fat
  final-Linked = record {
    sound = linked-IsSound loaded_fat sound1 c n (HasEntry-loaded c h) curr1 buffer1;
    shape = record {
      tbl_start = shape1.tbl_start;
      tbl_sectors = shape1.tbl_sectors;
      tbl_cnt = shape1.tbl_cnt;
    };
    links = λ d e. ground (
      arith,
      linked-links loaded_fat sound1 c n (HasEntry-loaded c h) curr1 buffer1 d
          (HasEntry-loaded d e),
      next_of-loaded d,
    );
    others = λ x le.
        let size : loaded_fat.tbl_cnt * loaded_fat.tbl_sectors ≡ fat.tbl_cnt * fat.tbl_sectors =
          ap (λ k. k * loaded_fat.tbl_sectors) shape1.tbl_cnt
          ∙ ap (λ k. fat.tbl_cnt * k) shape1.tbl_sectors in
        linked-others loaded_fat sound1 c n (HasEntry-loaded c h) curr1 buffer1 x
          (omega (arith, size, shape1.tbl_start))
        ∙ ap (λ (g : ℕ → List ℕ). g x) (bread_sector-disk fat s (fat.tbl_start + c * 2 / 512));
  }

  -- With no failing sector, `cluster_set_next` returns 0 and writes the link of cluster `c` in every
  -- copy of the table: no other link and no sector behind the tables changes.
  pub cluster_set_next-Linked :
      ((cluster_set_next fat c n).0 ≡ done) × Linked fat c n (cluster_set_next fat c n).1
  cluster_set_next-Linked = rw put_next_eq (refl, final-Linked)
