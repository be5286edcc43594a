-- ===== src/Fs/Mount.antt =====
-- The mounting of file systems in kernel/fs/fs.c: the table of file systems, the list of those that
-- are free and the list of those that are mounted.
use wjos.Common.{
  ℕ, zero, suc, ◌+◌, ◌≡◌, refl, Bool, true, false, ◌||◌, Option, none, some, List, [], ◌∷◌, ◌++◌,
  map, arith, ◌==◌, if◌then◌else◌, Bool-cases, inl, inr, ap, subst, sym,
}
use wjos.Sched.Lists.{count, count-append}
use wjos.Tools.Strings.{strcmp, copied}
use wjos.Fs.Calls.{Mount}

pub data FsType : Type 0 where
  devfs fatfs16 : FsType
  other_type : FsType

-- The operations that a type has, and none for an unknown one.
abbrev pub get_fs_op : FsType → Option FsType
get_fs_op FsType.devfs = some FsType.devfs
get_fs_op FsType.fatfs16 = some FsType.fatfs16
get_fs_op FsType.other_type = none

-- The two lists, and the operations of each entry of `fs_table`.
pub record Mounts : Type 0 where
  pub mounted_list : List Mount
  pub free_list : List ℕ
  pub op : ℕ → Option FsType

-- Each entry is inserted at the head.
unfoldable pub free_all : ℕ → ℕ → List ℕ → List ℕ
free_all zero i free = free
free_all (suc n) i free = free_all n (i + 1) (i ∷ free)

unfoldable pub mount_list_init : (ℕ → Option FsType) → Mounts
unfolding free_all
mount_list_init op = record { mounted_list = []; free_list = free_all 8 0 []; op = op }

-- The search for a file system that is mounted at this point.
unfoldable pub is_mounted : List ℕ → List Mount → Bool
unfolding strcmp
is_mounted point [] = false
is_mounted point (m ∷ mounts) = (strcmp m.point point 512 == 0) || is_mounted point mounts

abbrev pub put_op : (ℕ → Option FsType) → ℕ → FsType → ℕ → Option FsType
put_op op fs type = λ i. if i == fs then some type else op i

-- What the driver of a type, a major and a minor number answers to `mount`, of an entry.
module _ (op_mount : FsType → ℕ → ℕ → ℕ → Bool) where
  -- An entry taken from the free list, for operations that were found or not.
  unfoldable pub mount_entry : ℕ → Option FsType → List ℕ → ℕ → ℕ → Mounts → Option ℕ × Mounts
  unfolding copied
  mount_entry fs none point major minor m =
      (none, record m { free_list = m.free_list ++ (fs ∷ []) })
  mount_entry fs (some type) point major minor m =
      let m' = record m { op = put_op m.op fs type } in
      if op_mount type fs major minor
      then (
        some fs,
        record m' {
          mounted_list = m.mounted_list ++ (record { point = copied point 512; fs = fs } ∷ []);
        },
      )
      else (none, record m' { free_list = m.free_list ++ (fs ∷ []) })

  unfoldable pub mount_free : List ℕ → FsType → List ℕ → ℕ → ℕ → Mounts → Option ℕ × Mounts
  unfolding mount_entry
  mount_free [] type point major minor m = (none, m)
  mount_free (fs ∷ free) type point major minor m =
      mount_entry fs (get_fs_op type) point major minor (record m { free_list = free })

  -- The file system mounted, or none.
  unfoldable pub mount : FsType → List ℕ → ℕ → ℕ → Mounts → Option ℕ × Mounts
  unfolding mount_free is_mounted
  mount type point major minor m =
      if is_mounted point m.mounted_list
      then (none, m)
      else mount_free m.free_list type point major minor m

  -- `root_fs`, and what `mount` has made of the lists; none is a failed `ASSERT`. The disk is device
  -- 2 and the root is its part 0xb1.
  unfoldable pub mount_root : Option ℕ × Mounts → Option (ℕ × Mounts)
  unfolding mount
  mount_root (none, m) = none
  mount_root (some fs, m) =
      root_end (mount FsType.fatfs16 (47 ∷ 104 ∷ 111 ∷ 109 ∷ 101 ∷ []) 2 0xb1 m)
    where
      root_end : Option ℕ × Mounts → Option (ℕ × Mounts)
      root_end (none, m') = none
      root_end (some root_fs, m') = some (root_fs, m')

  unfoldable pub fs_init : (ℕ → Option FsType) → Option (ℕ × Mounts)
  unfolding mount_root mount mount_list_init
  fs_init op = mount_root (mount FsType.devfs (47 ∷ 100 ∷ 101 ∷ 118 ∷ []) 0 0 (mount_list_init op))

-- How often an entry stands in the two lists.
abbrev pub places : ℕ → Mounts → ℕ
places i m = count i (map (λ (x : Mount). x.fs) m.mounted_list) + count i m.free_list

-- The mounts behind a failure, and behind a success.
abbrev pub Added : List ℕ → Mounts → Option ℕ → Mounts → Type 0
Added point m none m' = m'.mounted_list ≡ m.mounted_list
Added point m (some fs) m' =
    (is_mounted point m.mounted_list ≡ false)
    × (m'.mounted_list ≡ m.mounted_list ++ (record { point = copied point 512; fs = fs } ∷ []))

-- What a mount comes to: no entry is lost or listed twice, and one that was mounted is a new mount at
-- the end, of a point that agreed with none; else no mount has changed.
pub record Mounting (point : List ℕ) (m : Mounts) (r : Option ℕ × Mounts) : Type 0 where
  pub placed : (i : ℕ) → places i r.1 ≡ places i m
  pub added : Added point m r.0 r.1

map-snoc :
    (xs : List Mount) (x : Mount)
    → map (λ (m : Mount). m.fs) (xs ++ (x ∷ [])) ≡ map (λ (m : Mount). m.fs) xs ++ (x.fs ∷ [])
map-snoc [] x = refl
map-snoc (y ∷ xs) x = ap (λ l. y.fs ∷ l) (map-snoc xs x)

count_one : (i fs : ℕ) (l : List ℕ) → count i (fs ∷ l) ≡ count i (fs ∷ []) + count i l
count_one i fs l = ground arith

-- An entry that goes to the end of the free list, and one that goes to the end of the mounts.
moved_back : (i fs : ℕ) (free l : List ℕ) → l ≡ fs ∷ free → count i (free ++ (fs ∷ [])) ≡ count i l
moved_back i fs free l taken = omega (
  arith,
  ap (count i) taken,
  count-append i free (fs ∷ []),
  count_one i fs free,
  count_one i fs [],
)

moved_on :
    (i fs : ℕ) (free l : List ℕ) (mounts : List Mount) (point : List ℕ)
    → l ≡ fs ∷ free
    → count i (map (λ (m : Mount). m.fs) (mounts ++ (record { point = point; fs = fs } ∷ [])))
        + count i free
      ≡ count i (map (λ (m : Mount). m.fs) mounts) + count i l
moved_on i fs free l mounts point taken = omega (
  arith,
  ap (count i) taken,
  ap (count i) (map-snoc mounts (record { point = point; fs = fs })),
  count-append i (map (λ (m : Mount). m.fs) mounts) (fs ∷ []),
  count_one i fs free,
  count_one i fs [],
)

module _ (op_mount : FsType → ℕ → ℕ → ℕ → Bool) where
  mount_entry-Mounting :
      (fs : ℕ) (type : Option FsType) (point : List ℕ) (major minor : ℕ) (free : List ℕ)
      (m : Mounts)
      → m.free_list ≡ fs ∷ free
      → is_mounted point m.mounted_list ≡ false
      → Mounting point m
          (mount_entry op_mount fs type point major minor (record m { free_list = free }))
  unfolding mount_entry
  mount_entry-Mounting fs none point major minor free m taken new = record {
    placed = λ i. omega (arith, moved_back i fs free m.free_list taken);
    added = refl;
  }
  mount_entry-Mounting fs (some type) point major minor free m taken new =
      by_answer (op_mount type fs major minor)
    where
      m' : Mounts
      m' = record m { free_list = free; op = put_op m.op fs type }

      by_answer :
          (b : Bool)
          → Mounting point m (
              if b
              then (
                some fs,
                record m' {
                  mounted_list =
                      m.mounted_list ++ (record { point = copied point 512; fs = fs } ∷ []);
                },
              )
              else (none, record m' { free_list = free ++ (fs ∷ []) }))
      by_answer true = record {
        placed = λ i. moved_on i fs free m.free_list m.mounted_list (copied point 512) taken;
        added = (new, refl);
      }
      by_answer false = record {
        placed = λ i. omega (arith, moved_back i fs free m.free_list taken);
        added = refl;
      }

  mount_free-Mounting :
      (l : List ℕ) (type : FsType) (point : List ℕ) (major minor : ℕ) (m : Mounts)
      → m.free_list ≡ l
      → is_mounted point m.mounted_list ≡ false
      → Mounting point m (mount_free op_mount l type point major minor m)
  unfolding mount_free
  mount_free-Mounting [] type point major minor m all new = record {
    placed = λ i. refl;
    added = refl;
  }
  mount_free-Mounting (fs ∷ free) type point major minor m all new =
      mount_entry-Mounting fs (get_fs_op type) point major minor free m all new

  -- On every path a mount neither loses an entry of the table nor lists it twice, and it adds at most
  -- one file system, whose point agrees with none that is mounted.
  pub mount-Mounting :
      (type : FsType) (point : List ℕ) (major minor : ℕ) (m : Mounts)
      → Mounting point m (mount op_mount type point major minor m)
  unfolding mount
  mount-Mounting type point major minor m = elim (Bool-cases (is_mounted point m.mounted_list)) [
    | inl e ↦
        subst
          (λ (b : Bool).
            Mounting point m
              (if b then (none, m) else mount_free op_mount m.free_list type point major minor m))
          (sym e) (record { placed = λ i. refl; added = refl })
    | inr e ↦
        subst
          (λ (b : Bool).
            Mounting point m
              (if b then (none, m) else mount_free op_mount m.free_list type point major minor m))
          (sym e) (mount_free-Mounting m.free_list type point major minor m refl e)
  ]
