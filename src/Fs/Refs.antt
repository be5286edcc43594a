-- ===== src/Fs/Refs.antt =====
-- Reference counts of kernel/fs against the descriptors that hold the files.
use wjos.Common.{
  ℕ, zero, suc, ◌+◌, ◌-◌, ◌≤◌, ◌<◌, ◌≡◌, refl, ◌≢◌, inl, inr, Bool, true, false, Option, none, some,
  [], ◌∷◌, arith, ◌==◌, if◌then◌else◌, get_or, set, length, length-set, Bool-cases, ==_iff, ap, ◌∙◌,
  sym,
}
use wjos.Fs.Files.{
  file_free, file_inc_ref, Fds, task_ofile_nr, free_fd, task_alloc_fd, task_remove_fd, task_file,
}
use wjos.Fs.Calls.{FsOp, System, is_fd_bed, release, sys_close, dup_end, sys_dup}

-- How many descriptors hold file `f`.
abbrev pub holds : ℕ → Option ℕ → ℕ
holds f none = 0
holds f (some g) = if g == f then 1 else 0

abbrev pub fd_count : ℕ → Fds → ℕ
fd_count f [] = 0
fd_count f (p ∷ fds) = holds f p + fd_count f fds

fd_count-set :
    (f : ℕ) (fds : Fds) (i : ℕ) (p : Option ℕ)
    → i < length fds
    → fd_count f (set fds i p) + holds f (get_or fds i none) ≡ fd_count f fds + holds f p
fd_count-set f [] i p lt = absurd (omega arith)
fd_count-set f (q ∷ fds) zero p lt = omega arith
fd_count-set f (q ∷ fds) (suc i) p lt = omega (arith, fd_count-set f fds i p (omega (arith, lt)))

get_or-suc :
    (fd i : ℕ)
    → i < fd
    → (f : ℕ) (fds : Fds) → get_or fds (fd - (i + 1)) none ≡ none
    → get_or (some f ∷ fds) (fd - i) none ≡ none
get_or-suc fd i lt f fds e =
    let k : fd - i ≡ suc (fd - (i + 1)) = omega (arith, lt) in
    ap (λ j. get_or (some f ∷ fds) j none) k ∙ e

-- The descriptor found is the first free one.
free_fd-lem :
    (i : ℕ) (fds : Fds) (fd : ℕ)
    → free_fd i fds ≡ some fd
    → (i ≤ fd) × (fd < i + length fds) × (get_or fds (fd - i) none ≡ none)
unfolding free_fd
free_fd-lem i [] fd h = absurd (ground arith)
free_fd-lem i (none ∷ fds) fd h = ground arith
free_fd-lem i (some f ∷ fds) fd h =
    let (lo, hi, e) = free_fd-lem (i + 1) fds fd h in
    (omega (arith, lo), omega (arith, hi), get_or-suc fd i (omega (arith, lo)) f fds e)

-- Every file's count is the number of the running task's descriptors that hold it, and of the
-- other tasks', `others`.
abbrev pub IsCounted : {S : Type 0} → (ℕ → ℕ) → System S → Type 0
IsCounted others sys =
    ((f : ℕ) → (sys.files f).ref ≡ others f + fd_count f sys.fds) × (length sys.fds ≡ task_ofile_nr)

alloc_fd-count :
    (fds : Fds) (i fd : ℕ) (fds' : Fds)
    → task_alloc_fd fds i ≡ (some fd, fds')
    → ((f : ℕ) → fd_count f fds' ≡ fd_count f fds + holds f (some i)) × (length fds' ≡ length fds)
unfolding task_alloc_fd
alloc_fd-count fds i fd fds' h = go (free_fd 0 fds) refl h
  where
    go :
        (o : Option ℕ)
        → free_fd 0 fds ≡ o
        → let r : Option ℕ × Fds = elim o [
          | none ↦ (none, fds)
          | some k ↦ (some k, set fds k (some i))
        ] in
          r ≡ (some fd, fds')
          → ((f : ℕ) → fd_count f fds' ≡ fd_count f fds + holds f (some i))
            × (length fds' ≡ length fds)
    go none e h = absurd (ground arith)
    go (some k) e h =
        let e1 : fds' ≡ set fds k (some i) = sym (ap (λ p. p.1) h) in
        let (lo, hi, free) = free_fd-lem 0 fds k e in
        (
          λ f.
              ap (fd_count f) e1
              ∙ ground (arith, fd_count-set f fds k (some i) (omega (arith, hi)), free),
          ap length e1 ∙ length-set fds k (some i),
        )

remove_fd-count :
    (fds : Fds)
    → length fds ≡ task_ofile_nr
    → (fd i : ℕ) → fd ≢ 0
    → task_file fds fd ≡ some i
    → ((f : ℕ) → fd_count f (task_remove_fd fds fd) + holds f (some i) ≡ fd_count f fds)
      × (length (task_remove_fd fds fd) ≡ length fds)
unfolding task_file task_remove_fd
remove_fd-count fds len fd i pos e =
    let lt : fd < 128 = ground (arith, e) in
    let held : get_or fds fd none ≡ some i = ground (arith, e) in
    let cleared : task_remove_fd fds fd ≡ set fds fd none = ground (arith, lt, pos) in
    (
      λ f.
          ap (λ l. fd_count f l + holds f (some i)) cleared
          ∙ ap (λ p. fd_count f (set fds fd none) + holds f p) (sym held)
          ∙ fd_count-set f fds fd none (omega (arith, lt, len))
          ∙ omega arith,
      ap length cleared ∙ length-set fds fd none,
    )

module _ {S : Type 0} (others : ℕ → ℕ) (sys : System S) (c : IsCounted others sys) where
  dup_end-IsCounted :
      (i : ℕ) (r : Option ℕ × Fds)
      → task_alloc_fd sys.fds i ≡ r
      → IsCounted others (dup_end sys i r).1
  unfolding dup_end file_inc_ref
  dup_end-IsCounted i (none, fds) e = c
  dup_end-IsCounted i (some fd, fds) e =
      let (counts, len) = alloc_fd-count sys.fds i fd fds e in
      ((λ f. ground (arith, counts f, c.0 f)), len ∙ c.1)

  -- Duplicating a descriptor, whatever it is, keeps the counts right: the new descriptor is counted,
  -- and where there is none nothing changes.
  sys_dup-IsCounted : (fd : ℕ) → IsCounted others (sys_dup sys fd).1
  unfolding sys_dup
  sys_dup-IsCounted fd = elim (Bool-cases (is_fd_bed fd)) [
    | inl e ↦ rw (e, if◌then◌else◌) c
    | inr e ↦ rw (e, if◌then◌else◌) (go (task_file sys.fds fd))
  ]
    where
      go :
          (o : Option ℕ)
          → let r : Option ℕ × System S = elim o [
            | none ↦ (none, sys)
            | some i ↦ dup_end sys i (task_alloc_fd sys.fds i)
          ] in
            IsCounted others r.1
      go none = c
      go (some i) = dup_end-IsCounted i (task_alloc_fd sys.fds i) refl

  module _ (op : ℕ → FsOp S) where
    release-fds : (i : ℕ) → (release op sys i).fds ≡ sys.fds
    unfolding release
    release-fds i = ground arith

    release-ref_self : (i : ℕ) → ((release op sys i).files i).ref ≡ (sys.files i).ref - 1
    unfolding release file_free
    release-ref_self i = ground arith

    release-ref_ne : (i f : ℕ) → f ≢ i → ((release op sys i).files f).ref ≡ (sys.files f).ref
    unfolding release file_free
    release-ref_ne i f ne = ground (arith, ne)

    -- The system after the reference is gone and the descriptor cleared.
    close_some :
        (fd i : ℕ)
        → fd ≢ 0
        → task_file sys.fds fd ≡ some i
        → IsCounted others (record (release op sys i) { fds = task_remove_fd sys.fds fd })
    close_some fd i pos e =
        let (counts, len) = remove_fd-count sys.fds c.1 fd i pos e in
        (
          λ f. elim (Bool-cases (f == i)) [
            | inl s ↦
                let same : f ≡ i = (==_iff f i).0 s in
                ap (λ g. ((release op sys i).files g).ref) same
                ∙ release-ref_self i
                ∙ ap (λ g. (sys.files g).ref - 1) (sym same)
                ∙ ground (arith, counts f, c.0 f, same)
            | inr s ↦
                let ne : f ≢ i = ground (arith, s) in
                release-ref_ne i f ne ∙ ground (arith, counts f, c.0 f, ne)
          ],
          len ∙ c.1,
        )

    -- Closing a descriptor other than 0 keeps the counts right, on every path.
    pub sys_close-IsCounted : (fd : ℕ) → fd ≢ 0 → IsCounted others (sys_close op sys fd).1
    unfolding sys_close
    sys_close-IsCounted fd pos = elim (Bool-cases (is_fd_bed fd)) [
      | inl e ↦ rw (e, if◌then◌else◌) c
      | inr e ↦ rw (e, if◌then◌else◌) (go (task_file sys.fds fd) refl)
    ]
      where
        go :
            (o : Option ℕ)
            → task_file sys.fds fd ≡ o
            → let r : Bool × System S = elim o [
              | none ↦ (false, sys)
              | some i ↦ (true, record (release op sys i) { fds = task_remove_fd sys.fds fd })
            ] in
              IsCounted others r.1
        go none e = c
        go (some i) e = close_some fd i pos e

    -- Closing descriptor 0 gives the file's reference back, but the descriptor goes on holding the
    -- file: with a count of 1 it then holds a free entry of the file table.
    sys_close-keeps_stdin :
        (i : ℕ)
        → task_file sys.fds 0 ≡ some i
        → (sys.files i).ref ≡ 1
        → (task_file (sys_close op sys 0).1.fds 0 ≡ some i)
          × (((sys_close op sys 0).1.files i).ref ≡ 0)
    unfolding sys_close is_fd_bed task_remove_fd
    sys_close-keeps_stdin i e one = rw e (e, release-ref_self i ∙ ground (arith, one))
