-- ===== src/Fs/Inherit.antt =====
-- The files that a child inherits in `copy_opened_files` of kernel/core/task.c.
use wjos.Common.{ℕ, ◌+◌, ◌≡◌, refl, none, some, [], ◌∷◌, arith, replicate, length, ap, ◌∙◌}
use wjos.Fs.Files.{Fds, Files, file_inc_ref, copy_opened_files}
use wjos.Fs.Refs.{holds, fd_count}

-- A child without descriptors gets those of its parent.
pub copy_opened_files-fds :
    (parent : Fds) (files : Files)
    → (copy_opened_files parent (replicate (length parent) none) files).0 ≡ parent
unfolding copy_opened_files
copy_opened_files-fds [] files = refl
copy_opened_files-fds (none ∷ parent) files =
    ap (λ (l : Fds). none ∷ l) (copy_opened_files-fds parent files)
copy_opened_files-fds (some f ∷ parent) files =
    ap (λ (l : Fds). some f ∷ l) (copy_opened_files-fds parent (file_inc_ref files f))

inc_ref-ref :
    (files : Files) (f g : ℕ) → (file_inc_ref files g f).ref ≡ (files f).ref + holds f (some g)
unfolding file_inc_ref
inc_ref-ref files f g = ground arith

-- Each file is held once more for each descriptor of the parent that holds it.
pub copy_opened_files-refs :
    (parent : Fds) (files : Files) (f : ℕ)
    → ((copy_opened_files parent (replicate (length parent) none) files).1 f).ref
      ≡ (files f).ref + fd_count f parent
unfolding copy_opened_files
copy_opened_files-refs [] files f = omega arith
copy_opened_files-refs (none ∷ parent) files f = copy_opened_files-refs parent files f ∙ omega arith
copy_opened_files-refs (some g ∷ parent) files f =
    copy_opened_files-refs parent (file_inc_ref files g) f ∙ omega (arith, inc_ref-ref files f g)
