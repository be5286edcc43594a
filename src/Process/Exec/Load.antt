-- ===== src/Process/Exec/Load.antt =====
-- The loader of ELF files in kernel/core/task.c. A header is its bytes; what a failed read leaves in it
-- is what it had before, since the test for a short read takes -1 for a large number.
use wjos.Common.{
  ℕ, zero, suc, ◌+◌, ◌-◌, ◌*◌, Bool, true, false, not, ◌&&◌, Option, none, some, List, [], ltb,
  ◌==◌, if◌then◌else◌, length, get_or,
}
use wjos.Common.Words.{add32}
use wjos.Memory.Alloc.{mem_page_size}
use wjos.Memory.Table.{Memory, get_paddr}
use wjos.Memory.User.{memory_task_base, memory_alloc_for_page_dir}
use wjos.Memory.Copy.{copy_bytes}
use wjos.Fs.Calls.{FsOp, System, sys_open, sys_read, sys_lseek, sys_close}

-- The state of a load: the files, the memory, and the heap's start where it was set.
pub record Loaded (S : Type 0) : Type 0 where
  pub sys : System S
  pub mem : Memory
  pub heap : Option ℕ

-- Fields of two and of four bytes.
abbrev pub half_at : List ℕ → ℕ → ℕ
half_at bytes i = get_or bytes i 0 + get_or bytes (i + 1) 0 * 0x100

abbrev pub word_at : List ℕ → ℕ → ℕ
word_at bytes i = half_at bytes i + half_at bytes (i + 2) * 0x1_0000

-- `Elf32_Ehdr` and `Elf32_Phdr`.
abbrev pub ehdr_size : ℕ
ehdr_size = 52

abbrev pub phdr_size : ℕ
phdr_size = 32

abbrev is_elf : List ℕ → Bool
is_elf hdr =
    (get_or hdr 0 0 == 0x7F)
    && (get_or hdr 1 0 == 69)
    && (get_or hdr 2 0 == 76)
    && (get_or hdr 3 0 == 70)

abbrev e_entry : List ℕ → ℕ
e_entry hdr = word_at hdr 24

abbrev e_phoff : List ℕ → ℕ
e_phoff hdr = word_at hdr 28

abbrev e_phentsize : List ℕ → ℕ
e_phentsize hdr = half_at hdr 42

abbrev e_phnum : List ℕ → ℕ
e_phnum hdr = half_at hdr 44

abbrev p_type : List ℕ → ℕ
p_type phdr = word_at phdr 0

abbrev p_offset : List ℕ → ℕ
p_offset phdr = word_at phdr 4

abbrev p_vaddr : List ℕ → ℕ
p_vaddr phdr = word_at phdr 8

abbrev p_filesz : List ℕ → ℕ
p_filesz phdr = word_at phdr 16

abbrev p_memsz : List ℕ → ℕ
p_memsz phdr = word_at phdr 20

-- A program header that is loaded: `PT_LOAD`, at the addresses of tasks.
abbrev is_loaded : List ℕ → Bool
is_loaded phdr = (p_type phdr == 1) && not (ltb (p_vaddr phdr) memory_task_base)

-- Bytes that were read, as many as wanted or not, to a physical address.
unfoldable pub read_to : ℕ → ℕ → Option (List ℕ) → Memory → Bool × Memory
unfolding copy_bytes
read_to paddr curr_size none m = (false, m)
read_to paddr curr_size (some bytes) m =
    (not (ltb (length bytes) curr_size), record m { word = copy_bytes m.word paddr bytes })

abbrev pub if_read :
    {S : Type 0}
    → Bool × Loaded S
    → (Loaded S → Option (Bool × Loaded S))
    → Option (Bool × Loaded S)
if_read (false, l) rest = some (false, l)
if_read (true, l) rest = rest l

module _ {S : Type 0} (op : ℕ → FsOp S) where
  -- One round of the loop of `load_phdr`.
  unfoldable pub load_page : ℕ → ℕ → ℕ → ℕ → Loaded S → Bool × Loaded S
  unfolding read_to get_paddr sys_read
  load_page file page_dir vaddr curr_size l =
      let (res, sys) = sys_read op l.sys file curr_size in
      let (ok, mem) = read_to (get_paddr l.mem page_dir vaddr) curr_size res l.mem in
      (ok, record l { sys = sys; mem = mem })

  -- The loop, on fuel: each round takes a byte or more off the size.
  unfoldable pub load_pages : ℕ → ℕ → ℕ → ℕ → ℕ → Loaded S → Option (Bool × Loaded S)
  unfolding load_page
  load_pages zero file page_dir vaddr size l = if size == 0 then some (true, l) else none
  load_pages (suc fuel) file page_dir vaddr size l =
      let curr_size = if ltb mem_page_size size then mem_page_size else size in
      let rest =
        if_read (load_page file page_dir vaddr curr_size l)
          (load_pages fuel file page_dir (add32 vaddr curr_size) (size - curr_size)) in
      if size == 0 then some (true, l) else rest

  -- `load_phdr`, from the pages for the segment, whose result is never negative.
  unfoldable pub load_segment :
      ℕ → List ℕ → ℕ → Option (ℕ × Memory) → Loaded S → Option (Bool × Loaded S)
  unfolding load_pages sys_lseek
  load_segment file phdr page_dir none l = none
  load_segment file phdr page_dir (some (_, mem)) l =
      let (ok, sys) = sys_lseek op l.sys file (p_offset phdr) 0 in
      if ok
      then load_pages (p_filesz phdr) file page_dir (p_vaddr phdr) (p_filesz phdr)
          (record l { sys = sys; mem = mem })
      else some (false, record l { sys = sys; mem = mem })

  unfoldable pub load_phdr : ℕ → List ℕ → ℕ → Loaded S → Option (Bool × Loaded S)
  unfolding load_segment memory_alloc_for_page_dir
  load_phdr file phdr page_dir l =
      load_segment file phdr page_dir
        (memory_alloc_for_page_dir l.mem page_dir (p_vaddr phdr) (p_memsz phdr) 7) l

  -- A header that was read: `none` where it is too short, the old bytes where the read has failed.
  abbrev header_read : ℕ → List ℕ → Option (List ℕ) → Option (List ℕ)
  header_read size old none = some old
  header_read size old (some bytes) = if ltb (length bytes) size then none else some bytes

  -- The heap starts behind a segment that was loaded.
  abbrev with_heap : List ℕ → Option (Bool × Loaded S) → Option (Bool × Loaded S)
  with_heap phdr none = none
  with_heap phdr (some (false, l)) = some (false, l)
  with_heap phdr (some (true, l)) =
      some (true, record l { heap = some (add32 (p_vaddr phdr) (p_memsz phdr)) })

  abbrev and_load :
      Option (Bool × Loaded S) → (Loaded S → Option (Bool × Loaded S)) → Option (Bool × Loaded S)
  and_load none rest = none
  and_load (some r) rest = if_read r rest

  -- One program header, and what follows.
  unfoldable pub load_header :
      ℕ
      → ℕ
      → Option (List ℕ)
      → Loaded S
      → (List ℕ → Loaded S → Option (Bool × Loaded S))
      → Option (Bool × Loaded S)
  unfolding load_phdr
  load_header file page_dir none l rest = some (false, l)
  load_header file page_dir (some phdr) l rest =
      if is_loaded phdr
      then and_load (with_heap phdr (load_phdr file phdr page_dir l)) (rest phdr)
      else rest phdr l

  -- The loop over the program headers, with `n` of them left.
  unfoldable pub load_headers : ℕ → ℕ → ℕ → ℕ → ℕ → List ℕ → Loaded S → Option (Bool × Loaded S)
  unfolding load_header sys_lseek sys_read
  load_headers zero file page_dir phoff phentsize phdr l = some (true, l)
  load_headers (suc n) file page_dir phoff phentsize phdr l =
      let (ok, sys) = sys_lseek op l.sys file phoff 0 in
      let (res, sys') = sys_read op sys file phdr_size in
      if ok
      then load_header file page_dir (header_read phdr_size phdr res) (record l { sys = sys' })
          (load_headers n file page_dir (add32 phoff phentsize) phentsize)
      else some (false, record l { sys = sys })

  -- The end of `load_elf_file`: the entry, or 0. The file 0 is not closed where the load fails.
  unfoldable pub load_end : ℕ → List ℕ → Option (Bool × Loaded S) → Option (ℕ × Loaded S)
  unfolding sys_close
  load_end file hdr none = none
  load_end file hdr (some (true, l)) =
      some (e_entry hdr, record l { sys = (sys_close op l.sys file).1 })
  load_end file hdr (some (false, l)) =
      some (0, if file == 0 then l else record l { sys = (sys_close op l.sys file).1 })

  -- From the header of the file.
  unfoldable pub load_file : ℕ → ℕ → List ℕ → Option (List ℕ) → Loaded S → Option (ℕ × Loaded S)
  unfolding load_end load_headers
  load_file file page_dir stack none l = load_end file [] (some (false, l))
  load_file file page_dir stack (some hdr) l = load_end file hdr (
      if is_elf hdr
      then load_headers (e_phnum hdr) file page_dir (e_phoff hdr) (e_phentsize hdr) stack l
      else some (false, l))

  -- From the file: -1 is closed too.
  unfoldable pub load_opened : List ℕ → ℕ → Option ℕ × System S → Loaded S → Option (ℕ × Loaded S)
  unfolding load_file sys_read sys_close
  load_opened stack page_dir (none, sys) l =
      some (0, record l { sys = (sys_close op sys 0xFFFF_FFFF).1 })
  load_opened stack page_dir (some file, sys) l =
      let (res, sys') = sys_read op sys file ehdr_size in
      load_file file page_dir stack (header_read ehdr_size stack res) (record l { sys = sys' })

  unfoldable pub load_elf_file : List ℕ → List ℕ → ℕ → Loaded S → Option (ℕ × Loaded S)
  unfolding load_opened sys_open
  load_elf_file stack name page_dir l = load_opened stack page_dir (sys_open op l.sys name 0) l
