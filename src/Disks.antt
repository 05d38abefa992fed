-- ===== src/Disks.antt =====
-- `get_hd_info` and `read_string_from_file` of breakin.c. /sys is what fopen and fscanf find of it: a
-- file that cannot be opened is `none`. Its files are shorter than the buffer that `%s` fills. `none` is `trim` on
-- a buffer of white space, which holds nothing else if a blank file is the first one.
pub mod Found
use breakin.Base.{
  ℕ, ◌+◌, Bool, true, false, ◌||◌, List, [], ◌∷◌, ◌++◌, Option, none, some, ◌==◌, ltb,
  if◌then◌else◌, ◌>>=◌,
}
use breakin.Text.{Bytes, codes, bufsiz, copy_n, strncpy, starts_with}
use breakin.Trim.{trim_buffer}
use breakin.Number.{ℤ, atoi, skip_white, take_word}

abbrev pub max_disks : ℕ
max_disks = 24

abbrev pub Sys : Type 0
Sys = Bytes → Option Bytes

-- `fscanf(fp, "%s", data)`: at the end of the file it leaves `buf` alone
abbrev pub scan_word : Bytes → Bytes → Bytes
scan_word [] old = old
scan_word (c ∷ s) old = (take_word (c ∷ s)).0

-- `read_string_from_file(filename, data)` returns 1 with this text in the buffer, or 0
pub read_string_from_file : Sys → Bytes → Bytes → Option (Option Bytes)
unfolding trim_buffer
read_string_from_file sys filename buf = elim (sys filename) [
  | none ↦ some none
  | some content ↦ trim_buffer (scan_word (skip_white content) buf) >>= λ text. some (some text)
]

-- struct disk_info_t: `size` is the number of sectors before it is divided by 2097152, and
-- `performance` is not set here
pub record HardDisk : Type 0 where
  pub device : Bytes
  pub sectors : ℤ

-- the tests of the source
abbrev pub is_disk : Bytes → Bool
is_disk name = starts_with (codes "hd") name || starts_with (codes "sd") name

abbrev pub starts_one : Bytes → Bool
starts_one [] = false
starts_one (c ∷ s) = c == b'1'

-- `snprintf(filename, BUFSIZ, "%s/%s/…", BLOCK_DEV_PATH, d_name)`
abbrev pub attribute : Bytes → Bytes → Bytes
attribute name attr = copy_n bufsiz (codes "/sys/block/" ++ (name ++ attr))

-- the entry, from what was read of the size: the disk, or none for `continue`, and the buffer
abbrev pub sized : Bytes → Bytes → Option Bytes → Option HardDisk × Bytes
sized name buf none = (none, buf)
sized name buf (some text) = (some (record { device = strncpy 30 name; sectors = atoi text }), text)

-- behind `removable`
unfoldable pub read_size : Sys → Bytes → Bytes → Option (Option HardDisk × Bytes)
read_size sys name buf =
    read_string_from_file sys (attribute name (codes "/size")) buf >>= λ r. some (sized name buf r)

-- with what was read of `removable`
pub skip_removable : Sys → Bytes → Bytes → Option Bytes → Option (Option HardDisk × Bytes)
skip_removable sys name buf none = read_size sys name buf
skip_removable sys name buf (some text) =
    if starts_one text then some (none, text) else read_size sys name text

-- the body of the loop for a disk
unfoldable pub probe : Sys → Bytes → Bytes → Option (Option HardDisk × Bytes)
probe sys name buf = read_string_from_file sys (attribute name (codes "/removable")) buf >>= λ r.
    skip_removable sys name buf r

-- what is added to the table, and the table that the rest of the loop gives for the next count
pub add_disk :
    Option HardDisk × Bytes → ℕ → (ℕ → Bytes → Option (List HardDisk)) → Option (List HardDisk)
add_disk (none, buf) count next = next count buf
add_disk (some disk, buf) count next = next (count + 1) buf >>= λ more. some (disk ∷ more)

-- the loop over readdir: it stops when the table is full
pub read_disks : Sys → List Bytes → ℕ → Bytes → Option (List HardDisk)
read_disks sys [] count buf = some []
read_disks sys (name ∷ names) count buf =
    if ltb count max_disks
    then (if is_disk name
        then (probe sys name buf >>= λ p. add_disk p count (λ n b. read_disks sys names n b))
        else read_disks sys names count buf)
    else some []

-- `get_hd_info()`: the table up to `disk_qty`; without the directory it stays as it was. `buf` is what
-- the buffer holds at the start.
pub get_hd_info : Sys → Option (List Bytes) → Bytes → List HardDisk → Option (List HardDisk)
get_hd_info sys none buf old = some old
get_hd_info sys (some names) buf old = read_disks sys names 0 buf
