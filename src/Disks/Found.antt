-- ===== src/Disks/Found.antt =====
-- The table of disks is what a look at each directory entry alone gives.
use breakin.Base.{
  push, take-nil, ℕ, suc, ◌+◌, ◌-◌, ◌≤◌, ◌≡◌, ◌≢◌, refl, sym, ap, ◌∙◌, inl, inr, Bool-cases, true,
  List, [], ◌∷◌, Option, none, some, arith, if◌then◌else◌, ltb, take, length, length-take_le, ◌>>=◌,
}
use breakin.Text.{Bytes, codes, strncpy}
use breakin.Trim.{trim, trim_buffer}
use breakin.Trim.Buffer.{HasText, trim_buffer-text}
use breakin.Number.{atoi, skip_white, take_word}
use breakin.Disks.{
  max_disks, Sys, scan_word, read_string_from_file, HardDisk, is_disk, starts_one, attribute, sized,
  read_size, skip_removable, probe, add_disk, read_disks, get_hd_info,
}

-- No file of the tree that can be opened is blank.
abbrev pub NoBlank : Sys → Type 0
NoBlank sys = (name content : Bytes) → sys name ≡ some content → skip_white content ≢ []

-- the first word of a file
abbrev pub first_of : Option Bytes → Option Bytes
first_of none = none
first_of (some content) = some (trim (take_word (skip_white content)).0)

abbrev pub word_of : Sys → Bytes → Option Bytes
word_of sys filename = first_of (sys filename)

-- the disk, from the word that stands for its size
abbrev pub disk_sized : Bytes → Option Bytes → Option HardDisk
disk_sized name none = none
disk_sized name (some text) = some (record { device = strncpy 30 name; sectors = atoi text })

-- It is no disk of its own if it is removable.
abbrev pub unless_removable : Option Bytes → Option HardDisk → Option HardDisk
unless_removable none d = d
unless_removable (some text) d = if starts_one text then none else d

-- the disk that stands for a directory entry, if there is one
abbrev pub disk_of : Sys → Bytes → Option HardDisk
disk_of sys name =
    if is_disk name
    then unless_removable (word_of sys (attribute name (codes "/removable")))
        (disk_sized name (word_of sys (attribute name (codes "/size"))))
    else none

abbrev pub disks_of : Sys → List Bytes → List HardDisk
disks_of sys [] = []
disks_of sys (name ∷ names) = push (disk_of sys name) (disks_of sys names)

-- The first word behind white space is no white space itself.
first_word :
    (s old : Bytes)
    → skip_white s ≢ []
    → HasText (scan_word (skip_white s) old)
      × (scan_word (skip_white s) old ≡ (take_word (skip_white s)).0)
unfolding skip_white take_word
first_word [] old h = absurd (h refl)
first_word (c ∷ s) old h = ground (arith, first_word s old)

read_string_word :
    (sys : Sys) (name buf : Bytes)
    → NoBlank sys
    → read_string_from_file sys name buf ≡ some (word_of sys name)
unfolding read_string_from_file
read_string_word sys name buf nb = go (sys name) (λ content e. nb name content e)
  where
    go :
        (file : Option Bytes)
        → ((content : Bytes) → file ≡ some content → skip_white content ≢ [])
        → elim file [
          | none ↦ some none
          | some content ↦
              trim_buffer (scan_word (skip_white content) buf) >>= λ text. some (some text)
        ]
          ≡ some (first_of file)
    go none full = refl
    go (some content) full =
        let (text, same) = first_word content buf (full content refl) in
        rw (trim_buffer-text (scan_word (skip_white content) buf) text)
          (ap (λ w. some (some (trim w))) same)

sized-disk : (name buf : Bytes) (r : Option Bytes) → (sized name buf r).0 ≡ disk_sized name r
sized-disk name buf none = refl
sized-disk name buf (some text) = refl

read_size-disk :
    (sys : Sys) (name buf : Bytes)
    → NoBlank sys
    → (b : Bytes) × (read_size sys name buf
        ≡ some (disk_sized name (word_of sys (attribute name (codes "/size"))), b))
unfolding read_size
read_size-disk sys name buf nb =
    let word : Option Bytes = word_of sys (attribute name (codes "/size")) in
    (
      (sized name buf word).1,
      rw (read_string_word sys (attribute name (codes "/size")) buf nb)
          (ap (λ d. some (d, (sized name buf word).1)) (sized-disk name buf word)),
    )

skip_removable-disk :
    (sys : Sys) (name buf : Bytes) (r : Option Bytes)
    → NoBlank sys
    → (b : Bytes) × (skip_removable sys name buf r
        ≡ some (
          unless_removable r (disk_sized name (word_of sys (attribute name (codes "/size")))),
          b,
        ))
unfolding skip_removable
skip_removable-disk sys name buf none nb = read_size-disk sys name buf nb
skip_removable-disk sys name buf (some text) nb = elim (Bool-cases (starts_one text)) [
  | inl y ↦ (text, rw y refl)
  | inr n ↦ let (b, run) = read_size-disk sys name text nb in (b, rw n run)
]

probe-disk :
    (sys : Sys) (name buf : Bytes)
    → NoBlank sys
    → is_disk name ≡ true
    → (b : Bytes) × (probe sys name buf ≡ some (disk_of sys name, b))
unfolding probe
probe-disk sys name buf nb disk =
    let word : Option Bytes = word_of sys (attribute name (codes "/removable")) in
    let (b, run) = skip_removable-disk sys name buf word nb in
    (b, rw (read_string_word sys (attribute name (codes "/removable")) buf nb) (rw disk run))

read_disks-cons :
    (sys : Sys) (name : Bytes) (names : List Bytes) (count : ℕ) (buf b : Bytes)
    (d : Option HardDisk)
    → ltb count max_disks ≡ true
    → is_disk name ≡ true
    → probe sys name buf ≡ some (d, b)
    → read_disks sys (name ∷ names) count buf
      ≡ add_disk (d, b) count (λ n b'. read_disks sys names n b')
unfolding read_disks
read_disks-cons sys name names count buf b d low disk run =
    rw (low, read_disks) (rw (disk, run) refl)

add_disk-push :
    (d : Option HardDisk) (b : Bytes) (count : ℕ) (next : ℕ → Bytes → Option (List HardDisk))
    (more : List HardDisk)
    → ltb count max_disks ≡ true
    → ((n : ℕ) (b' : Bytes) → n ≤ max_disks → next n b' ≡ some (take (max_disks - n) more))
    → add_disk (d, b) count next ≡ some (take (max_disks - count) (push d more))
unfolding add_disk
add_disk-push none b count next more low ih = ih count b (ground arith)
add_disk-push (some d) b count next more low ih =
    let room : max_disks - count ≡ suc (max_disks - (count + 1)) = ground arith in
    rw (ih (count + 1) b (ground arith), room) refl

read_disks-disks_of :
    (names : List Bytes) (sys : Sys) (count : ℕ) (buf : Bytes)
    → NoBlank sys
    → count ≤ max_disks
    → read_disks sys names count buf ≡ some (take (max_disks - count) (disks_of sys names))
unfolding read_disks
read_disks-disks_of [] sys count buf nb h = ap some (sym (take-nil (max_disks - count)))
read_disks-disks_of (name ∷ names) sys count buf nb h = elim (Bool-cases (ltb count max_disks)) [
  | inr full ↦ let over : max_disks - count ≡ 0 = ground arith in rw (full, over, read_disks) refl
  | inl low ↦ elim (Bool-cases (is_disk name)) [
    | inr other ↦
        unfold read_disks in
        rw (low, read_disks) (rw other (read_disks-disks_of names sys count buf nb h))
    | inl disk ↦
        let (b, run) = probe-disk sys name buf nb disk in
        read_disks-cons sys name names count buf b (disk_of sys name) low disk run
        ∙ add_disk-push (disk_of sys name) b count (λ n b'. read_disks sys names n b')
            (disks_of sys names) low (λ n b' q. read_disks-disks_of names sys n b' nb q)
  ]
]

-- If the files of /sys are not blank, the table is made of the first 24 disks of the directory, each
-- looked at on its own; it does not depend on what the buffer held.
pub get_hd_info_lem :
    (sys : Sys) (names : List Bytes) (buf : Bytes) (old : List HardDisk)
    → NoBlank sys
    → get_hd_info sys (some names) buf old ≡ some (take max_disks (disks_of sys names))
unfolding get_hd_info
get_hd_info_lem sys names buf old nb = read_disks-disks_of names sys 0 buf nb (omega arith)

-- The table never has more disks than entries, whatever the directory says.
pub get_hd_info-fits :
    (sys : Sys) (dir : Option (List Bytes)) (buf : Bytes) (old : List HardDisk)
    → NoBlank sys
    → length old ≤ max_disks
    → (ds : List HardDisk) × (get_hd_info sys dir buf old ≡ some ds) × (length ds ≤ max_disks)
get_hd_info-fits sys none buf old nb h = (old, unfold get_hd_info in refl, h)
get_hd_info-fits sys (some names) buf old nb h =
    (_, get_hd_info_lem sys names buf old nb, length-take_le max_disks (disks_of sys names))
