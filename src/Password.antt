-- ===== src/Password.antt =====
-- cryptpasswd.c, for the password on its command line. `crypt` is the one of the C library.
use breakin.Base.{ℕ, ◌+◌, [], ◌∷◌, ◌++◌, Option, none, some, ◌≡◌, refl, leb, length, if◌then◌else◌}
use breakin.Text.{Bytes, copy_n}

-- char salt[2]
abbrev salt_size : ℕ
salt_size = 2

-- `snprintf(salt, 3, "%s", argv[1])`: the string in the array, or none for a write behind it
unfoldable pub read_salt : Bytes → Option Bytes
read_salt password =
    let text : Bytes = copy_n 3 password in
    if leb (length text + 1) salt_size then some text else none

-- `main`: what it prints
unfoldable pub main : (Bytes → Bytes → Bytes) → Bytes → Option Bytes
main crypt password = elim (read_salt password) [
  | none ↦ none
  | some salt ↦ some (crypt password salt ++ b'\n' ∷ [])
]

-- A password of two bytes or more, such as every one in use, overflows the array.
main_overflow :
    (crypt : Bytes → Bytes → Bytes) (c d : ℕ) (rest : Bytes) → main crypt (c ∷ d ∷ rest) ≡ none
unfolding main read_salt copy_n
main_overflow crypt c d rest = refl
