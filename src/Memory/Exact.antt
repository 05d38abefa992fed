-- ===== src/Memory/Exact.antt =====
-- What `get_mem_usage` takes from the lines of /proc/meminfo.
use breakin.Base.{
  ℕ, zero, suc, ◌≤◌, ◌≡◌, refl, sym, ap, ◌∙◌, Bool, true, false, List, [], ◌∷◌, ◌++◌, map, some,
  All, All-append, if◌then◌else◌, arith,
}
use breakin.Text.{Bytes, codes, decimal, starts_with}
use breakin.Text.Prefix.{starts_with-key, clash}
use breakin.Number.{is_white, is_digit, skip_white, take_digits, take_word, sub_ℕ}
use breakin.Number.Read.{take_digits-decimal, take_word-append, decimal-head}
use breakin.Memory.{
  MemInfo, long_max, long_of, scan_amount, mem_line, mem_lines, percentages, get_mem_usage,
}

-- a line of the file: its key, the blanks behind the colon, the amount, and whether it is in kB (the
-- numbers of huge pages are not)
pub record Entry : Type 0 where
  pub key : Bytes
  pub blanks : ℕ
  pub amount : ℕ
  pub in_kb : Bool

abbrev spaces : ℕ → Bytes
spaces zero = []
spaces (suc n) = 32 ∷ spaces n

abbrev unit : Bool → Bytes
unit true = codes " kB\n"
unit false = codes "\n"

-- `KEY:` and blanks, the amount, the unit if there is one, and a newline
abbrev pub line_of : Entry → Bytes
line_of e = (e.key ++ b':' ∷ []) ++ 32 ∷ (spaces e.blanks ++ (decimal e.amount ++ unit e.in_kb))

pub record IsPlain (e : Entry) : Type 0 where
  pub key_dark : All (λ c. is_white c ≡ false) e.key
  pub small : e.amount ≤ long_max

skip_white-spaces : (n : ℕ) (s : Bytes) → skip_white (spaces n ++ s) ≡ skip_white s
unfolding skip_white
skip_white-spaces zero s = refl
skip_white-spaces (suc n) s = skip_white-spaces n s

skip_white-dark :
    (w s : Bytes)
    → All (λ c. is_white c ≡ false) (w ++ b':' ∷ [])
    → skip_white ((w ++ b':' ∷ []) ++ s) ≡ (w ++ b':' ∷ []) ++ s
unfolding skip_white
skip_white-dark [] s a = refl
skip_white-dark (c ∷ w) s a = rw a.0 refl

digit_dark : (c : ℕ) → is_digit c ≡ true → is_white c ≡ false
digit_dark c h = ground arith

skip_white-digit : (c : ℕ) (s : Bytes) → is_digit c ≡ true → skip_white (c ∷ s) ≡ c ∷ s
unfolding skip_white
skip_white-digit c s h = rw (digit_dark c h) refl

long_of-small : (n : ℕ) → n ≤ long_max → long_of n ≡ n
unfolding long_of
long_of-small n h = ground arith

scan_number :
    (line : Bytes) (old n : ℕ) (s : Bytes) (c : ℕ) (more : Bytes)
    → skip_white (take_word (skip_white line)).1 ≡ s
    → s ≡ c ∷ more
    → is_digit c ≡ true
    → (take_digits 0 s).0 ≡ n
    → n ≤ long_max
    → scan_amount line old ≡ n
unfolding scan_amount
scan_number line old n s c more e h d t l =
    rw (e, h, d) (ap (λ x. long_of (take_digits 0 x).0) (sym h) ∙ ap long_of t ∙ long_of-small n l)

take_digits-unit : (n : ℕ) (b : Bool) → n ≤ long_max → (take_digits 0 (decimal n ++ unit b)).0 ≡ n
take_digits-unit n true h =
    ap (λ r. r.0) (take_digits-decimal n 32 (codes "kB\n") (omega arith) refl)
take_digits-unit n false h = ap (λ r. r.0) (take_digits-decimal n 10 [] (omega arith) refl)

scan_amount-line_of : (e : Entry) (old : ℕ) → IsPlain e → scan_amount (line_of e) old ≡ e.amount
scan_amount-line_of e old p =
    let word : Bytes = e.key ++ b':' ∷ [] in
    let dark : All (λ c. is_white c ≡ false) word =
      All-append _ e.key (b':' ∷ []) p.key_dark (refl, tt) in
    let number : Bytes = decimal e.amount ++ unit e.in_kb in
    let (c, s, run, digit) = decimal-head e.amount in
    let place : skip_white (take_word (skip_white (line_of e))).1 ≡ number =
      rw
        (
          skip_white-dark e.key (32 ∷ (spaces e.blanks ++ number)) dark,
          take_word-append word (spaces e.blanks ++ number) dark,
        )
        (skip_white-spaces (suc e.blanks) number
          ∙ rw run (skip_white-digit c (s ++ unit e.in_kb) digit)) in
    scan_number (line_of e) old e.amount number c (s ++ unit e.in_kb) place
      (ap (λ d. d ++ unit e.in_kb) run) digit (take_digits-unit e.amount e.in_kb p.small) p.small

-- the amount of an entry, if it is of this name
abbrev pick : Bytes → Entry → ℕ → ℕ
pick name e old = if starts_with name e.key then e.amount else old

abbrev picked : Entry → MemInfo → MemInfo
picked e m = record m {
  mem_total = pick (codes "MemTotal") e m.mem_total;
  mem_free = pick (codes "MemFree") e m.mem_free;
  swap_total = pick (codes "SwapTotal") e m.swap_total;
  swap_free = pick (codes "SwapFree") e m.swap_free;
}

total_free :
    (k : Bytes) → starts_with (codes "MemTotal") k ≡ true → starts_with (codes "MemFree") k ≡ false
unfolding starts_with
total_free k h = clash (codes "MemTotal") (codes "MemFree") k refl refl h

mem_swap_total :
    (k : Bytes)
    → starts_with (codes "SwapTotal") k ≡ true
    → (starts_with (codes "MemTotal") k ≡ false) × (starts_with (codes "MemFree") k ≡ false)
unfolding starts_with
mem_swap_total k h = (
  clash (codes "SwapTotal") (codes "MemTotal") k refl refl h,
  clash (codes "SwapTotal") (codes "MemFree") k refl refl h,
)

mem_swap_free :
    (k : Bytes)
    → starts_with (codes "SwapFree") k ≡ true
    → (starts_with (codes "MemTotal") k ≡ false)
      × (starts_with (codes "MemFree") k ≡ false)
      × (starts_with (codes "SwapTotal") k ≡ false)
unfolding starts_with
mem_swap_free k h = (
  clash (codes "SwapFree") (codes "MemTotal") k refl refl h,
  clash (codes "SwapFree") (codes "MemFree") k refl refl h,
  clash (codes "SwapFree") (codes "SwapTotal") k refl refl h,
)

mem_line-picked : (e : Entry) (m : MemInfo) → IsPlain e → mem_line (line_of e) m ≡ picked e m
unfolding mem_line
mem_line-picked e m p =
    let rest : Bytes = 32 ∷ (spaces e.blanks ++ (decimal e.amount ++ unit e.in_kb)) in
    let k1 = starts_with-key (codes "MemTotal") e.key rest refl in
    let k2 = starts_with-key (codes "MemFree") e.key rest refl in
    let k3 = starts_with-key (codes "SwapTotal") e.key rest refl in
    let k4 = starts_with-key (codes "SwapFree") e.key rest refl in
    let amount : (old : ℕ) → scan_amount (line_of e) old ≡ e.amount =
      λ old. scan_amount-line_of e old p in
    rw
      (
        k1,
        k2,
        k3,
        k4,
        amount m.mem_total,
        amount m.mem_free,
        amount m.swap_total,
        amount m.swap_free,
      )
      (ground (arith, total_free e.key, mem_swap_total e.key, mem_swap_free e.key))

-- the amount of the last entry whose key starts with this name
abbrev pub last_amount : Bytes → List Entry → ℕ → ℕ
last_amount name [] old = old
last_amount name (e ∷ es) old = last_amount name es (pick name e old)

mem_lines-last :
    (es : List Entry) (m : MemInfo)
    → All IsPlain es
    → mem_lines (map line_of es) m ≡ record m {
      mem_total = last_amount (codes "MemTotal") es m.mem_total;
      mem_free = last_amount (codes "MemFree") es m.mem_free;
      swap_total = last_amount (codes "SwapTotal") es m.swap_total;
      swap_free = last_amount (codes "SwapFree") es m.swap_free;
    }
unfolding mem_lines
mem_lines-last [] m a = refl
mem_lines-last (e ∷ es) m a =
    rw (mem_line-picked e m a.0, mem_lines) (mem_lines-last es (picked e m) a.1)

-- On a file of lines that are each a key without white space, a colon, blanks and an amount that a
-- `long int` holds, with ` kB` behind it or without: each of the four fields is the amount of the last entry whose key starts with the field's name, or
-- what it was if there is none, whatever other entries there are; a percentage is the difference of the
-- two new amounts by the new total.
pub get_mem_usage_lem :
    (es : List Entry) (m : MemInfo)
    → All IsPlain es
    → let total : ℕ = last_amount (codes "MemTotal") es m.mem_total in
      let free : ℕ = last_amount (codes "MemFree") es m.mem_free in
      let swap : ℕ = last_amount (codes "SwapTotal") es m.swap_total in
      let unused : ℕ = last_amount (codes "SwapFree") es m.swap_free in
      get_mem_usage (some (map line_of es)) m ≡ record {
        mem_total = total;
        mem_free = free;
        mem_percent = record { used = sub_ℕ total free; total = total };
        swap_total = swap;
        swap_free = unused;
        swap_percent = record { used = sub_ℕ swap unused; total = swap };
      }
unfolding get_mem_usage percentages
get_mem_usage_lem es m a = rw (mem_lines-last es m a) refl
