-- ===== src/Cpu/Info.antt =====
-- `get_cpu_info` of breakin.c. The file is the lines that fgets reads of it, without NUL; of the speed,
-- a double, the text that atof reads is kept. `none` is a pointer from a missing colon, or an access
-- outside the line.
use breakin.Base.{
  ℕ, suc, ◌+◌, List, [], ◌∷◌, ◌++◌, Option, none, some, ◌>>=◌, ◌==◌, ltb, if◌then◌else◌, length,
  drop,
}
use breakin.Text.{Bytes, codes, starts_with}
use breakin.Trim.{trim_at}
use breakin.Dmi.Strings.{split_string}

-- struct cpu_info_t
pub record CpuInfo : Type 0 where
  pub qty : ℕ
  pub model : Bytes
  pub speed : Bytes

-- `strstr(buf, ":")`, as a place
unfoldable pub colon_at : ℕ → Bytes → Option ℕ
colon_at i [] = none
colon_at i (c ∷ s) = let rest = colon_at (suc i) s in if c == b':' then some i else rest

-- `strstr(buf, ":") + 2`, which may be the NUL at the end of the line, but not what is behind it
unfoldable pub value_at : Bytes → Option ℕ
value_at line = elim (colon_at 0 line) [
  | none ↦ none
  | some i ↦ if ltb (length line) (i + 2) then none else some (i + 2)
]

-- `trim(strstr(buf, ":") + 2)`
unfoldable pub read_model : Bytes → Option Bytes
read_model line = do
  i ← value_at line
  memory ← trim_at (line ++ 0 ∷ []) i
  (model, rest) ← split_string (drop i memory)
  some model

unfoldable pub read_speed : Bytes → Option Bytes
read_speed line = do i ← value_at line; some (drop i line)

-- the body of the loop; `qty` of the state is `cpucount`
unfoldable pub cpu_line : Bytes → CpuInfo → Option CpuInfo
cpu_line line c =
    if starts_with (codes "processor") line
    then some (record c { qty = c.qty + 1 })
    else if starts_with (codes "model name") line
    then (read_model line >>= λ model. some (record c { model = model }))
    else if starts_with (codes "cpu MHz") line
    then (read_speed line >>= λ speed. some (record c { speed = speed }))
    else some c

unfoldable pub cpu_lines : List Bytes → CpuInfo → Option CpuInfo
cpu_lines [] c = some c
cpu_lines (line ∷ lines) c = cpu_line line c >>= λ c'. cpu_lines lines c'

-- `get_cpu_info()`
unfoldable pub get_cpu_info : Option (List Bytes) → CpuInfo → Option CpuInfo
get_cpu_info none c = some c
get_cpu_info (some lines) c = cpu_lines lines (record c { qty = 0 })
