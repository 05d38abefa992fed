-- ===== src/Cpu/Examples.antt =====
-- The theorem of the CPU's description, applied to a machine with two cores.
use breakin.Base.{◌≡◌, refl, List, [], ◌∷◌, map, some, arith}
use breakin.Text.{codes, starts_with}
use breakin.Trim.{trim}
use breakin.Cpu.Info.{CpuInfo, get_cpu_info}
use breakin.Cpu.Describe.{Line, field, other, text_of, get_cpu_info_lem}

abbrev unknown : CpuInfo
unknown = record { qty = 0; model = []; speed = [] }

abbrev fields : List Line
fields =
    field (record { key = codes "processor\t"; value = codes "0\n" })
    ∷ field (record { key = codes "model name\t"; value = codes "Xeon \n" })
    ∷ field (record { key = codes "cpu MHz\t\t"; value = codes "2400\n" })
    ∷ other (codes "power management:\n")
    ∷ other (codes "\n")
    ∷ field (record { key = codes "processor\t"; value = codes "1\n" })
    ∷ other (codes "\n")
    ∷ []

get_cpu_info_lem_example :
    get_cpu_info (some (map text_of fields)) unknown
    ≡ some (record { qty = 2; model = codes "Xeon"; speed = codes "2400\n" })
unfolding starts_with trim
get_cpu_info_lem_example = get_cpu_info_lem fields unknown (
  record { key_plain = refl; no_nul = ground arith; named = λ h e. cc },
  (
    record { key_plain = refl; no_nul = ground arith; named = λ h e. cc },
    (
      record { key_plain = refl; no_nul = ground arith; named = λ h e. cc },
      (
        record { processor = refl; model = refl; speed = refl },
        (
          record { processor = refl; model = refl; speed = refl },
          (
            record { key_plain = refl; no_nul = ground arith; named = λ h e. cc },
            (record { processor = refl; model = refl; speed = refl }, tt),
          ),
        ),
      ),
    ),
  ),
)
