-- ===== src/Memory/Examples.antt =====
-- The theorem of the memory usage, applied to a machine without swap and huge pages.
use breakin.Base.{◌≡◌, refl, true, false, List, [], ◌∷◌, map, some, arith}
use breakin.Text.{codes, starts_with}
use breakin.Number.{pos}
use breakin.Memory.{MemInfo, get_mem_usage}
use breakin.Memory.Exact.{Entry, line_of, get_mem_usage_lem}

abbrev start : MemInfo
start = record {
  mem_total = 0;
  mem_free = 0;
  mem_percent = record { used = pos 0; total = 0 };
  swap_total = 0;
  swap_free = 0;
  swap_percent = record { used = pos 0; total = 0 };
}

abbrev entries : List Entry
entries =
    record { key = codes "MemTotal"; blanks = 7; amount = 16316412; in_kb = true }
    ∷ record { key = codes "MemFree"; blanks = 8; amount = 316412; in_kb = true }
    ∷ record { key = codes "SwapCached"; blanks = 10; amount = 5; in_kb = true }
    ∷ record { key = codes "SwapTotal"; blanks = 10; amount = 0; in_kb = true }
    ∷ record { key = codes "HugePages_Free"; blanks = 6; amount = 0; in_kb = false }
    ∷ []

-- both parts of the fraction of the swap are 0
get_mem_usage_lem_example : get_mem_usage (some (map line_of entries)) start ≡ record {
  mem_total = 16316412;
  mem_free = 316412;
  mem_percent = record { used = pos 16000000; total = 16316412 };
  swap_total = 0;
  swap_free = 0;
  swap_percent = record { used = pos 0; total = 0 };
}
unfolding starts_with
get_mem_usage_lem_example = get_mem_usage_lem entries start (
  record {
    key_dark = (refl, (refl, (refl, (refl, (refl, (refl, (refl, (refl, tt))))))));
    small = omega arith;
  },
  (
    record {
      key_dark = (refl, (refl, (refl, (refl, (refl, (refl, (refl, tt)))))));
      small = omega arith;
    },
    (
      record {
        key_dark =
            (refl, (refl, (refl, (refl, (refl, (refl, (refl, (refl, (refl, (refl, tt))))))))));
        small = omega arith;
      },
      (
        record {
          key_dark = (refl, (refl, (refl, (refl, (refl, (refl, (refl, (refl, (refl, tt)))))))));
          small = omega arith;
        },
        (
          record {
            key_dark = (
              refl,
              (
                refl,
                (
                  refl,
                  (
                    refl,
                    (
                      refl,
                      (refl, (refl, (refl, (refl, (refl, (refl, (refl, (refl, (refl, tt))))))))),
                    ),
                  ),
                ),
              ),
            );
            small = omega arith;
          },
          tt,
        ),
      ),
    ),
  ),
)
