-- ===== src/Dmi/Search.antt =====
-- The search for entry points ends within its fuel.
use breakin.Base.{
  ℕ, zero, suc, ◌+◌, ◌*◌, ◌<◌, ◌≤◌, ◌≡◌, refl, sym, ◌∙◌, inl, inr, Bool, true, false, Bool-cases,
  ◌&&◌, Option-cases, none, some, arith, leb, if◌then◌else◌, drop,
}
use breakin.Text.{Bytes, codes}
use breakin.Dmi.Decode.{DmiData}
use breakin.Dmi.Entry.{DevMem, same_bytes, smbios_decode, entry_loop}

entry_loop-past :
    (fuel : ℕ) (dev : DevMem) (m : Bytes) (fp found : ℕ) (d : DmiData)
    → 0xFFF0 < fp
    → entry_loop fuel dev m fp found d ≡ some (found, d)
unfolding entry_loop
entry_loop-past zero dev m fp found d h = refl
entry_loop-past (suc fuel) dev m fp found d h = ground arith

-- one round, by what the memory at `fp` is
module _ (fuel : ℕ) (dev : DevMem) (m : Bytes) (fp found : ℕ) (d : DmiData) where
  entry_loop_outside :
      same_bytes (codes "_SM_") (drop fp m) ≡ none
      → leb fp 0xFFF0 ≡ true
      → entry_loop (suc fuel) dev m fp found d ≡ none
  unfolding entry_loop
  entry_loop_outside e r = ground arith

  entry_loop_other :
      (anchor : Bool)
      → same_bytes (codes "_SM_") (drop fp m) ≡ some anchor
      → leb fp 0xFFF0 ≡ true
      → (anchor && leb fp 0xFFE0) ≡ false
      → entry_loop (suc fuel) dev m fp found d ≡ entry_loop fuel dev m (fp + 16) found d
  unfolding entry_loop
  entry_loop_other anchor e r a = ground arith

  entry_loop_broken :
      (anchor : Bool)
      → same_bytes (codes "_SM_") (drop fp m) ≡ some anchor
      → leb fp 0xFFF0 ≡ true
      → (anchor && leb fp 0xFFE0) ≡ true
      → smbios_decode dev m fp d ≡ none
      → entry_loop (suc fuel) dev m fp found d ≡ none
  unfolding entry_loop
  entry_loop_broken anchor e r a s = ground arith

  entry_loop_entry :
      (anchor decoded : Bool) (d' : DmiData)
      → same_bytes (codes "_SM_") (drop fp m) ≡ some anchor
      → leb fp 0xFFF0 ≡ true
      → (anchor && leb fp 0xFFE0) ≡ true
      → smbios_decode dev m fp d ≡ some (decoded, d')
      → entry_loop (suc fuel) dev m fp found d
        ≡ entry_loop fuel dev m (fp + 32) (if decoded then found + 1 else found) d'
  unfolding entry_loop
  entry_loop_entry anchor decoded d' e r a s = ground arith

entry_loop-more :
    (fuel more : ℕ) (dev : DevMem) (m : Bytes) (fp found : ℕ) (d : DmiData)
    → fuel ≤ more
    → 0xFFF0 < fp + 16 * fuel
    → entry_loop more dev m fp found d ≡ entry_loop fuel dev m fp found d
unfolding entry_loop
entry_loop-more zero more dev m fp found d h l = entry_loop-past more dev m fp found d (omega arith)
entry_loop-more (suc fuel) zero dev m fp found d h l = absurd (omega arith)
entry_loop-more (suc fuel) (suc more) dev m fp found d h l = elim (Bool-cases (leb fp 0xFFF0)) [
  | inr past ↦
      entry_loop-past (suc more) dev m fp found d (ground arith)
      ∙ sym (entry_loop-past (suc fuel) dev m fp found d (ground arith))
  | inl r ↦ elim (Option-cases (same_bytes (codes "_SM_") (drop fp m))) [
    | inl e ↦
        entry_loop_outside more dev m fp found d e r
        ∙ sym (entry_loop_outside fuel dev m fp found d e r)
    | inr (anchor, e) ↦ elim (Bool-cases (anchor && leb fp 0xFFE0)) [
      | inr miss ↦
          entry_loop_other more dev m fp found d anchor e r miss
          ∙ entry_loop-more fuel more dev m (fp + 16) found d (omega arith) (omega arith)
          ∙ sym (entry_loop_other fuel dev m fp found d anchor e r miss)
      | inl hit ↦ elim (Option-cases (smbios_decode dev m fp d)) [
        | inl s ↦
            entry_loop_broken more dev m fp found d anchor e r hit s
            ∙ sym (entry_loop_broken fuel dev m fp found d anchor e r hit s)
        | inr ((decoded, d'), s) ↦
            entry_loop_entry more dev m fp found d anchor decoded d' e r hit s
            ∙ entry_loop-more fuel more dev m (fp + 32) (if decoded then found + 1 else found) d'
                (omega arith) (omega arith)
            ∙ sym (entry_loop_entry fuel dev m fp found d anchor decoded d' e r hit s)
      ]
    ]
  ]
]

-- The search through the 64K in steps of 16 needs no more than 4096 rounds: with any more it gives
-- the same.
pub entry_loop-enough :
    (more : ℕ) (dev : DevMem) (m : Bytes) (found : ℕ) (d : DmiData)
    → 0x1000 ≤ more
    → entry_loop more dev m 0 found d ≡ entry_loop 0x1000 dev m 0 found d
entry_loop-enough more dev m found d h = entry_loop-more 0x1000 more dev m 0 found d h (omega arith)
