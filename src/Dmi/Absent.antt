-- ===== src/Dmi/Absent.antt =====
-- A machine without an entry point: `do_dmi_decode` finds nothing, and leaves the data alone.
use breakin.Base.{
  ℕ, zero, suc, ◌+◌, ◌≤◌, ◌≡◌, refl, ◌∙◌, inl, inr, Bool-cases, true, false, some, arith, leb, drop,
}
use breakin.Text.{Bytes, codes}
use breakin.Dmi.Decode.{DmiData}
use breakin.Dmi.Entry.{DevMem, same_bytes, entry_loop, decoded, do_dmi_decode}

-- At no place of the memory stands the anchor, nor does the memory end in its first bytes.
abbrev pub NoAnchor : Bytes → Type 0
NoAnchor m = (fp : ℕ) → fp ≤ 0xFFF0 → same_bytes (codes "_SM_") (drop fp m) ≡ some false

entry_loop_past :
    (fuel : ℕ) (dev : DevMem) (m : Bytes) (fp found : ℕ) (d : DmiData)
    → leb fp 0xFFF0 ≡ false
    → entry_loop (suc fuel) dev m fp found d ≡ some (found, d)
unfolding entry_loop
entry_loop_past fuel dev m fp found d h = rw (h, entry_loop) refl

entry_loop_miss :
    (fuel : ℕ) (dev : DevMem) (m : Bytes) (fp found : ℕ) (d : DmiData)
    → leb fp 0xFFF0 ≡ true
    → same_bytes (codes "_SM_") (drop fp m) ≡ some false
    → entry_loop (suc fuel) dev m fp found d ≡ entry_loop fuel dev m (fp + 16) found d
unfolding entry_loop
entry_loop_miss fuel dev m fp found d r e = ground arith

entry_loop-NoAnchor :
    (fuel : ℕ) (dev : DevMem) (m : Bytes) (fp found : ℕ) (d : DmiData)
    → NoAnchor m
    → entry_loop fuel dev m fp found d ≡ some (found, d)
entry_loop-NoAnchor zero dev m fp found d h = unfold entry_loop in refl
entry_loop-NoAnchor (suc fuel) dev m fp found d h = elim (Bool-cases (leb fp 0xFFF0)) [
  | inr past ↦ entry_loop_past fuel dev m fp found d past
  | inl r ↦
      entry_loop_miss fuel dev m fp found d r (h fp (ground arith))
      ∙ entry_loop-NoAnchor fuel dev m (fp + 16) found d h
]

pub do_dmi_decode-NoAnchor :
    (dev : DevMem) (m : Bytes) (d : DmiData)
    → dev 0xF0000 0x10000 ≡ some m
    → NoAnchor m
    → do_dmi_decode dev d ≡ some (decoded d)
unfolding do_dmi_decode
do_dmi_decode-NoAnchor dev m d e h = rw e (rw (entry_loop-NoAnchor 0x1000 dev m 0 0 d h) refl)
