-- ===== src/Devmem/Examples.antt =====
-- A run of the access to physical memory.
use breakin.Base.{◌≡◌, refl, true, [], ◌∷◌}
use breakin.Text.{codes}
use breakin.Devmem.{bytes, interrupted, filled, read_loop, myread}

-- short reads and an interruption
myread_test :
    myread (bytes 2 ∷ interrupted ∷ bytes 9 ∷ []) 5 (codes "abcdefgh")
    ≡ record { outcome = filled (codes "abcde"); still_open = true }
unfolding myread read_loop
myread_test = refl
