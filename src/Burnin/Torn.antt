-- ===== src/Burnin/Torn.antt =====
-- A torn message: a thread prints while the main thread has written one byte of a new text.
use breakin.Base.{ℕ, zero, suc, ◌≡◌, ◌<◌, refl, [], ◌∷◌, some, arith, length, set, get_elem?}
use breakin.Text.{Bytes, codes}
use breakin.Burnin.Script.{Script, active, opened, process}
use breakin.Burnin.Poll.{handle_text, handle_line}
use breakin.Burnin.Shared.{
  Shared, byte, next_line, write, read, Moves, start, more, Ended, Moves-Ended,
}

zeros : ℕ → Bytes
zeros zero = []
zeros (suc n) = 0 ∷ zeros n

length-zeros : (n : ℕ) → length (zeros n) ≡ n
unfolding zeros
length-zeros zero = refl
length-zeros (suc n) = omega (arith, length-zeros n)

get_elem?-zeros : (n i : ℕ) → i < n → get_elem? (zeros n) i ≡ some 0
unfolding zeros
get_elem?-zeros zero i h = absurd (omega arith)
get_elem?-zeros (suc n) zero h = refl
get_elem?-zeros (suc n) (suc i) h = get_elem?-zeros n i (omega arith)

abbrev disk_test : Script
disk_test = record {
  name = codes "disk";
  path = codes "/etc/breakin/tests/disk";
  last_msg = codes "x";
  last_result = 0;
  running = active;
  pid = process 7;
  fp_stdout = opened;
  pass_count = 0;
  fail_count = 0;
}

abbrev before : Shared
before = record { array = b'x' ∷ zeros 8191; text = codes "x"; at = 0 }

before-Ended : Ended before
before-Ended = record {
  size = omega (arith, length-zeros 8191);
  end = get_elem?-zeros 8191 8190 (omega arith);
  text = omega arith;
  inside = omega arith;
}

abbrev new_text : Bytes
new_text = (handle_text (codes "ok") disk_test).0.last_msg

abbrev after : Shared
after = record { array = b'x' ∷ set (zeros 8191) 0 (byte new_text 1); text = new_text; at = 1 }

ok_line :
    handle_line (codes "ok") disk_test
    ≡ some ((handle_text (codes "ok") disk_test).0, (handle_text (codes "ok") disk_test).1)
unfolding handle_line
ok_line = refl

torn : Moves before after
torn =
    more
      (more (more start (next_line (codes "ok") disk_test _ _ (omega arith) ok_line))
        (write 1 (omega arith)))
      (read b'x' refl refl)

Moves-Ended_example : Ended after × ((c : ℕ) × (get_elem? after.array after.at ≡ some c))
Moves-Ended_example = Moves-Ended torn before-Ended
