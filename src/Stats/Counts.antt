-- ===== src/Stats/Counts.antt =====
-- The counters of the scripts in the file of `dump_stats`, where the scripts of the tests look for them.
use breakin.Base.{
  ℕ, zero, suc, ◌+◌, ◌-◌, ◌%◌, ◌<◌, ◌≡◌, refl, sym, ap, ◌∙◌, true, List, [], ◌∷◌, ◌++◌, append-nil,
  append_assoc, Option, some, get_elem?, some-eq, concat, arith, length, ltb,
}
use native.Mathlib.Nat.{add-zero, zero-add}
use breakin.Text.{Bytes, codes, decimal}
use breakin.Number.{decimal_signed}
use breakin.Burnin.Script.{Script}
use breakin.Stats.{
  to_signed, as_long, as_int, Double, State, Line, key, running_code, cpu_lines, temp_lines,
  disk_lines, stream_lines, cpu_head, mem_lines, nic_lines, dmi_lines, script_lines, stat_lines,
  print_lines, dump_stats,
}

-- the line of a key
abbrev pub quoted : Bytes → Bytes → Bytes
quoted k v = k ++ (codes "=\"" ++ (v ++ codes "\"\n"))

-- the failures of all scripts together
abbrev pub all_fails : List Script → ℕ
all_fails [] = 0
all_fails (s ∷ ss) = s.fail_count + all_fails ss

abbrev pub total_value : ℕ → Bytes
total_value n = decimal_signed (as_int n)

abbrev total_line : ℕ → Line
total_line n = (codes "BURNIN_TOTAL_FAIL_QTY", total_value n)

wrapped : (n f rest : ℕ) → total_value ((n + f) % 4294967296 + rest) ≡ total_value (n + (f + rest))
wrapped n f rest = ap (λ k. decimal_signed (to_signed 2147483648 k)) (omega arith)

-- the lines of a script: three, and those of its two counters
abbrev head_lines : ℕ → Script → List Line
head_lines i t =
    (key (codes "BURNIN_") i (codes "_NAME"), t.name)
    ∷ (key (codes "BURNIN_") i (codes "_LASTMSG"), t.last_msg)
    ∷ (key (codes "BURNIN_") i (codes "_RUNNING"), decimal_signed (running_code t.running))
    ∷ []

abbrev pub pass_key : ℕ → Bytes
pass_key i = key (codes "BURNIN_") i (codes "_PASS_QTY")

abbrev pub fail_key : ℕ → Bytes
fail_key i = key (codes "BURNIN_") i (codes "_FAIL_QTY")

abbrev count_lines : ℕ → Script → List Line → List Line
count_lines i t rest =
    (pass_key i, decimal_signed (as_long t.pass_count))
    ∷ (fail_key i, decimal_signed (as_long t.fail_count))
    ∷ rest

script_lines-cons :
    (k n : ℕ) (s : Script) (ss : List Script)
    → script_lines k n (s ∷ ss)
      ≡ head_lines k s
        ++ count_lines k s (script_lines (suc k) ((n + s.fail_count) % 4294967296) ss)
unfolding script_lines
script_lines-cons k n s ss = refl

script_lines-total :
    (k n : ℕ) (ss : List Script)
    → (front : List Line) × (script_lines k n ss ≡ front ++ total_line (n + all_fails ss) ∷ [])
script_lines-total k n [] =
    ([], unfold script_lines in ap (λ m. total_line m ∷ []) (sym (add-zero n)))
script_lines-total k n (s ∷ ss) =
    let (front, e) = script_lines-total (suc k) ((n + s.fail_count) % 4294967296) ss in
    (
      head_lines k s ++ count_lines k s front,
      script_lines-cons k n s ss
          ∙ ap (λ ls. head_lines k s ++ count_lines k s ls)
              (e
                ∙ ap (λ v. front ++ (codes "BURNIN_TOTAL_FAIL_QTY", v) ∷ [])
                    (wrapped n s.fail_count (all_fails ss))),
    )

script_lines-at :
    (k n i : ℕ) (ss : List Script) {t : Script}
    → get_elem? ss i ≡ some t
    → (before after : List Line) × (script_lines k n ss
        ≡ before ++ count_lines (k + i) t (after ++ total_line (n + all_fails ss) ∷ []))
script_lines-at k n i [] h = cc
script_lines-at k n zero (s ∷ ss) {t} h =
    let (after, e) = script_lines-total (suc k) ((n + s.fail_count) % 4294967296) ss in
    let same : s ≡ t = some-eq h in
    (
      head_lines k s,
      after,
      script_lines-cons k n s ss
          ∙ ap (λ ls. head_lines k s ++ count_lines k s ls)
              (e
                ∙ ap (λ v. after ++ (codes "BURNIN_TOTAL_FAIL_QTY", v) ∷ [])
                    (wrapped n s.fail_count (all_fails ss)))
          ∙ rw (add-zero k, same) refl,
    )
script_lines-at k n (suc i) (s ∷ ss) {t} h =
    let (before, after, e) = script_lines-at (suc k) ((n + s.fail_count) % 4294967296) i ss h in
    let place : suc k + i ≡ k + suc i = omega arith in
    (
      head_lines k s ++ count_lines k s before,
      after,
      script_lines-cons k n s ss
          ∙ ap (λ ls. head_lines k s ++ count_lines k s ls)
              (e
                ∙ ap
                    (λ v.
                      before
                      ++ count_lines (suc k + i) t
                          (after ++ (codes "BURNIN_TOTAL_FAIL_QTY", v) ∷ []))
                    (wrapped n s.fail_count (all_fails ss)))
          ∙ ap
              (λ j.
                head_lines k s
                ++ count_lines k s (
                    before
                    ++ count_lines j t
                        (after ++ total_line (n + (s.fail_count + all_fails ss)) ∷ [])))
              place,
    )

print_lines-append : (xs ys : List Line) → print_lines (xs ++ ys) ≡ print_lines xs ++ print_lines ys
unfolding print_lines
print_lines-append [] ys = refl
print_lines-append ((k, v) ∷ xs) ys = simp (print_lines-append xs ys, append_assoc)

concat-last :
    (xss : List (List Line)) (l : Line) (ls : List Line)
    → concat (xss ++ (l ∷ ls) ∷ []) ≡ (concat xss ++ l ∷ []) ++ ls
concat-last [] l ls = ap (l ∷◌) (append-nil ls)
concat-last (xs ∷ xss) l ls = rw (concat-last xss l ls) (simp (append_assoc))

-- the lines in front of those of the scripts
front_lines : {F : Type 0} → Double F → State F → List (List Line)
front_lines double s =
    cpu_head double s
    ∷ cpu_lines double (s.cpu_qty - 1) 1 s.cpu_percent
    ∷ mem_lines double s
    ∷ ((codes "TEMP_QTY", decimal (length s.temps)) ∷ temp_lines double 0 s.temps)
    ∷ ((codes "DISK_QTY", decimal (length s.disks)) ∷ disk_lines double 0 s.disks)
    ∷ ((codes "NIC_QTY", decimal (length s.nics)) ∷ nic_lines 0 s.nics)
    ∷ dmi_lines s.dmi
    ∷ stream_lines double s.benchmarks
    ∷ []

stat_lines-front :
    {F : Type 0} (double : Double F) (s : State F)
    → (front : List Line) × (stat_lines double s ≡ front ++ script_lines 0 0 s.scripts)
unfolding stat_lines front_lines
stat_lines-front double s = (
  concat (front_lines double s) ++ (codes "BURNIN_QTY", decimal (length s.scripts)) ∷ [],
  concat-last (front_lines double s) _ (script_lines 0 0 s.scripts),
)

small_total : (n : ℕ) → n < 2147483648 → total_value n ≡ decimal n
unfolding to_signed
small_total n h =
    let small : n % 4294967296 ≡ n = omega arith in
    let low : ltb n 2147483648 ≡ true = ground arith in
    rw (small, low) (unfold decimal_signed in refl)

print_two :
    (a b : Line) (ls : List Line)
    → print_lines (a ∷ b ∷ ls) ≡ quoted a.0 a.1 ++ (quoted b.0 b.1 ++ print_lines ls)
unfolding print_lines
print_two (k, v) (j, w) ls = simp (append_assoc)

print_one : (a : Line) → print_lines (a ∷ []) ≡ quoted a.0 a.1
unfolding print_lines
print_one (k, v) = refl

-- Of the i-th script of the table the file that `dump_stats` leaves has the lines of its counters of
-- passes and of failures, one behind the other, under their keys, whatever else is in the state and
-- whatever the file held; and the file's last line has the failures of all scripts together, modulo 2
-- to the 32 and as an `int`, which is their number as long as that is below 2 to the 31.
pub dump_stats-counts :
    {F : Type 0} (double : Double F) (s : State F) (old : Option Bytes) (i : ℕ) {t : Script}
    → get_elem? s.scripts i ≡ some t
    → let total : Bytes = total_value (all_fails s.scripts) in
      (before after : Bytes) × (dump_stats double true s old
        ≡ some (
            before
            ++ (quoted (pass_key i) (decimal_signed (as_long t.pass_count))
                ++ (quoted (fail_key i) (decimal_signed (as_long t.fail_count))
                    ++ (after ++ quoted (codes "BURNIN_TOTAL_FAIL_QTY") total)))))
      × (all_fails s.scripts < 2147483648 → total ≡ decimal (all_fails s.scripts))
unfolding dump_stats
dump_stats-counts double s old i {t} h =
    let (front, e) = stat_lines-front double s in
    let (before, after, f) = script_lines-at 0 0 i s.scripts h in
    let at : 0 + i ≡ i = zero-add i in
    let all : 0 + all_fails s.scripts ≡ all_fails s.scripts = zero-add (all_fails s.scripts) in
    let last : Line = total_line (all_fails s.scripts) in
    let lines : stat_lines double s ≡ (front ++ before) ++ count_lines i t (after ++ last ∷ []) =
      e ∙ ap (λ ls. front ++ ls) f ∙ rw (at, all) (sym (append_assoc front before _)) in
    (
      print_lines (front ++ before),
      print_lines after,
      ap some (
          ap print_lines lines
          ∙ print_lines-append (front ++ before) _
          ∙ ap (λ x. print_lines (front ++ before) ++ x)
              (print_two _ _ (after ++ last ∷ [])
                ∙ ap
                    (λ x.
                      quoted (pass_key i) (decimal_signed (as_long t.pass_count))
                      ++ (quoted (fail_key i) (decimal_signed (as_long t.fail_count)) ++ x))
                    (print_lines-append after (last ∷ [])
                      ∙ ap (λ x. print_lines after ++ x) (print_one last)))),
      small_total (all_fails s.scripts),
    )
