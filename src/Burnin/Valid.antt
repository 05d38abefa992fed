-- ===== src/Burnin/Valid.antt =====
-- What holds of every entry of the table between two turns, and that no turn reads a closed stream.
use breakin.Base.{
  ℕ, suc, ◌≤◌, ◌<◌, ◌≡◌, refl, ◌∙◌, ◌⊎◌, inl, inr, List, [], ◌∷◌, ◌++◌, Option, some, arith, length,
  drop, All, AllPairs, ltb, ◌&&◌, Bool-cases,
}
use breakin.Text.{Bytes, codes, bufsiz, starts_with, strncpy, length-strncpy}
use breakin.Trim.{trim}
use breakin.Trim.Buffer.{HasText, trim_buffer-text}
use breakin.Log.{LogCall, message}
use breakin.Burnin.Script.{Script, idle, active, disabled, null, opened}
use breakin.Burnin.Fork.{ForkEnv, fork_cmd, start_script, run_burnin_tests}
use breakin.Burnin.Poll.{Wait, handle_text, handle_line, handle_lines, handle_wait, poll_script}
use breakin.Burnin.Round.{ScriptEnv, poll_scripts, turn, main_loop}

pub record IsValid (s : Script) : Type 0 where
  pub readable : s.running ≡ active → (s.fp_stdout ≡ null) ⊎ (s.fp_stdout ≡ opened)
  pub msg_fits : length s.last_msg ≤ bufsiz
  pub result_flag : s.last_result ≤ 1
  pub pass_fits : s.pass_count < 18446744073709551616
  pub fail_fits : s.fail_count < 18446744073709551616

-- The step leaves the entry's identity alone.
pub record Same (s s' : Script) : Type 0 where
  pub name : s'.name ≡ s.name
  pub path : s'.path ≡ s.path

pub Running-cases :
    (s : Script) → (s.running ≡ active) ⊎ ((s.running ≡ idle) ⊎ (s.running ≡ disabled))
Running-cases s = ground arith

start_script-IsValid : (e : ForkEnv) (s : Script) → IsValid s → IsValid (start_script e s).0
unfolding start_script fork_cmd
start_script-IsValid e s v = ground arith

start_script-Same : (e : ForkEnv) (s : Script) → Same s (start_script e s).0
unfolding start_script fork_cmd
start_script-Same e s = ground arith

-- One line changes the last message at most.
handle_text-Worded :
    (line : Bytes) (s : Script)
    → (m : Bytes) × ((handle_text line s).0 ≡ record s { last_msg = m }) × (length m ≤ bufsiz)
unfolding handle_text
handle_text-Worded line s =
    elim (Bool-cases (starts_with (codes "MSG: ") line && ltb 5 (length line))) [
      | inl y ↦ rw y (strncpy bufsiz (drop 5 line), refl, length-strncpy bufsiz _)
      | inr n ↦ rw n (strncpy bufsiz line, refl, length-strncpy bufsiz _)
    ]

-- Lines that are not white space are handled, and so is the next turn.
pub handle_lines-Worded :
    (cs : List Bytes) (s : Script)
    → All HasText cs
    → (m : Bytes) × (calls : List LogCall) × (handle_lines cs s
        ≡ some (record s { last_msg = m }, calls))
      × (length s.last_msg ≤ bufsiz → length m ≤ bufsiz)
unfolding handle_lines handle_line
handle_lines-Worded [] s h = (s.last_msg, [], refl, λ l. l)
handle_lines-Worded (c ∷ cs) s h =
    let (m, e, l) = handle_text-Worded (trim c) s in
    let (m', calls, run, l') = handle_lines-Worded cs (record s { last_msg = m }) h.1 in
    (
      m',
      (handle_text (trim c) s).1 ++ calls,
      rw (trim_buffer-text c h.0) (rw e (rw run refl)),
      λ _. l' l,
    )

-- the lines that the scripts print in a turn
abbrev pub Prints : ScriptEnv → Type 0
Prints e = All HasText e.chunks

-- No script prints a line of white space.
abbrev pub AllPrint : List (ℕ → ScriptEnv) → Type 0
AllPrint = All (λ env. (i : ℕ) → Prints (env i))

handle_wait-IsValid : (w : Wait) (s : Script) → IsValid s → IsValid (handle_wait w s).0
unfolding handle_wait
handle_wait-IsValid w s v = ground arith

handle_wait-Same : (w : Wait) (s : Script) → Same s (handle_wait w s).0
unfolding handle_wait
handle_wait-Same w s = ground arith

-- What a turn does to an entry, on the three kinds of entry that a poll meets.
pub poll_opened :
    (cs : List Bytes) (w : Wait) (s t : Script) (calls : List LogCall)
    → s.running ≡ active
    → s.fp_stdout ≡ opened
    → handle_lines cs s ≡ some (t, calls)
    → poll_script cs w s ≡ some ((handle_wait w t).0, calls ++ (handle_wait w t).1)
unfolding poll_script
poll_opened cs w s t calls r f e = ground arith

pub poll_null :
    (cs : List Bytes) (w : Wait) (s : Script)
    → s.running ≡ active
    → s.fp_stdout ≡ null
    → poll_script cs w s
      ≡ some (s, message (codes "Error reading stdout from: " ++ (s.name ++ b'\n' ∷ [])) ∷ [])
unfolding poll_script
poll_null cs w s r f = ground arith

pub poll_other :
    (cs : List Bytes) (w : Wait) (s : Script)
    → (s.running ≡ idle) ⊎ (s.running ≡ disabled)
    → poll_script cs w s ≡ some (s, [])
unfolding poll_script
poll_other cs w s r = ground arith

-- A poll of a valid entry is defined: its stream is readable.
poll_script-IsValid :
    (cs : List Bytes) (w : Wait) (s : Script)
    → All HasText cs
    → IsValid s
    → (s' : Script) × (calls : List LogCall) × (poll_script cs w s ≡ some (s', calls))
      × IsValid s'
      × Same s s'
poll_script-IsValid cs w s h v = elim (Running-cases s) [
  | inl a ↦ elim (v.readable a) [
    | inl f ↦ (s, _, poll_null cs w s a f, v, record { name = refl; path = refl })
    | inr f ↦
        let (m, calls, e, l) = handle_lines-Worded cs s h in
        let v' : IsValid (record s { last_msg = m }) = ground (arith, l v.msg_fits) in
        let q = handle_wait-Same w (record s { last_msg = m }) in
        (
          _,
          _,
          poll_opened cs w s (record s { last_msg = m }) calls a f e,
          handle_wait-IsValid w _ v',
          record { name = q.name; path = q.path },
        )
  ]
  | inr o ↦ (s, [], poll_other cs w s o, v, record { name = refl; path = refl })
]

-- The result of a step on the table: it is defined, and the entries are valid and in their places.
abbrev pub Steps : List Script → Option (List Script × List LogCall) → Type 0
Steps ss r =
    (ss' : List Script) × (calls : List LogCall) × (r ≡ some (ss', calls))
    × All IsValid ss'
    × AllPairs Same ss ss'

Same-trans : {a b c : Script} → Same a b → Same b c → Same a c
Same-trans p q = record { name = q.name ∙ p.name; path = q.path ∙ p.path }

AllPairs-Same-refl : (ss : List Script) → AllPairs Same ss ss
AllPairs-Same-refl [] = tt
AllPairs-Same-refl (s ∷ ss) = (record { name = refl; path = refl }, AllPairs-Same-refl ss)

AllPairs-Same-trans :
    (ss bs cs : List Script) → AllPairs Same ss bs → AllPairs Same bs cs → AllPairs Same ss cs
AllPairs-Same-trans [] [] [] p q = tt
AllPairs-Same-trans [] [] (c ∷ cs) p q = absurd q
AllPairs-Same-trans [] (b ∷ bs) cs p q = absurd p
AllPairs-Same-trans (a ∷ ss) [] cs p q = absurd p
AllPairs-Same-trans (a ∷ ss) (b ∷ bs) [] p q = absurd q
AllPairs-Same-trans (a ∷ ss) (b ∷ bs) (c ∷ cs) p q =
    (Same-trans p.0 q.0, AllPairs-Same-trans ss bs cs p.1 q.1)

run_burnin_tests-IsValid :
    (env : ℕ → ForkEnv) (i : ℕ) (ss : List Script)
    → All IsValid ss
    → All IsValid (run_burnin_tests env i ss).0 × AllPairs Same ss (run_burnin_tests env i ss).0
unfolding run_burnin_tests
run_burnin_tests-IsValid env i [] v = (tt, tt)
run_burnin_tests-IsValid env i (s ∷ ss) v =
    let (vs, same) = run_burnin_tests-IsValid env (suc i) ss v.1 in
    ((start_script-IsValid (env i) s v.0, vs), (start_script-Same (env i) s, same))

poll_scripts-Steps :
    (env : ℕ → ScriptEnv) (i : ℕ) (ss : List Script)
    → ((k : ℕ) → Prints (env k))
    → All IsValid ss
    → Steps ss (poll_scripts env i ss)
unfolding poll_scripts
poll_scripts-Steps env i [] h v = ([], [], refl, tt, tt)
poll_scripts-Steps env i (s ∷ ss) h v =
    let (s', calls, e, v', same) = poll_script-IsValid (env i).chunks (env i).wait s (h i) v.0 in
    let (ss', more, e', vs', sames) = poll_scripts-Steps env (suc i) ss h v.1 in
    (
      s' ∷ ss',
      calls ++ more,
      rw (e, poll_scripts) (rw (e', poll_scripts) refl),
      (v', vs'),
      (same, sames),
    )

turn-Steps :
    (env : ℕ → ScriptEnv) (ss : List Script)
    → ((k : ℕ) → Prints (env k))
    → All IsValid ss
    → Steps ss (turn env ss)
unfolding turn
turn-Steps env ss h v =
    let (vs, same) = run_burnin_tests-IsValid (λ i. (env i).fork) 0 ss v in
    let (ss', more, e, v', same') = poll_scripts-Steps env 0 _ h vs in
    (
      ss',
      (run_burnin_tests (λ i. (env i).fork) 0 ss).1 ++ more,
      rw (e, turn) refl,
      v',
      AllPairs-Same-trans ss _ ss' same same',
    )

-- However the kernel answers, and for as many turns as one likes, if no script prints a line of white
-- space: from valid entries no turn reads a stream that has been closed or leaves a buffer, all entries
-- stay valid, and none is added, lost or renamed.
pub main_loop-IsValid :
    (envs : List (ℕ → ScriptEnv)) (ss : List Script)
    → AllPrint envs
    → All IsValid ss
    → Steps ss (main_loop envs ss)
unfolding main_loop
main_loop-IsValid [] ss h v = (ss, [], refl, v, AllPairs-Same-refl ss)
main_loop-IsValid (env ∷ envs) ss h v =
    let (ss', calls, e, v', same) = turn-Steps env ss h.0 v in
    let (ss'', more, e', v'', same') = main_loop-IsValid envs ss' h.1 v' in
    (
      ss'',
      calls ++ more,
      rw (e, main_loop) (rw (e', main_loop) refl),
      v'',
      AllPairs-Same-trans ss ss' ss'' same same',
    )
