-- ===== src/Burnin/Share.antt =====
-- A turn treats every script by itself: entry `i` of the table goes through its own share of the
-- turn, whatever the other entries do.
use native.Mathlib.Nat.{add-zero, zero-add}
use breakin.Base.{
  ℕ, zero, suc, ◌+◌, ◌≡◌, refl, sym, ap, ◌∙◌, List, [], ◌∷◌, ◌++◌, some, map, arith, get_elem?,
  >>=-eq-some, some-eq,
}
use breakin.Log.{LogCall}
use breakin.Burnin.Script.{Script}
use breakin.Burnin.Fork.{ForkEnv, start_script, run_burnin_tests}
use breakin.Burnin.Poll.{poll_script}
use breakin.Burnin.Round.{ScriptEnv, poll_scripts, turn, main_loop, script_turn}
use breakin.Burnin.Tally.{script_life}

start-get :
    (env : ℕ → ForkEnv) (k i : ℕ) (ss : List Script) {s : Script}
    → get_elem? ss i ≡ some s
    → get_elem? (run_burnin_tests env k ss).0 i ≡ some (start_script (env (k + i)) s).0
unfolding run_burnin_tests
start-get env k i [] h = cc
start-get env k zero (s ∷ ss) h =
    rw (add-zero k) (ap (λ x. some (start_script (env k) x).0) (some-eq h))
start-get env k (suc i) (s ∷ ss) {s = t} h =
    start-get env (suc k) i ss h ∙ ap (λ n. some (start_script (env n) t).0) (omega arith)

poll_scripts-cons :
    (env : ℕ → ScriptEnv) (k : ℕ) (s : Script) (ss ss' : List Script) (calls : List LogCall)
    → poll_scripts env k (s ∷ ss) ≡ some (ss', calls)
    → (s' : Script) × (c : List LogCall) × (rest : List Script) × (more : List LogCall)
      × (poll_script (env k).chunks (env k).wait s ≡ some (s', c))
      × (poll_scripts env (suc k) ss ≡ some (rest, more))
      × (ss' ≡ s' ∷ rest)
unfolding poll_scripts
poll_scripts-cons env k s ss ss' calls h =
    let ((s', c), e, h') = >>=-eq-some (poll_script (env k).chunks (env k).wait s) _ h in
    let ((rest, more), e', h'') = >>=-eq-some (poll_scripts env (suc k) ss) _ h' in
    (s', c, rest, more, e, e', ap (λ x. x.0) (sym (some-eq h'')))

poll-get :
    (env : ℕ → ScriptEnv) (k i : ℕ) (ss ss' : List Script) (calls : List LogCall) {s : Script}
    → poll_scripts env k ss ≡ some (ss', calls)
    → get_elem? ss i ≡ some s
    → (s' : Script) × (more : List LogCall) × (get_elem? ss' i ≡ some s')
      × (poll_script (env (k + i)).chunks (env (k + i)).wait s ≡ some (s', more))
poll-get env k i [] ss' calls r h = cc
poll-get env k zero (s ∷ ss) ss' calls {s = t} r h =
    let (s', c, rest, more, e, e', split) = poll_scripts-cons env k s ss ss' calls r in
    (s', c, rw split refl, rw (add-zero k, ← some-eq h) e)
poll-get env k (suc i) (s ∷ ss) ss' calls {s = t} r h =
    let (s', c, rest, more, e, e', split) = poll_scripts-cons env k s ss ss' calls r in
    let (t', c', g, p) = poll-get env (suc k) i ss rest more e' h in
    let n : k + suc i ≡ suc k + i = omega arith in (t', c', rw split g, rw n p)

-- What a turn does to entry `i` is what `script_turn` does to it alone.
turn-get :
    (env : ℕ → ScriptEnv) (i : ℕ) (ss ss' : List Script) (calls : List LogCall) {s : Script}
    → turn env ss ≡ some (ss', calls)
    → get_elem? ss i ≡ some s
    → (s' : Script) × (more : List LogCall) × (get_elem? ss' i ≡ some s')
      × (script_turn (env i) s ≡ some (s', more))
unfolding turn script_turn
turn-get env i ss ss' calls {s = s} h g =
    let started : List Script × List LogCall = run_burnin_tests (λ j. (env j).fork) 0 ss in
    let ((polled, more), e, h') = >>=-eq-some (poll_scripts env 0 started.0) _ h in
    let g' : get_elem? started.0 i ≡ some (start_script (env i).fork s).0 =
      start-get (λ j. (env j).fork) 0 i ss g
      ∙ ap (λ n. some (start_script (env n).fork s).0) (zero-add i) in
    let (s', c, gs, p) = poll-get env 0 i started.0 polled more e g' in
    let p' : poll_script (env i).chunks (env i).wait (start_script (env i).fork s).0
        ≡ some (s', c) =
      ap (λ n. poll_script (env n).chunks (env n).wait (start_script (env i).fork s).0)
        (sym (zero-add i))
      ∙ p in
    (
      s',
      (start_script (env i).fork s).1 ++ c,
      rw (← ap (λ x. x.0) (some-eq h')) gs,
      rw (p', script_turn) refl,
    )

-- If the whole loop is defined, it acts on entry `i` of the table as it would on a table of that
-- entry alone.
pub main_loop-get :
    (envs : List (ℕ → ScriptEnv)) (i : ℕ) (ss ss' : List Script) (calls : List LogCall) {s : Script}
    → main_loop envs ss ≡ some (ss', calls)
    → get_elem? ss i ≡ some s
    → (s' : Script) × (get_elem? ss' i ≡ some s')
      × (script_life (map (λ env. env i) envs) s ≡ some s')
unfolding main_loop script_life
main_loop-get [] i ss ss' calls {s = s} h g = (s, rw (← ap (λ x. x.0) (some-eq h)) g, refl)
main_loop-get (env ∷ envs) i ss ss' calls {s = s} h g =
    let ((ss1, c1), e, h') = >>=-eq-some (turn env ss) _ h in
    let ((ss2, c2), e', h'') = >>=-eq-some (main_loop envs ss1) _ h' in
    let (s1, _, g1, t1) = turn-get env i ss ss1 c1 e g in
    let (s2, g2, l2) = main_loop-get envs i ss1 ss2 c2 e' g1 in
    (s2, rw (← ap (λ x. x.0) (some-eq h'')) g2, rw (t1, script_life) l2)
