-- ===== src/Startup/Follow.antt =====
-- A command that is followed is followed to its end, and no further.
use breakin.Base.{
  ◌≡◌, refl, sym, ap, ◌∙◌, true, false, List, [], ◌∷◌, ◌++◌, append_assoc, map, concat, some, All,
}
use breakin.Text.{Bytes, codes}
use breakin.Log.{LogCall, message, window}
use breakin.Burnin.Script.{null, opened, Pid}
use breakin.Burnin.Fork.{ForkEnv, fork_cmd}
use breakin.Startup.{Look, watch, follow, follow_cmd, hardware_setup, dump_log}

-- the calls that the lines of some rounds make
abbrev pub shown : (Bytes → LogCall) → List Look → List LogCall
shown show ls = concat (map (λ l. map show l.lines) ls)

watch_quiet :
    (show : Bytes → LogCall) (final : List LogCall) (l : Look) (ls : List Look)
    → l.reaped ≡ false
    → watch show final (l ∷ ls) ≡ record {
      calls = map show l.lines ++ (watch show final ls).calls;
      finished = (watch show final ls).finished;
    }
unfolding watch
watch_quiet show final l ls q = rw q refl

watch_last :
    (show : Bytes → LogCall) (final : List LogCall) (l : Look) (ls : List Look)
    → l.reaped ≡ true
    → watch show final (l ∷ ls) ≡ record { calls = map show l.lines ++ final; finished = true }
unfolding watch
watch_last show final l ls q = rw q refl

watch-ends :
    (show : Bytes → LogCall) (final : List LogCall) (quiet : List Look) (last : Look)
    (rest : List Look)
    → All (λ l. l.reaped ≡ false) quiet
    → last.reaped ≡ true
    → watch show final (quiet ++ last ∷ rest)
      ≡ record { calls = shown show quiet ++ (map show last.lines ++ final); finished = true }
watch-ends show final [] last rest a e = watch_last show final last rest e
watch-ends show final (l ∷ quiet) last rest a e =
    watch_quiet show final l (quiet ++ last ∷ rest) a.0
    ∙ rw (watch-ends show final quiet last rest a.1) (
        ap (λ c. record { calls = c; finished = true })
          (sym (append_assoc (map show l.lines) (shown show quiet) _)))

follow-ends :
    (show : Bytes → LogCall) (final : List LogCall) (quiet : List Look) (last : Look)
    (rest : List Look)
    → All (λ l. l.reaped ≡ false) quiet
    → last.reaped ≡ true
    → follow show final opened (quiet ++ last ∷ rest) ≡ record {
      calls = shown show quiet ++ (map show last.lines ++ final);
      finished = true;
      over = true;
    }
unfolding follow
follow-ends show final quiet last rest a e = rw (watch-ends show final quiet last rest a e) refl

follow_null :
    (show : Bytes → LogCall) (final : List LogCall) (ls : List Look)
    → follow show final null ls ≡ record { calls = []; finished = false; over = true }
unfolding follow
follow_null show final ls = refl

-- The hardware setup and the dump of the log, if the command is waited for in some round: if it could be
-- started, the loop ends in the first such round, whatever would come after it, with a call for each
-- line that was read by then, in order, and the setup's one message at its end. If it could not be
-- started, the loop is over at once and the setup does not count as finished.
pub follow_cmd_lem :
    (e : ForkEnv) (old : Pid) (quiet : List Look) (last : Look) (rest : List Look)
    → All (λ l. l.reaped ≡ false) quiet
    → last.reaped ≡ true
    → let setup = fork_cmd e old (some (codes "Starting hardware setup")) in
      let dump = fork_cmd e old (some (codes "Dumping log to USB device")) in
      let ls : List Look = quiet ++ last ∷ rest in
      (setup.stream ≡ opened
        → hardware_setup e old ls ≡ record {
          calls =
              setup.calls
              ++ (shown (λ t. window t) quiet
                  ++ (map (λ t. window t) last.lines
                      ++ message (codes "Finished hardware setup") ∷ []));
          finished = true;
          over = true;
        })
      × (dump.stream ≡ opened
          → dump_log e old ls ≡ record {
            calls =
                dump.calls
                ++ (shown (λ t. message t) quiet ++ (map (λ t. message t) last.lines ++ []));
            finished = true;
            over = true;
          })
      × (setup.stream ≡ null
          → hardware_setup e old ls
            ≡ record { calls = setup.calls ++ []; finished = false; over = true })
unfolding hardware_setup dump_log follow_cmd
follow_cmd_lem e old quiet last rest a r = (
  λ s.
      rw
        (
          s,
          follow-ends (λ t. window t) (message (codes "Finished hardware setup") ∷ []) quiet last
              rest a r,
        )
        refl,
  λ s. rw (s, follow-ends (λ t. message t) [] quiet last rest a r) refl,
  λ s.
      rw
        (
          s,
          follow_null (λ t. window t) (message (codes "Finished hardware setup") ∷ [])
              (quiet ++ last ∷ rest),
        )
        refl,
)
