-- ===== src/Log/Outputs.antt =====
-- The writes of a schedule seen from one output: an interleaving of threads is one of their writes to it.

use breakin.Base.{
  append-nil, ◌≡◌, refl, sym, ap, ◌∙◌, Bool, true, false, List, [], ◌∷◌, ◌++◌, concat, map, Merge,
  done, left, right, Merged,
}
use breakin.Text.{Bytes}
use breakin.Log.{Sinks, append_to, append_serial}
use breakin.Log.Replay.{append_to_nil, append_to_append, append_serial_nil, append_serial_append}
use breakin.Log.Writes.{Output, win, file, device, serial, Write, to, put, run_writes}

abbrev same_output : Output → Output → Bool
same_output win win = true
same_output file file = true
same_output device device = true
same_output serial serial = true
same_output _ _ = false

abbrev keep : Bool → Bytes → List Bytes → List Bytes
keep true x xs = x ∷ xs
keep false x xs = xs

-- the texts that are written to one output
abbrev pub texts_on : Output → List Write → List Bytes
texts_on o [] = []
texts_on o (w ∷ ws) = keep (same_output o w.output) w.text (texts_on o ws)

keep-left :
    (b : Bool) (x : Bytes) {xs ys zs : List Bytes}
    → Merge xs ys zs
    → Merge (keep b x xs) ys (keep b x zs)
keep-left true x m = left m
keep-left false x m = m

keep-right :
    (b : Bool) (y : Bytes) {xs ys zs : List Bytes}
    → Merge xs ys zs
    → Merge xs (keep b y ys) (keep b y zs)
keep-right true y m = right m
keep-right false y m = m

texts_on-Merge :
    (o : Output) {xs ys zs : List Write}
    → Merge xs ys zs
    → Merge (texts_on o xs) (texts_on o ys) (texts_on o zs)
texts_on-Merge o done = done
texts_on-Merge o (left {x} m) = keep-left (same_output o x.output) x.text (texts_on-Merge o m)
texts_on-Merge o (right {y} m) = keep-right (same_output o y.output) y.text (texts_on-Merge o m)

pub texts_on-Merged :
    (o : Output) (xss : List (List Write)) (zs : List Write)
    → Merged xss zs
    → Merged (map (texts_on o) xss) (texts_on o zs)
texts_on-Merged o [] zs e = ap (texts_on o) e
texts_on-Merged o (xs ∷ xss) zs (ys, ms, m) =
    (texts_on o ys, texts_on-Merged o xss ys ms, texts_on-Merge o m)

keep-append : (b : Bool) (x : Bytes) (xs ys : List Bytes) → keep b x (xs ++ ys) ≡ keep b x xs ++ ys
keep-append true x xs ys = refl
keep-append false x xs ys = refl

pub texts_on-append :
    (o : Output) (v w : List Write) → texts_on o (v ++ w) ≡ texts_on o v ++ texts_on o w
texts_on-append o [] w = refl
texts_on-append o (x ∷ v) w =
    ap (keep (same_output o x.output) x.text) (texts_on-append o v w)
    ∙ keep-append (same_output o x.output) x.text (texts_on o v) (texts_on o w)

-- The writes of a schedule, output by output.
put-file :
    (o : Output) (text : Bytes) (rest : List Bytes) (s : Sinks)
    → append_to (put o text s).log_file (concat rest)
      ≡ append_to s.log_file (concat (keep (same_output file o) text rest))
put-file win text rest s = refl
put-file file text rest s = append_to_append s.log_file text (concat rest)
put-file device text rest s = refl
put-file serial text rest s = refl

put-device :
    (o : Output) (text : Bytes) (rest : List Bytes) (s : Sinks)
    → append_to (put o text s).logdev_file (concat rest)
      ≡ append_to s.logdev_file (concat (keep (same_output device o) text rest))
put-device win text rest s = refl
put-device file text rest s = refl
put-device device text rest s = append_to_append s.logdev_file text (concat rest)
put-device serial text rest s = refl

put-serial :
    (o : Output) (text : Bytes) (rest : List Bytes) (s : Sinks)
    → append_serial (put o text s).serial_enabled (put o text s).serial_file (concat rest)
      ≡ append_serial s.serial_enabled s.serial_file
          (concat (keep (same_output serial o) text rest))
put-serial win text rest s = refl
put-serial file text rest s = refl
put-serial device text rest s = refl
put-serial serial text rest s =
    append_serial_append s.serial_enabled s.serial_file text (concat rest)

pub run_writes-file :
    (ws : List Write) (s : Sinks)
    → (run_writes ws s).log_file ≡ append_to s.log_file (concat (texts_on file ws))
unfolding run_writes
run_writes-file [] s = sym (append_to_nil s.log_file)
run_writes-file (w ∷ ws) s =
    run_writes-file ws (put w.output w.text s) ∙ put-file w.output w.text (texts_on file ws) s

pub run_writes-device :
    (ws : List Write) (s : Sinks)
    → (run_writes ws s).logdev_file ≡ append_to s.logdev_file (concat (texts_on device ws))
unfolding run_writes
run_writes-device [] s = sym (append_to_nil s.logdev_file)
run_writes-device (w ∷ ws) s =
    run_writes-device ws (put w.output w.text s) ∙ put-device w.output w.text (texts_on device ws) s

pub run_writes-serial :
    (ws : List Write) (s : Sinks)
    → (run_writes ws s).serial_file
      ≡ append_serial s.serial_enabled s.serial_file (concat (texts_on serial ws))
unfolding run_writes
run_writes-serial [] s = sym (append_serial_nil s.serial_enabled s.serial_file)
run_writes-serial (w ∷ ws) s =
    run_writes-serial ws (put w.output w.text s) ∙ put-serial w.output w.text (texts_on serial ws) s

-- The writes of some texts to one output, seen from it and from another.
texts_on-to : (o : Output) (texts : List Bytes) → texts_on o (map (to o) texts) ≡ texts
texts_on-to o [] = refl
texts_on-to win (x ∷ xs) = ap (x ∷◌) (texts_on-to win xs)
texts_on-to file (x ∷ xs) = ap (x ∷◌) (texts_on-to file xs)
texts_on-to device (x ∷ xs) = ap (x ∷◌) (texts_on-to device xs)
texts_on-to serial (x ∷ xs) = ap (x ∷◌) (texts_on-to serial xs)

texts_on-other :
    (o p : Output) (texts : List Bytes)
    → same_output o p ≡ false
    → texts_on o (map (to p) texts) ≡ []
texts_on-other o p [] h = refl
texts_on-other o p (x ∷ xs) h = rw h (texts_on-other o p xs h)

pub texts_on-update :
    (xs ys : List Bytes)
    → (texts_on file (map (to device) xs ++ map (to serial) ys) ≡ [])
      × (texts_on device (map (to device) xs ++ map (to serial) ys) ≡ xs)
      × (texts_on serial (map (to device) xs ++ map (to serial) ys) ≡ ys)
texts_on-update xs ys = (
  texts_on-append file (map (to device) xs) (map (to serial) ys)
      ∙ rw (texts_on-other file device xs refl) (texts_on-other file serial ys refl),
  texts_on-append device (map (to device) xs) (map (to serial) ys)
      ∙ rw (texts_on-to device xs, texts_on-other device serial ys refl) (append-nil xs),
  texts_on-append serial (map (to device) xs) (map (to serial) ys)
      ∙ rw (texts_on-other serial device xs refl) (texts_on-to serial ys),
)
