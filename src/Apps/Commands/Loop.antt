-- ===== src/Apps/Commands/Loop.antt =====
-- The program of apps/cmd/cmd.c runs the lines that are typed; its commands use no connection that is not
-- there and call no operation that the command line's table lacks.
use mathlib.Core.Path.{subst}
use elastos_net_hive_native.Apps.Line.{Input}
use elastos_net_hive_native.Base.{
  zero, ap, if◌then◌else◌, ℕ, suc, ◌≤◌, ◌<◌, ◌≡◌, refl, sym, ◌∙◌, Bool, true, false, Bytes, length,
  List, [], ◌∷◌, ◌++◌, Option, none, some, inl, inr, arith,
}
use elastos_net_hive_native.Error.Strerror.{FacilityDesc}
use elastos_net_hive_native.Api.Os.{Os}
use elastos_net_hive_native.Ipfs.Options.{IpfsNode}
use elastos_net_hive_native.Client.Object.{HiveClient, FactoryMethod}
use elastos_net_hive_native.Apps.Line.Words.{words, bounded}
use elastos_net_hive_native.Apps.Line.Typed.{all_print, Typed, read_cmd-Typed}
use elastos_net_hive_native.Apps.Ops.{Host}
use elastos_net_hive_native.Apps.Shell.{Shell, Run}
use elastos_net_hive_native.Apps.Fine.{IsReady, Fine, fine}
use elastos_net_hive_native.Apps.Connecting.{ConnectOptions}
use elastos_net_hive_native.Apps.Commands.{run_args, main_loop, unless_stopped}
use elastos_net_hive_native.Apps.Commands.{after_read}
use elastos_net_hive_native.Apps.Commands.Table.{run_args-Fine}

-- The lines as they are typed
abbrev pub typed_input : List Bytes → Bytes
typed_input [] = []
typed_input (text ∷ texts) = text ++ b'\n' ∷ typed_input texts

-- Lines of less than 1024 printable characters and of at most 64 words
abbrev pub AreShort : List Bytes → Type 0
AreShort [] = Unit {0}
AreShort (text ∷ texts) =
    (all_print text ≡ true) × (length text < 1024) × (length (words text) ≤ 64) × AreShort texts

module _ {W : Type 0} (os : Os W) (host : Host W) (facilities : List FacilityDesc)
    (methods : List (FactoryMethod W ConnectOptions)) (client : HiveClient)
    (nodes : List IpfsNode) where
  -- What a user expects: the words of each line are a command, until one stops the program.
  abbrev pub run_lines : List Bytes → Run W
  run_lines [] s = some (tt, s)
  run_lines (text ∷ texts) s =
      unless_stopped (run_lines texts)
        (run_args os host facilities methods client nodes (some (words text)) s)

  unless_stopped-eq :
      (next next' : Run W) (x : Option (Unit {0} × Shell W))
      → ((s : Shell W) → s.stop ≡ false → next s ≡ next' s)
      → unless_stopped next x ≡ unless_stopped next' x
  unless_stopped-eq next next' none same = refl
  unless_stopped-eq next next' (some (u, s)) same = at_stop s.stop refl
    where
      at_stop :
          (b : Bool)
          → s.stop ≡ b
          → (if b then some (u, s) else next s) ≡ (if b then some (u, s) else next' s)
      at_stop true is = refl
      at_stop false is = same s is

  unless_stopped-Fine :
      (next : Run W) (x : Option (Unit {0} × Shell W))
      → Fine x
      → ((s : Shell W) → IsReady s → Fine (next s))
      → Fine (unless_stopped next x)
  unless_stopped-Fine next none x h = elim x [ ]
  unless_stopped-Fine next (some (u, s)) (fine r) h = at_stop s.stop
    where
      at_stop : (b : Bool) → Fine (if b then some (tt, s) else next s)
      at_stop true = fine r
      at_stop false = h s r

  run_lines-Fine : (texts : List Bytes) (s : Shell W) → IsReady s → Fine (run_lines texts s)
  run_lines-Fine [] s r = fine r
  run_lines-Fine (text ∷ texts) s r =
      unless_stopped-Fine (run_lines texts) _
        (run_args-Fine os host facilities methods client nodes (words text) s r)
        (run_lines-Fine texts)

  bounded-some : (ws : List Bytes) → length ws ≤ 64 → bounded ws ≡ some ws
  bounded-some ws fits = ground arith

  -- One more line in front, which is read as a line or passed over
  main_loop-cons :
      (fuel : ℕ) (text : Bytes) (texts : List Bytes) (s : Shell W)
      → Typed text (typed_input texts)
      → length (words text) ≤ 64
      → s.stop ≡ false
      → ((more : ℕ) (s' : Shell W)
          → fuel ≤ more
          → s'.stop ≡ false
          → main_loop os host facilities methods client nodes more (typed_input texts) s'
            ≡ run_lines texts s')
      → main_loop os host facilities methods client nodes (suc fuel) (typed_input (text ∷ texts)) s
        ≡ run_lines (text ∷ texts) s
  unfolding main_loop run_args
  main_loop-cons fuel text texts s (inl (blank, read)) short on ih =
      ap
        (λ (i : Input).
          after_read os host facilities methods client nodes
            (main_loop os host facilities methods client nodes fuel) i s)
        read
      ∙ ih (suc fuel) s (omega arith) on
      ∙ ap (λ (b : Bool). if b then some (tt, s) else run_lines texts s) (sym on)
      ∙ ap
          (λ (ws : List Bytes).
            unless_stopped (run_lines texts)
              (run_args os host facilities methods client nodes (some ws) s))
          (sym blank)
  main_loop-cons fuel text texts s (inr (l, starts, read, split)) short on ih =
      let run = run_args os host facilities methods client nodes in
      let next = main_loop os host facilities methods client nodes fuel (typed_input texts) in
      ap
        (λ (i : Input).
          after_read os host facilities methods client nodes
            (main_loop os host facilities methods client nodes fuel) i s)
        read
      ∙ ap (λ (args : Option (List Bytes)). unless_stopped next (run args s))
          (split ∙ bounded-some (words text) short)
      ∙ unless_stopped-eq next (run_lines texts) (run (some (words text)) s)
          (λ s' on'. ih fuel s' (omega arith) on')

  main_loop-run_lines :
      (fuel : ℕ) (texts : List Bytes) (s : Shell W)
      → AreShort texts
      → length texts < fuel
      → s.stop ≡ false
      → main_loop os host facilities methods client nodes fuel (typed_input texts) s
        ≡ run_lines texts s
  unfolding main_loop
  main_loop-run_lines zero texts s short enough on = absurd (omega (arith, enough))
  main_loop-run_lines (suc fuel) [] s short enough on = refl
  main_loop-run_lines (suc fuel) (text ∷ texts) s (print, room, few, rest) enough on =
      main_loop-cons fuel text texts s (read_cmd-Typed text (typed_input texts) print room) few on
        (λ more s' le on'. main_loop-run_lines more texts s' rest (omega (arith, enough, le)) on')

  -- Lines of less than 1024 printable characters and at most 64 words are typed. Then as many rounds as
  -- there are lines, and one more, are enough for the loop of `main`: it runs the words of each line as a
  -- command until one stops it, and no command uses a connection that is not there or calls an operation
  -- that the table of the command line lacks, from a state in which the table of a connection has the
  -- operations that are called without a check.
  pub main_loop-Typed :
      (texts : List Bytes) (s : Shell W) (fuel : ℕ)
      → AreShort texts
      → length texts < fuel
      → s.stop ≡ false
      → IsReady s
      → (main_loop os host facilities methods client nodes fuel (typed_input texts) s
          ≡ run_lines texts s)
        × Fine (main_loop os host facilities methods client nodes fuel (typed_input texts) s)
  main_loop-Typed texts s fuel short enough on r =
      let same = main_loop-run_lines fuel texts s short enough on in
      (same, subst Fine (sym same) (run_lines-Fine texts s r))
