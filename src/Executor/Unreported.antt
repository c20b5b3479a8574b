-- ===== src/Executor/Unreported.antt =====
-- What happens in scripts/experiment-harness/prompt12-precontrol-trigger-executor.py when the
-- output is there already, which only write_result looks at.
use tcd_oran_testbed_integra.Base.{
  ℕ, ◌≡◌, refl, Bool, true, false, Option, none, some, List, [], ◌∷◌, ◌++◌, String, if◌then◌else◌,
}
use tcd_oran_testbed_integra.Base.Text.{Text}
use tcd_oran_testbed_integra.Base.Integers.{ℤ}
use tcd_oran_testbed_integra.Base.Json.{Json}
use tcd_oran_testbed_integra.Stationarity.Decimals.{Decimals}
use tcd_oran_testbed_integra.Executor.Report.{
  Mode, no_control, fifo, Args, Host, Write, complete, partial, raised, Report, Ended,
}
use tcd_oran_testbed_integra.Executor.Checks.{
  Checked, passed, refused, crashed, Admission, admit, check_mode,
}
use tcd_oran_testbed_integra.Executor.Main.{
  write_result, dry_run, success, closing, has_surrogate, after_write, fire, control, execute,
  conclude, main, is_early, is_stale,
}

-- The first run leaves no report and an exception, and has written what the second one has.
pub record IsUnreported (e e' : Ended) : Type 0 where
  pub no_report : e.report ≡ none
  pub no_code : e.rc ≡ none
  pub same_writes : e.writes ≡ e'.writes

-- The host without the output.
abbrev pub cleared : Host → Host
cleared host = record host { output_exists = false }

module _ (host : Host) (there : host.output_exists ≡ true) where
  write_result-IsUnreported :
      (r : Report) (rc : ℕ) (writes : List Text)
      → IsUnreported (write_result host r rc writes) (write_result (cleared host) r rc writes)
  unfolding write_result
  write_result-IsUnreported r rc writes =
      simp there (record { no_report = refl; no_code = refl; same_writes = refl })

  if-IsUnreported :
      (b : Bool) {x y x' y' : Ended}
      → IsUnreported x x'
      → IsUnreported y y'
      → IsUnreported (if b then x else y) (if b then x' else y')
  if-IsUnreported true p q = p
  if-IsUnreported false p q = q

  rc_gone :
      (e e' : Ended)
      → IsUnreported e e'
      → IsUnreported (record e { rc = none }) (record e' { rc = none })
  rc_gone e e' u = record { no_report = u.no_report; no_code = refl; same_writes = u.same_writes }

  closing-IsUnreported :
      (e e' : Ended) → IsUnreported e e' → IsUnreported (closing host e) (closing (cleared host) e')
  unfolding closing
  closing-IsUnreported e e' u = if-IsUnreported host.close_fails (rc_gone e e' u) u

  after_write-IsUnreported :
      (w : Write) (writes : List Text)
      → IsUnreported (after_write host w writes) (after_write (cleared host) w writes)
  unfolding after_write
  after_write-IsUnreported (raised name) writes =
      closing-IsUnreported _ _ (write_result-IsUnreported _ 40 writes)
  after_write-IsUnreported partial writes =
      closing-IsUnreported _ _ (write_result-IsUnreported _ 40 writes)
  after_write-IsUnreported complete writes =
      if-IsUnreported host.close_fails
        (record { no_report = refl; no_code = refl; same_writes = refl })
        (write_result-IsUnreported success 0 writes)

  fire-IsUnreported :
      (token : Text) (o : Option String)
      → IsUnreported (fire token host o) (fire token (cleared host) o)
  unfolding fire
  fire-IsUnreported token (some name) = write_result-IsUnreported _ 40 []
  fire-IsUnreported token none =
      if-IsUnreported (has_surrogate token)
        (closing-IsUnreported _ _ (write_result-IsUnreported _ 40 []))
        (after_write-IsUnreported host.write ((token ++ (10 ∷ [])) ∷ []))

  control-IsUnreported :
      (mode : Mode) (args : Args)
      → IsUnreported (control mode args host) (control mode args (cleared host))
  control-IsUnreported no_control args = write_result-IsUnreported dry_run 0 []
  control-IsUnreported fifo args = fire-IsUnreported args.trigger_token host.open_error

  check_mode-cleared :
      (mode : Mode) (args : Args) → check_mode mode args host ≡ check_mode mode args (cleared host)
  unfolding check_mode
  check_mode-cleared no_control args = refl
  check_mode-cleared fifo args = refl

  module _ (D : Decimals) (decimal_of : Json → Option D.Number) (int_of : Json → Option ℤ) where
    conclude-IsUnreported :
        (args : Args) (c : Checked (Admission D))
        → IsUnreported
            (conclude D decimal_of int_of args host c)
            (conclude D decimal_of int_of args (cleared host) c)
    unfolding conclude execute is_early is_stale
    conclude-IsUnreported args (passed a) =
        if-IsUnreported (is_early D decimal_of int_of host a) (write_result-IsUnreported _ 35 []) (
          if-IsUnreported (is_stale D decimal_of int_of host a) (write_result-IsUnreported _ 32 [])
            (control-IsUnreported args.mode args))
    conclude-IsUnreported args (refused reason rc) = write_result-IsUnreported _ rc []
    conclude-IsUnreported args crashed = record {
      no_report = refl;
      no_code = refl;
      same_writes = refl;
    }

    admit-cleared :
        (args : Args)
        → admit D decimal_of int_of args (cleared host) ≡ admit D decimal_of int_of args host
    unfolding admit
    admit-cleared args = rw (check_mode-cleared args.mode args) refl

    -- If the output is there, the run ends with no report and with an exception, but it writes to
    -- the FIFO whatever it would write if the output were not there.
    pub main-IsUnreported :
        (args : Args)
        → IsUnreported
            (main D decimal_of int_of args host)
            (main D decimal_of int_of args (cleared host))
    unfolding main
    main-IsUnreported args =
        rw (admit-cleared args) (conclude-IsUnreported args (admit D decimal_of int_of args host))
