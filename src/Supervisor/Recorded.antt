-- ===== src/Supervisor/Recorded.antt =====
-- A host that also writes down which commands were run, and how each ended
-- (scripts/experiment-harness/prompt12-bounded-orchestration-supervisor.py).
use tcd_oran_testbed_integra.Base.{
  ℕ, ◌+◌, ◌≡◌, true, Option, some, List, [], ◌∷◌, get_elem?, String,
}
use tcd_oran_testbed_integra.Base.Text.{Text, codes, strip, splitlines}
use tcd_oran_testbed_integra.Supervisor.Host.{Host, Outcome, Live, returned, success, base_report}
use tcd_oran_testbed_integra.Supervisor.Live.{Plan, Transition, has_line, run_live}

-- A call of `subprocess.run`.
pub record Call : Type 0 where
  pub argv : List String
  pub outcome : Outcome

-- The state of a host, and the calls so far, the latest first.
pub record Journal (W : Type 0) : Type 0 where
  pub world : W
  pub calls : List Call

-- An answer of the host, which is no call of `subprocess.run`.
abbrev unnoted : {W A : Type 0} → (W → A × W) → Journal W → A × Journal W
unnoted f j = let (a, w) = f j.world in (a, record j { world = w })

abbrev noted : {W : Type 0} → List String → (W → Outcome × W) → Journal W → Outcome × Journal W
noted argv f j =
    let (o, w) = f j.world in
    (o, record { world = w; calls = record { argv = argv; outcome = o } ∷ j.calls })

-- The same host, with its journal.
abbrev pub recorded : Host → Host
recorded host = record {
  World = Journal host.World;
  monotonic = unnoted host.monotonic;
  sleep = λ n j. record j { world = host.sleep n j.world };
  run = λ argv limit. noted argv (host.run argv limit);
  start = λ argv. unnoted (host.start argv);
  poll = unnoted host.poll;
  terminate = λ j. record j { world = host.terminate j.world };
  loads = host.loads;
}

-- What a host keeps true of its state: whatever it is asked, and whichever of some commands it
-- runs.
pub record Preserves (host : Host) (I : host.World → Type 0) (Allowed : List String → Type 0)
    : Type 0 where
  pub clock : (w : host.World) → I w → I (host.monotonic w).1
  pub slept : (n : ℕ) (w : host.World) → I w → I (host.sleep n w)
  pub ran :
      (argv : List String) (limit : ℕ)
      → Allowed argv
      → (w : host.World) → I w
      → I (host.run argv limit w).1
  pub begun : (argv : List String) (w : host.World) → I w → I (host.start argv w).1
  pub polled : (w : host.World) → I w → I (host.poll w).1
  pub ended : (w : host.World) → I w → I (host.terminate w)

-- The commands of a plan that are no triggers.
pub data IsCheck (plan : Plan) : List String → Type 0 where
  initial : IsCheck plan plan.initial_stationarity_command
  final : IsCheck plan plan.finalization_command
  bind :
      (k : ℕ) (t : Transition) {argv : List String}
      → get_elem? plan.transitions k ≡ some t
      → t.ratio_bind_command ≡ some argv
      → IsCheck plan argv
  post :
      (k : ℕ) (t : Transition)
      → get_elem? plan.transitions k ≡ some t
      → IsCheck plan t.post_stationarity_command

-- The latest call is the ratio binding of a transition, which has returned 0 and printed its marker.
pub record IsBound (t : Transition) (calls : List Call) : Type 0 where
  pub argv : List String
  pub is_binding : t.ratio_bind_command ≡ some argv
  pub stdout : Text
  pub marked : has_line (codes "RATIO_BOUND=PASS") (splitlines (strip stdout)) ≡ true
  pub before : List Call
  pub latest : calls ≡ record { argv = argv; outcome = returned success stdout } ∷ before

-- The calls are those of checks and of so many triggers: the first ones of the plan, each called
-- once, in order, directly after its ratio binding, with return code 0.
pub data Calls (plan : Plan) : ℕ → List Call → Type 0 where
  none_yet : Calls plan 0 []
  check :
      {k : ℕ} {argv : List String} {outcome : Outcome} {calls : List Call}
      → IsCheck plan argv
      → Calls plan k calls
      → Calls plan k (record { argv = argv; outcome = outcome } ∷ calls)
  trigger :
      {k : ℕ} (t : Transition) {stdout : Text} {calls : List Call}
      → get_elem? plan.transitions k ≡ some t
      → IsBound t calls
      → Calls plan k calls
      → Calls plan
          (k + 1)
          (record { argv = t.trigger_command; outcome = returned success stdout } ∷ calls)

-- The calls of a run with so many attempts and successes: every attempt was a success, or the run
-- stopped at the last one, before its command was run or because of how that ended.
pub data Sent (plan : Plan) : ℕ → ℕ → List Call → Type 0 where
  whole : {k : ℕ} {calls : List Call} → Calls plan k calls → Sent plan k k calls
  unsent : {k : ℕ} {calls : List Call} → Calls plan k calls → Sent plan (k + 1) k calls
  failed :
      {k : ℕ} (t : Transition) {outcome : Outcome} {calls : List Call}
      → get_elem? plan.transitions k ≡ some t
      → ((stdout : Text) → ¬ (outcome ≡ returned success stdout))
      → IsBound t calls
      → Calls plan k calls
      → Sent plan (k + 1) k (record { argv = t.trigger_command; outcome = outcome } ∷ calls)

-- The calls of a live run that starts in a state of the host.
abbrev pub calls_of : (host : Host) → Plan → Option String → Option String → host.World → List Call
calls_of host plan enable token w =
    let begin : Live (Journal host.World) = record {
      world = record { world = w; calls = [] };
      report = base_report;
    } in
    (run_live (recorded host) plan enable token begin).1.world.calls
