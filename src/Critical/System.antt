-- ===== src/Critical/System.antt =====
-- Any number of invocations of
-- scripts/experiment-harness/prompt12-t2-critical-section.py that share a file system. A schedule
-- says which invocation makes its next call, and what the environment answers; an invocation that
-- is never scheduled again has crashed.
use tcd_oran_testbed_integra.Base.{
  ℕ, zero, suc, Bool, true, false, ◌&&◌, ◌||◌, List, [], ◌∷◌, String, if◌then◌else◌,
}
use tcd_oran_testbed_integra.Base.Text.{Text, text_eq}
use tcd_oran_testbed_integra.Base.Paths.{FilePath, path_eq}
use tcd_oran_testbed_integra.Critical.Program.{
  File, intent, outcome, executor_output, claim, precontrol, ratio_bind, trigger, Op, exists,
  create, persist, question, utc_now, child, read_report, Creation, created, file_exists, os_error,
  ChildResult, Reading, Answer, Program, ret, fail, call,
}
use tcd_oran_testbed_integra.Critical.Section.{Failure}

abbrev pub file_eq : File → File → Bool
file_eq (intent a) (intent b) = path_eq a b
file_eq (outcome a) (outcome b) = path_eq a b
file_eq (executor_output a) (executor_output b) = path_eq a b
file_eq (claim a s) (claim b t) = path_eq a b && text_eq s t
file_eq _ _ = false

abbrev pub member : File → List File → Bool
member f [] = false
member f (g ∷ gs) = file_eq f g || member f gs

-- What the environment answers when it is asked: whether a call fails, what a child returns and
-- whether it has left the report of the executor, and what is read.
pub record Environment : Type 0 where
  pub creation_fails : Bool
  pub persists : Bool
  pub answer : Bool
  pub now : String
  pub result : ChildResult
  pub leaves_report : Bool
  pub reading : Reading

unfoldable pub creation : Bool → Bool → Creation
creation true is_there = os_error
creation false true = file_exists
creation false false = created

abbrev pub added : File → Creation → List File → List File
added f created files = f ∷ files
added f _ files = files

unfoldable pub perform : (op : Op) → Environment → List File → Answer op × List File
perform (exists f) e files = (member f files, files)
perform (create f) e files =
    let c = creation e.creation_fails (member f files) in (c, added f c files)
perform (persist f content) e files = (e.persists, files)
perform (question q) e files = (e.answer, files)
perform utc_now e files = (e.now, files)
perform (child root id label argv) e files =
    (e.result, if e.leaves_report then executor_output root ∷ files else files)
perform (read_report f) e files = (e.reading, files)

-- The triggers that have been dispatched, with their run and operation.
abbrev pub Triggers : Type 0
Triggers = List (FilePath × Text)

unfoldable pub note : Op → Triggers → Triggers
note (child root id trigger argv) triggers = (root, id) ∷ triggers
note (child root id precontrol argv) triggers = triggers
note (child root id ratio_bind argv) triggers = triggers
note (exists f) triggers = triggers
note (create f) triggers = triggers
note (persist f content) triggers = triggers
note (question q) triggers = triggers
note utc_now triggers = triggers
note (read_report f) triggers = triggers

pub record System : Type 0 where
  pub files : List File
  pub triggers : Triggers
  pub invocations : List (Program Failure ℕ)

-- One call of the invocation with the given index.
unfoldable pub step : ℕ → Environment → List File → Triggers → List (Program Failure ℕ) → System
step i e files triggers [] = record { files = files; triggers = triggers; invocations = [] }
step zero e files triggers (call op k ∷ ps) =
    let (a, files') = perform op e files in
    record { files = files'; triggers = note op triggers; invocations = k a ∷ ps }
step zero e files triggers (ret n ∷ ps) = record {
  files = files;
  triggers = triggers;
  invocations = ret n ∷ ps;
}
step zero e files triggers (fail x ∷ ps) = record {
  files = files;
  triggers = triggers;
  invocations = fail x ∷ ps;
}
step (suc i) e files triggers (p ∷ ps) =
    let s = step i e files triggers ps in record s { invocations = p ∷ s.invocations }

unfoldable pub run : List (ℕ × Environment) → System → System
run [] s = s
run ((i, e) ∷ schedule) s = run schedule (step i e s.files s.triggers s.invocations)

-- Invocations that have not made a call, and no trigger.
unfoldable pub start_all : List File → List (Program Failure ℕ) → System
start_all files invocations = record { files = files; triggers = []; invocations = invocations }
