-- ===== src/Critical/Program.antt =====
-- A run of the critical section (scripts/experiment-harness/prompt12-t2-critical-section.py) as a
-- tree of the calls it makes of the operating system, so that runs can be interleaved and stopped
-- between any two calls.
use tcd_oran_testbed_integra.Base.{Bool, Option, String, List}
use tcd_oran_testbed_integra.Base.Text.{Text}
use tcd_oran_testbed_integra.Base.Json.{Json}
use tcd_oran_testbed_integra.Base.Paths.{FilePath}

-- The files of a run, by its root directory, and the claim of an operation in a directory.
pub data File : Type 0 where
  intent outcome executor_output : (root : FilePath) → File
  claim : (directory : FilePath) (operation_id : Text) → File

-- What is written in the critical outcome, less what is the same in each.
pub record Outcome : Type 0 where
  pub operation_id : Text
  pub is_confirmed_state : Bool
  pub trigger_dispatch_attempted : Bool
  pub trigger_execution_confirmed : Bool
  pub readback_window_start_utc : Option String
  pub failure_reason : Option String

-- The record of an intent or claim, which says that the operation is consumed, or an outcome.
pub data Content : Type 0 where
  consumed : (operation_id : Text) → Content
  outcome_of : Outcome → Content

pub data Label : Type 0 where
  precontrol ratio_bind trigger : Label

-- What is asked of a directory: whether the control directory is there, whether the claims are a
-- symbolic link, whether they can be made, and whether they are a directory.
pub data Question : Type 0 where
  control_is_dir claims_is_symlink claims_mkdir claims_is_dir : Question

pub data Op : Type 0 where
  exists : File → Op  -- `path.exists()`
  create : File → Op  -- `os.open` with O_CREAT and O_EXCL
  persist : File → Content → Op  -- the writing and the `fsync` of what has been created
  question : Question → Op
  utc_now : Op
  child : (root : FilePath) (operation_id : Text) → Label → List Text → Op  -- `subprocess.run`, in an operation of a run
  read_report : File → Op  -- `json.loads(path.read_text())`

-- How `os.open` ended: the file was made, it was there, or another OSError.
pub data Creation : Type 0 where
  created file_exists os_error : Creation

-- How `subprocess.run` ended: the child returned 0 with an output, it returned another code, it
-- could not be started or its time ran out, or its output is no text.
pub data ChildResult : Type 0 where
  returned : Text → ChildResult
  failed : String → ChildResult
  unknown : String → ChildResult
  undecodable : ChildResult

-- How a file or text was read: it is JSON, it is none or cannot be read, or it is no text.
pub data Reading : Type 0 where
  json : Json → Reading
  unreadable not_text : Reading

abbrev pub Answer : Op → Type 0
Answer (exists f) = Bool
Answer (create f) = Creation
Answer (persist f content) = Bool
Answer (question q) = Bool
Answer utc_now = String
Answer (child root id label argv) = ChildResult
Answer (read_report f) = Reading

-- A program ends with a value or an exception, or makes a call and goes on with the answer.
pub data Program (E A : Type 0) : Type 0 where
  ret : A → Program E A
  fail : E → Program E A
  call : (op : Op) → (Answer op → Program E A) → Program E A

infixl 5 ◌>>=◌ ◌>>◌
unfoldable pub ◌>>=◌ : {E A B : Type 0} → Program E A → (A → Program E B) → Program E B
ret a >>= f = f a
fail e >>= f = fail e
call op k >>= f = call op (λ a. k a >>= f)

abbrev pub ◌>>◌ : {E A B : Type 0} → Program E A → Program E B → Program E B
p >> q = p >>= λ _. q

unfoldable pub ask : {E : Type 0} (op : Op) → Program E (Answer op)
ask op = call op ret

-- `except ... as exc: raise ... from exc`, for every exception of the program
unfoldable pub rethrow : {E F A : Type 0} → (E → F) → Program E A → Program F A
rethrow f (ret a) = ret a
rethrow f (fail e) = fail (f e)
rethrow f (call op k) = call op (λ a. rethrow f (k a))

-- `try: ... finally: last`, where the last block sees how the first ended, and an exception that it
-- raises is the one that remains.
unfoldable pub finally_do :
    {E F A : Type 0}
    → (A → Program F (Unit {0}))
    → (E → Program F (Unit {0}))
    → (E → F)
    → Program E A
    → Program F A
finally_do on_ret on_fail f (ret a) = on_ret a >> ret a
finally_do on_ret on_fail f (fail e) = on_fail e >> fail (f e)
finally_do on_ret on_fail f (call op k) = call op (λ a. finally_do on_ret on_fail f (k a))
