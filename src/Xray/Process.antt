-- ===== src/Xray/Process.antt =====
-- internal/xray/manager.go: the child process. `Ensure` and `Stop` hold the instance's lock. The runner
-- gives the processes numbers in the order of their starts; what a process does by itself, the files
-- and the network are the caller's arguments.
pub mod Calls
pub mod OneLive
pub mod Serving
use easy_proxy_pool.Prelude.{
  ℕ, ◌+◌, Bool, true, false, ◌&&◌, ◌||◌, Option, none, some, List, [], ◌∷◌, ◌++◌, if◌then◌else◌,
  ◌==◌,
}
use easy_proxy_pool.Prelude.Text.{Text, bytes, text_eq}
use easy_proxy_pool.Prelude.Word.{positive}

-- One round of `waitReady`: whether the SOCKS port takes a connection, and the status of the metrics
-- request, `none` if it fails.
pub record Probe : Type 0 where
  pub socks_open : Bool
  pub metrics_status : Option ℕ

unfoldable pub check_metrics : Option ℕ → Bool
check_metrics none = false
check_metrics (some status) = status == 200

-- The rounds made before the context is done.
unfoldable pub wait_ready : List Probe → Bool
unfolding check_metrics
wait_ready [] = false
wait_ready (probe ∷ probes) =
    let rest = wait_ready probes in
    if probe.socks_open && check_metrics probe.metrics_status then true else rest

-- What a call of `Ensure` meets: whether the kill of the old process gives an error, whether the
-- directory is made, the file is written and the program starts, the rounds of `waitReady`, and whether
-- the kill of a new process that is not ready gives an error.
pub record Attempt : Type 0 where
  pub old_kill_fails : Bool
  pub makes_dir : Bool
  pub writes_file : Bool
  pub starts : Bool
  pub probes : List Probe
  pub new_kill_fails : Bool

-- The fields of Instance that change, with what the runner was asked for: the configurations of the
-- processes started, by number, the numbers killed, and those whose kill gave an error, which may
-- still be live.
pub record Instance : Type 0 where
  pub proc : Option ℕ
  pub last_hash : Text
  pub configs : List Text
  pub started : ℕ
  pub killed : List ℕ
  pub unkilled : List ℕ

-- NewInstance
abbrev pub new_instance : Instance
new_instance = record {
  proc = none;
  last_hash = [];
  configs = [];
  started = 0;
  killed = [];
  unkilled = [];
}

-- The start timeout of NewInstance, in nanoseconds.
abbrev pub start_timeout_of : ℕ → ℕ
start_timeout_of d = if positive d then d else 10000000000

-- _ = i.proc.Kill(); i.proc = nil, where `fails` says whether the kill gives an error: the process is
-- forgotten all the same.
unfoldable pub kill : Bool → Instance → Instance
kill fails i = elim i.proc [
  | none ↦ i
  | some p ↦
      if fails
      then record i { proc = none; unkilled = p ∷ i.unkilled }
      else record i { proc = none; killed = p ∷ i.killed }
]

pub data Ensured : Type 0 where
  ready make_dir_failed write_failed start_failed not_ready : Ensured

-- The configuration is in the file when the process starts.
unfoldable pub start : Instance → Text → Instance
start i config = record i {
  proc = some i.started;
  configs = i.configs ++ (config ∷ []);
  started = i.started + 1;
}

abbrev pub has_proc : Option ℕ → Bool
has_proc none = false
has_proc (some p) = true

-- `Ensure` after the old process is gone.
unfoldable pub restart : Attempt → Text → Text → Instance → Ensured × Instance
unfolding start kill wait_ready
restart a config hash i =
    if a.makes_dir
    then (if a.writes_file
        then (if a.starts
            then (if wait_ready a.probes
                then (ready, record (start i config) { last_hash = hash })
                else (not_ready, kill a.new_kill_fails (start i config)))
            else (start_failed, i))
        else (write_failed, i))
    else (make_dir_failed, i)

unfoldable pub ensure : Attempt → Text → Text → Instance → Ensured × Instance
unfolding restart kill text_eq
ensure a config hash i =
    if has_proc i.proc && text_eq i.last_hash hash
    then (ready, i)
    else restart a config hash (kill a.old_kill_fails i)

-- The error of the kill is passed on.
unfoldable pub stop : Bool → Instance → Bool × Instance
unfolding kill
stop fails i =
    if has_proc i.proc then (fails, record (kill fails i) { last_hash = [] }) else (false, i)
