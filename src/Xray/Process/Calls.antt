-- ===== src/Xray/Process/Calls.antt =====
-- Histories of calls of `Ensure` and `Stop` of manager.go, and how many kills fail in them.
use easy_proxy_pool.Prelude.{
  ℕ, ◌+◌, ◌≤◌, ◌≡◌, inl, inr, Bool, true, false, ◌&&◌, List, [], ◌∷◌, if◌then◌else◌, arith, length,
  Option-cases,
}
use easy_proxy_pool.Prelude.Text.{Text, text_eq}
use easy_proxy_pool.Xray.Process.{
  Attempt, Instance, kill, start, has_proc, restart, ensure, stop, wait_ready,
}

-- The calls on an instance; `config_of` is the configuration with a hash.
pub data Call : Type 0 where
  ensures : Attempt → Text → Call
  stops : Bool → Call

unfoldable pub step : (Text → Text) → Instance → Call → Instance
step config_of i (ensures a hash) = (ensure a (config_of hash) hash i).1
step config_of i (stops fails) = (stop fails i).1

unfoldable pub run : (Text → Text) → Instance → List Call → Instance
unfolding step
run config_of i [] = i
run config_of i (c ∷ cs) = run config_of (step config_of i c) cs

-- The kills that may fail in a call, and in all of them.
abbrev pub one_if : Bool → ℕ
one_if true = 1
one_if false = 0

pub failures : List Call → ℕ
failures [] = 0
failures (ensures a hash ∷ cs) = one_if a.old_kill_fails + (one_if a.new_kill_fails + failures cs)
failures (stops fails ∷ cs) = one_if fails + failures cs

kill-unkilled :
    (fails : Bool) (i : Instance)
    → length (kill fails i).unkilled ≤ one_if fails + length i.unkilled
unfolding kill
kill-unkilled true i = elim (Option-cases i.proc) [
  | inl gone ↦ rw gone (ground arith)
  | inr (p, held) ↦ rw held (ground arith)
]
kill-unkilled false i = elim (Option-cases i.proc) [
  | inl gone ↦ rw gone (ground arith)
  | inr (p, held) ↦ rw held (ground arith)
]

started-unkilled :
    (fails : Bool) (i : Instance) (config : Text)
    → length (kill fails (start i config)).unkilled ≤ one_if fails + length i.unkilled
unfolding start
started-unkilled fails i config = kill-unkilled fails (start i config)

-- A bound of two results is one of their choice.
if-unkilled {ℓ} :
    {R : Type ℓ} (m : ℕ) (b : Bool) (x y : R × Instance)
    → length x.1.unkilled ≤ m
    → length y.1.unkilled ≤ m
    → length (if b then x else y).1.unkilled ≤ m
if-unkilled m true x y g h = g
if-unkilled m false x y g h = h

restart-unkilled :
    (a : Attempt) (config hash : Text) (i : Instance)
    → length (restart a config hash i).1.unkilled ≤ one_if a.new_kill_fails + length i.unkilled
unfolding restart
restart-unkilled a config hash i =
    if-unkilled _ a.makes_dir _ _
      (if-unkilled _ a.writes_file _ _
        (if-unkilled _ a.starts _ _
          (if-unkilled _ (wait_ready a.probes) _ _ (unfold start in omega arith)
            (started-unkilled a.new_kill_fails i config))
          (omega arith))
        (omega arith))
      (omega arith)

step-unkilled :
    (config_of : Text → Text) (i : Instance) (c : Call)
    → length (step config_of i c).unkilled ≤ failures (c ∷ []) + length i.unkilled
unfolding step ensure stop failures
step-unkilled config_of i (ensures a hash) =
    if-unkilled _ (has_proc i.proc && text_eq i.last_hash hash) _ _ (omega arith) (
      omega (
        arith,
        restart-unkilled a (config_of hash) hash (kill a.old_kill_fails i),
        kill-unkilled a.old_kill_fails i,
      ))
step-unkilled config_of i (stops fails) =
    if-unkilled _ (has_proc i.proc) _ _ (omega (arith, kill-unkilled fails i)) (omega arith)

failures-cons : (c : Call) (cs : List Call) → failures (c ∷ cs) ≡ failures (c ∷ []) + failures cs
unfolding failures
failures-cons (ensures a hash) cs = omega arith
failures-cons (stops fails) cs = omega arith

pub run-unkilled :
    (config_of : Text → Text) (i : Instance) (cs : List Call)
    → length (run config_of i cs).unkilled ≤ failures cs + length i.unkilled
unfolding run
run-unkilled config_of i [] = ground arith
run-unkilled config_of i (c ∷ cs) = omega (
  arith,
  run-unkilled config_of (step config_of i c) cs,
  step-unkilled config_of i c,
  failures-cons c cs,
)
