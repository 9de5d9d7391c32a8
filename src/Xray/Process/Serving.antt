-- ===== src/Xray/Process/Serving.antt =====
-- `Ensure` and `Stop` of manager.go: which configuration the live process was started with.
use easy_proxy_pool.Prelude.{
  ℕ, ◌<◌, ◌≡◌, refl, sym, ap, subst, ◌∙◌, inl, inr, Bool, true, false, ◌&&◌, ◌||◌, none, some, List,
  [], ◌∷◌, ◌++◌, if◌then◌else◌, arith, length, Bool-cases, Option-cases, get_elem?,
}
use easy_proxy_pool.Prelude.Text.{Text, text_eq, text_eq_iff}
use easy_proxy_pool.Xray.Process.{
  Attempt, Instance, kill, Ensured, ready, make_dir_failed, write_failed, start_failed, not_ready,
  start, has_proc, restart, ensure, stop, wait_ready,
}
use easy_proxy_pool.Xray.Process.OneLive.{IsOneLive, one_of, kill-IsOneLive, start-IsOneLive}

-- A kill was tried of every process started but the one in `proc`, and that one was started with the
-- configuration of the last hash.
pub record IsServing (config_of : Text → Text) (i : Instance) : Type 0 where
  pub one : IsOneLive i
  pub started_with :
      (p : ℕ) → i.proc ≡ some p → get_elem? i.configs p ≡ some (config_of i.last_hash)

-- What a result of `Ensure` says: a live process for the hash if there is no error, and none otherwise.
pub Promised : Text → Ensured → Instance → Type 0
Promised hash ready i = (p : ℕ) × (i.proc ≡ some p) × (i.last_hash ≡ hash)
Promised hash make_dir_failed i = i.proc ≡ none
Promised hash write_failed i = i.proc ≡ none
Promised hash start_failed i = i.proc ≡ none
Promised hash not_ready i = i.proc ≡ none

get_elem?-last : (xs : List Text) (x : Text) → get_elem? (xs ++ (x ∷ [])) (length xs) ≡ some x
get_elem?-last [] x = refl
get_elem?-last (y ∷ xs) x = get_elem?-last xs x

Stopped-IsServing :
    (config_of : Text → Text) (i : Instance) → IsOneLive i → i.proc ≡ none → IsServing config_of i
Stopped-IsServing config_of i v gone = record {
  one = v;
  started_with = λ p e. absurd (none_some p (sym gone ∙ e));
}
  where
    none_some : (p : ℕ) → none ≡ some p → ⊥
    none_some p g = cc

ready-IsServing :
    (config_of : Text → Text) (hash : Text) (i : Instance)
    → IsOneLive i
    → i.proc ≡ none
    → IsServing config_of (record (start i (config_of hash)) { last_hash = hash })
ready-IsServing config_of hash i v gone = record {
  one = record {
    owned = w.owned;
    others = w.others;
    known = w.known;
    apart = w.apart;
    counted = w.counted;
  };
  started_with = λ p e.
      unfold start in
      subst (λ q. get_elem? (i.configs ++ (config_of hash ∷ [])) q ≡ some (config_of hash))
        (v.counted ∙ same p e) (get_elem?-last i.configs (config_of hash));
}
  where
    w : IsOneLive (start i (config_of hash))
    w = start-IsOneLive i (config_of hash) v gone

    unwrap : (p q : ℕ) → some p ≡ some q → p ≡ q
    unwrap p q g = cc

    same : (p : ℕ) → (start i (config_of hash)).proc ≡ some p → i.started ≡ p
    same p e = unwrap i.started p (unfold start in e)

restart-IsServing :
    (config_of : Text → Text) (a : Attempt) (hash : Text) (i : Instance)
    → IsOneLive i
    → i.proc ≡ none
    → let (r, i') = restart a (config_of hash) hash i in IsServing config_of i' × Promised hash r i'
unfolding restart Promised
restart-IsServing config_of a hash i v gone = elim (Bool-cases a.makes_dir) [
  | inr fails ↦ rw (fails, restart) (idle, gone)
  | inl made ↦ elim (Bool-cases a.writes_file) [
    | inr fails ↦ rw (made, fails, restart) (idle, gone)
    | inl wrote ↦ elim (Bool-cases a.starts) [
      | inr fails ↦ rw (made, wrote, fails, restart) (idle, gone)
      | inl runs ↦ elim (Bool-cases (wait_ready a.probes)) [
        | inl answers ↦
            rw (made, wrote, runs, answers, restart)
              (ready-IsServing config_of hash i v gone, (i.started, (unfold start in refl), refl))
        | inr silent ↦
            let stopped =
              kill-IsOneLive a.new_kill_fails (start i (config_of hash))
                (start-IsOneLive i (config_of hash) v gone) in
            rw (made, wrote, runs, silent, restart)
              (
                Stopped-IsServing config_of (kill a.new_kill_fails (start i (config_of hash)))
                    stopped.0 stopped.1,
                stopped.1,
              )
      ]
    ]
  ]
]
  where
    idle : IsServing config_of i
    idle = Stopped-IsServing config_of i v gone

-- `Ensure` keeps what `IsServing` says. Without an error `proc` is a process for the hash given; after
-- an error it is none.
pub ensure-IsServing :
    (config_of : Text → Text) (a : Attempt) (hash : Text) (i : Instance)
    → IsServing config_of i
    → let (r, i') = ensure a (config_of hash) hash i in IsServing config_of i' × Promised hash r i'
unfolding ensure Promised
ensure-IsServing config_of a hash i v = by_test (has_proc i.proc && text_eq i.last_hash hash) refl
  where
    stopped : IsOneLive (kill a.old_kill_fails i) × ((kill a.old_kill_fails i).proc ≡ none)
    stopped = kill-IsOneLive a.old_kill_fails i v.one

    restarted :
        let (r, i') = restart a (config_of hash) hash (kill a.old_kill_fails i) in
        IsServing config_of i' × Promised hash r i'
    restarted = restart-IsServing config_of a hash (kill a.old_kill_fails i) stopped.0 stopped.1

    by_test :
        (b : Bool)
        → (has_proc i.proc && text_eq i.last_hash hash) ≡ b
        → let (r, i') =
            if b then (ready, i) else restart a (config_of hash) hash (kill a.old_kill_fails i) in
          IsServing config_of i' × Promised hash r i'
    by_test false e = restarted
    by_test true e = elim (Option-cases i.proc) [
      | inl gone ↦ absurd (ground (arith, gone, ap has_proc gone))
      | inr (p, held) ↦ (
        v,
        (p, held, (text_eq_iff i.last_hash hash).0 (ground (arith, held, e, ap has_proc held))),
      )
    ]

-- `Stop` tries the kill of the process in `proc`, if there is one: then one was tried of every process
-- that was started.
pub stop-IsServing :
    (config_of : Text → Text) (fails : Bool) (i : Instance)
    → IsServing config_of i
    → let i' = (stop fails i).1 in
      IsServing config_of i'
      × (i'.proc ≡ none)
      × ((q : ℕ) → q < i'.started → (one_of i'.killed q || one_of i'.unkilled q) ≡ true)
unfolding stop
stop-IsServing config_of fails i v = by_test (has_proc i.proc) refl
  where
    all_tried :
        (j : Instance)
        → IsOneLive j
        → j.proc ≡ none
        → (q : ℕ) → q < j.started
        → (one_of j.killed q || one_of j.unkilled q) ≡ true
    all_tried j w gone q l = w.others q l (λ e. none_some (sym gone ∙ e))
      where
        none_some : none ≡ some q → ⊥
        none_some g = cc

    stopped : IsOneLive (kill fails i) × ((kill fails i).proc ≡ none)
    stopped = kill-IsOneLive fails i v.one

    cleared : IsOneLive (record (kill fails i) { last_hash = [] })
    cleared = record {
      owned = stopped.0.owned;
      others = stopped.0.others;
      known = stopped.0.known;
      apart = stopped.0.apart;
      counted = stopped.0.counted;
    }

    by_test :
        (b : Bool)
        → has_proc i.proc ≡ b
        → let r : Bool × Instance =
            if b then (fails, record (kill fails i) { last_hash = [] }) else (false, i) in
          let i' = r.1 in
          IsServing config_of i'
          × (i'.proc ≡ none)
          × ((q : ℕ) → q < i'.started → (one_of i'.killed q || one_of i'.unkilled q) ≡ true)
    by_test true e = (
      Stopped-IsServing config_of (record (kill fails i) { last_hash = [] }) cleared stopped.1,
      stopped.1,
      all_tried (kill fails i) stopped.0 stopped.1,
    )
    by_test false e = elim (Option-cases i.proc) [
      | inl gone ↦ (v, gone, all_tried i v.one gone)
      | inr (p, held) ↦ absurd (ground (arith, held, e, ap has_proc held))
    ]
