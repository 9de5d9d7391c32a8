-- ===== src/Pool/Index.antt =====
-- The key index of pool.go, through all of its methods.
use easy_proxy_pool.Prelude.{
  ℕ, zero, suc, ◌+◌, ◌<◌, ◌≡◌, ◌≢◌, refl, sym, ap, ◌∙◌, subst, ◌⊎◌, inl, inr, Bool, true, false,
  Option, none, some, List, [], ◌∷◌, if◌then◌else◌, arith, length, get_elem?, modify,
  get_elem?-modify_forth, ◌==◌, get_elem?-modify_back, Option-cases, Bool-cases,
}
use easy_proxy_pool.Prelude.Text.{Text, bytes, text_eq, text_eq_iff}
use easy_proxy_pool.Prelude.Map.{Map, lookup, insert, lookup-insert}
use easy_proxy_pool.Pool.{
  Entry, Pool, key, new, updating_cas, updating_clear, index_from, update, next, mark_success,
  mark_failure, enabled, fail,
}

-- The position of the last entry with a key.
last_index : List Entry → Text → Option ℕ
last_index [] k = none
last_index (e ∷ es) k = elim (last_index es k) [
  | none ↦ if text_eq (key e) k then some 0 else none
  | some j ↦ some (suc j)
]

shifted : ℕ → Option ℕ → Option ℕ → Option ℕ
shifted i none o = o
shifted i (some j) o = some (i + j)

lookup-index_from :
    (i : ℕ) (m : Map ℕ) (es : List Entry) (k : Text)
    → lookup (index_from i m es) k ≡ shifted i (last_index es k) (lookup m k)
unfolding index_from last_index shifted
lookup-index_from i m [] k = refl
lookup-index_from i m (e ∷ es) k =
    ground (arith, lookup-index_from (i + 1) (insert m (key e) i) es k, lookup-insert m (key e) i k)

-- Position `j` holds an entry with the key, and no later one does.
pub record IsLast (es : List Entry) (k : Text) (j : ℕ) : Type 0 where
  pub entry : Entry
  pub held : get_elem? es j ≡ some entry
  pub keyed : key entry ≡ k
  pub last : (i : ℕ) (e : Entry) → get_elem? es i ≡ some e → key e ≡ k → i < suc j

abbrev pub Missing : List Entry → Text → Type 0
Missing es k = (i : ℕ) (e : Entry) → get_elem? es i ≡ some e → key e ≢ k

abbrev Found : List Entry → Text → Option ℕ → Type 0
Found es k none = Missing es k
Found es k (some j) = IsLast es k j

Missing-cons :
    (x : Entry) (es : List Entry) (k : Text) → key x ≢ k → Missing es k → Missing (x ∷ es) k
Missing-cons x es k ne m zero e h q = ne (ap key (unwrap h) ∙ q)
  where
    unwrap : some x ≡ some e → x ≡ e
    unwrap p = cc
Missing-cons x es k ne m (suc i) e h q = m i e h q

IsLast-head :
    (x : Entry) (es : List Entry) (k : Text) → key x ≡ k → Missing es k → IsLast (x ∷ es) k 0
IsLast-head x es k q m = record { entry = x; held = refl; keyed = q; last = above }
  where
    above : (i : ℕ) (e : Entry) → get_elem? (x ∷ es) i ≡ some e → key e ≡ k → i < 1
    above zero e h q' = omega arith
    above (suc i) e h q' = absurd (m i e h q')

IsLast-cons :
    (x : Entry) (es : List Entry) (k : Text) (j : ℕ) → IsLast es k j → IsLast (x ∷ es) k (suc j)
IsLast-cons x es k j l = record { entry = l.entry; held = l.held; keyed = l.keyed; last = above }
  where
    above : (i : ℕ) (e : Entry) → get_elem? (x ∷ es) i ≡ some e → key e ≡ k → i < suc (suc j)
    above zero e h q = omega arith
    above (suc i) e h q = omega (arith, l.last i e h q)

last_index-Found : (es : List Entry) (k : Text) → Found es k (last_index es k)
unfolding last_index
last_index-Found [] k = λ i e h. cc
last_index-Found (x ∷ es) k = step (last_index es k) (last_index-Found es k)
  where
    head : Missing es k → Found (x ∷ es) k (if text_eq (key x) k then some 0 else none)
    head m = elim (Bool-cases (text_eq (key x) k)) [
      | inl hit ↦ rw hit (IsLast-head x es k ((text_eq_iff _ _).0 hit) m)
      | inr miss ↦
          rw miss (Missing-cons x es k (λ q. true_false (sym miss ∙ (text_eq_iff _ _).1 q)) m)
    ]
      where
        true_false : ◌≡◌ {A = Bool} false true → ⊥
        true_false h = cc

    step :
        (o : Option ℕ)
        → Found es k o
        → Found
            (x ∷ es)
            k
            (elim o [ none ↦ if text_eq (key x) k then some 0 else none | some j ↦ some (suc j) ])
    step none m = head m
    step (some j) l = IsLast-cons x es k j l

lookup-update_last :
    (p : Pool) (es : List Entry) (k : Text) → lookup (update p es).index k ≡ last_index es k
unfolding update shifted lookup
lookup-update_last p es k = lookup-index_from 0 [] es k ∙ unshift (last_index es k)
  where
    unshift : (o : Option ℕ) → shifted 0 o none ≡ o
    unshift none = refl
    unshift (some j) = ap some (omega arith)

-- After `Update` the index gives, for each key, the position of the last entry with that key, and
-- gives none only for the keys that no entry has.
pub lookup-update :
    (p : Pool) (es : List Entry) (k : Text)
    → ((j : ℕ) → lookup (update p es).index k ≡ some j → IsLast es k j)
      × (lookup (update p es).index k ≡ none → Missing es k)
lookup-update p es k = (
  λ j h. subst (Found es k) (sym (lookup-update_last p es k) ∙ h) (last_index-Found es k),
  λ h. subst (Found es k) (sym (lookup-update_last p es k) ∙ h) (last_index-Found es k),
)

-- Every index entry leads to an entry with its key, and every entry's key is in the index.
pub record IsIndexed (p : Pool) : Type 0 where
  pub sound :
      (k : Text) (j : ℕ)
      → lookup p.index k ≡ some j
      → (e : Entry) × (get_elem? p.entries j ≡ some e) × (key e ≡ k)
  pub complete :
      (i : ℕ) (e : Entry)
      → get_elem? p.entries i ≡ some e
      → (j : ℕ) × (lookup p.index (key e) ≡ some j)

pub new-IsIndexed : IsIndexed new
unfolding new lookup
new-IsIndexed = record { sound = λ k j h. absurd (cc); complete = λ i e h. absurd (cc) }

pub update-IsIndexed : (p : Pool) (es : List Entry) → IsIndexed (update p es)
unfolding update
update-IsIndexed p es = record {
  sound = λ k j h. let l = (lookup-update p es k).0 j h in (l.entry, l.held, l.keyed);
  complete = λ i e h. elim (Option-cases (lookup (update p es).index (key e))) [
    | inl missing ↦ absurd ((lookup-update p es (key e)).1 missing i e h refl)
    | inr found ↦ found
  ];
}

-- A change of one entry that keeps its key keeps the index right.
modify-IsIndexed :
    (p : Pool) (i : ℕ) (f : Entry → Entry)
    → ((e : Entry) → key (f e) ≡ key e)
    → IsIndexed p
    → IsIndexed (record p { entries = modify p.entries i f })
modify-IsIndexed p i f keep v = record {
  sound = λ k j h.
      let (a, held, keyed) = v.sound k j h in
      let (b, held', same) = get_elem?-modify_forth p.entries i j f a held in
      (b, held', same_key a b same ∙ keyed);
  complete = λ j b h.
      let (a, held, same) = get_elem?-modify_back p.entries i j f b h in
      rw (same_key a b same) (v.complete j a held);
}
  where
    same_key : (a b : Entry) → (b ≡ a) ⊎ (b ≡ f a) → key b ≡ key a
    same_key a b (inl e) = ap key e
    same_key a b (inr e) = ap key e ∙ keep a

pub mark_success-IsIndexed : (p : Pool) (k : Text) → IsIndexed p → IsIndexed (mark_success p k)
unfolding mark_success
mark_success-IsIndexed p k v = elim (Option-cases (lookup p.index k)) [
  | inl e ↦ rw (e, mark_success) v
  | inr (i, e) ↦ rw (e, mark_success) (modify-IsIndexed p i enabled (λ x. enabled-key x) v)
]
  where
    enabled-key : (x : Entry) → key (enabled x) ≡ key x
    enabled-key x = unfold key enabled in refl

pub mark_failure-IsIndexed :
    (p : Pool) (k : Text) (now base_backoff max_backoff : ℕ)
    → IsIndexed p
    → IsIndexed (mark_failure p k now base_backoff max_backoff)
unfolding mark_failure
mark_failure-IsIndexed p k now b m v = elim (Option-cases (lookup p.index k)) [
  | inl e ↦ rw (e, mark_failure) v
  | inr (i, e) ↦ rw (e, mark_failure) (modify-IsIndexed p i (fail now b m) (λ x. fail-key x) v)
]
  where
    fail-key : (x : Entry) → key (fail now b m x) ≡ key x
    fail-key x = unfold key fail in refl

pub next-IsIndexed :
    (p : Pool) (strategy : Text) (now : ℕ) (draws : ℕ → ℕ)
    → IsIndexed p
    → IsIndexed (next p strategy now draws).1
unfolding next
next-IsIndexed p strategy now draws v = elim (Bool-cases (length p.entries == 0)) [
  | inl e ↦ rw e v
  | inr e ↦ rw e (elim (Bool-cases (text_eq strategy (bytes "random"))) [
    | inl r ↦ rw r v
    | inr r ↦ rw r (record { sound = v.sound; complete = v.complete })
  ])
]

-- The calls that change a pool. Each holds the lock, so any interleaving of the program's goroutines
-- is a list of calls.
pub data Call : Type 0 where
  updates : List Entry → Call
  picks : Text → ℕ → (ℕ → ℕ) → Call
  succeeds : Text → Call
  fails : Text → ℕ → ℕ → ℕ → Call
  claims clears : Call

unfoldable pub step : Pool → Call → Pool
step p (updates es) = update p es
step p (picks strategy now draws) = (next p strategy now draws).1
step p (succeeds k) = mark_success p k
step p (fails k now base_backoff max_backoff) = mark_failure p k now base_backoff max_backoff
step p claims = (updating_cas p).1
step p clears = updating_clear p

unfoldable pub run : Pool → List Call → Pool
run p [] = p
run p (c ∷ cs) = run (step p c) cs

step-IsIndexed : (p : Pool) (c : Call) → IsIndexed p → IsIndexed (step p c)
unfolding step updating_cas updating_clear
step-IsIndexed p (updates es) v = update-IsIndexed p es
step-IsIndexed p (picks strategy now draws) v = next-IsIndexed p strategy now draws v
step-IsIndexed p (succeeds k) v = mark_success-IsIndexed p k v
step-IsIndexed p (fails k now b m) v = mark_failure-IsIndexed p k now b m v
step-IsIndexed p claims v = elim (Bool-cases (p.updating == 0)) [
  | inl e ↦ rw (e, step) (record { sound = v.sound; complete = v.complete })
  | inr e ↦ rw (e, step) v
]
step-IsIndexed p clears v = record { sound = v.sound; complete = v.complete }

run_from-IsIndexed : (p : Pool) (cs : List Call) → IsIndexed p → IsIndexed (run p cs)
unfolding run
run_from-IsIndexed p [] v = v
run_from-IsIndexed p (c ∷ cs) v = run_from-IsIndexed (step p c) cs (step-IsIndexed p c v)

-- After any calls on a new pool, every index entry leads to an entry with its key, and every entry's
-- key is in the index.
pub run-IsIndexed : (cs : List Call) → IsIndexed (run new cs)
run-IsIndexed cs = run_from-IsIndexed new cs new-IsIndexed
