-- ===== src/Pool/Next.antt =====
-- `Next` of pool.go against a plain description: the first ready entry of the list turned to its
-- start.
use native.Mathlib.Decide.{dec_lt}
use native.Mathlib.Nat.{mod-eq_of_lt, mod-lt, mod-add-mod}
use easy_proxy_pool.Prelude.{
  ℕ, zero, suc, ◌+◌, ◌%◌, ◌<◌, ◌≡◌, refl, sym, ap, ◌∙◌, inl, inr, Bool, true, false, Option, none,
  some, List, [], ◌∷◌, if◌then◌else◌, arith, length, get_elem?, All, ◌==◌, Option-cases, Bool-cases,
  ◌==◌, map, List-ext, get_elem?-none,
}
use easy_proxy_pool.Prelude.Rotation.{
  rotate, get_elem?-rotate, length-rotate, All-rotate, All-unrotate,
}
use easy_proxy_pool.Prelude.Text.{Text, bytes, text_eq}
use easy_proxy_pool.Prelude.Word.{add64, word_mod}
use easy_proxy_pool.Pool.{Entry, Pool, is_ready, scan, next}

-- The first entry that passes a test.
abbrev pub find : (Entry → Bool) → List Entry → Option Entry
find p [] = none
find p (e ∷ es) = if p e then some e else find p es

-- The scan finds the first ready entry of `ys`, if the positions that it visits hold `ys`.
scan-find :
    (es : List Entry) (now : ℕ) (at : ℕ → ℕ) (ys : List Entry) (i n : ℕ)
    → length ys ≡ n
    → ((j : ℕ) → j < n → get_elem? es (at (i + j)) ≡ get_elem? ys j)
    → scan es now at n i ≡ find (is_ready now) ys
unfolding scan
scan-find es now at [] i zero e h = refl
scan-find es now at [] i (suc n) e h = absurd (omega arith)
scan-find es now at (y ∷ ys) i zero e h = absurd (omega arith)
scan-find es now at (y ∷ ys) i (suc n) e h =
    let here : i ≡ i + 0 = omega arith in
    let moved : (j : ℕ) → i + 1 + j ≡ i + suc j = λ j. omega arith in
    ground (
      arith,
      ap (λ k. get_elem? es (at k)) here ∙ h 0 (omega arith),
      scan-find es now at ys (i + 1) n (omega arith)
          (λ j hj. ap (λ k. get_elem? es (at k)) (moved j) ∙ h (suc j) (omega arith)),
    )

scan-rotate :
    (es : List Entry) (now s : ℕ)
    → s < length es
    → scan es now (λ i. (s + i) % length es) (length es) 0 ≡ find (is_ready now) (rotate s es)
scan-rotate es now s h =
    scan-find es now (λ i. (s + i) % length es) (rotate s es) 0 (length es) (length-rotate es s h)
      λ j hj.
        ap (λ k. get_elem? es ((s + k) % length es)) (omega arith)
        ∙ sym (get_elem?-rotate es s j h hj)

-- With the round-robin strategy (any but "random") and a pool that is not empty, `Next` returns the
-- first ready entry of the list turned to one past the last start, and moves the start on by one.
pub next_round_robin :
    (p : Pool) (strategy : Text) (now : ℕ) (draws : ℕ → ℕ)
    → 0 < length p.entries
    → text_eq strategy (bytes "random") ≡ false
    → next p strategy now draws ≡ (
      find (is_ready now) (rotate (add64 p.rr 1 % length p.entries) p.entries),
      record p { rr = add64 p.rr 1 },
    )
unfolding next
next_round_robin p strategy now draws h s =
    ground (arith, scan-rotate p.entries now (add64 p.rr 1 % length p.entries) (mod-lt _ h))

-- An entry that stands in a list and passes the test of `Next`.
pub record Ready (es : List Entry) (now : ℕ) (e : Entry) : Type 0 where
  pub position : ℕ
  pub member : get_elem? es position ≡ some e
  pub ready : is_ready now e ≡ true

scan-Ready :
    (es : List Entry) (now : ℕ) (at : ℕ → ℕ) (n i : ℕ) (e : Entry)
    → scan es now at n i ≡ some e
    → Ready es now e
unfolding scan
scan-Ready es now at zero i e h = absurd (cc)
scan-Ready es now at (suc n) i e h = elim (Option-cases (get_elem? es (at i))) [
  | inl miss ↦ absurd (ground arith)
  | inr (x, hit) ↦ elim (Bool-cases (is_ready now x)) [
    | inl r ↦ record {
      position = at i;
      member = hit ∙ same x r hit;
      ready = rw (← unwrap (same x r hit)) r;
    }
    | inr r ↦ scan-Ready es now at n (i + 1) e (ground arith)
  ]
]
  where
    same : (x : Entry) → is_ready now x ≡ true → get_elem? es (at i) ≡ some x → some x ≡ some e
    same x r hit = ground arith

    unwrap : {x : Entry} → some x ≡ some e → x ≡ e
    unwrap q = cc

-- Whatever the strategy and the draws, `Next` returns only entries of the pool that are ready.
pub next-Ready :
    (p : Pool) (strategy : Text) (now : ℕ) (draws : ℕ → ℕ) (e : Entry)
    → (next p strategy now draws).0 ≡ some e
    → Ready p.entries now e
unfolding next
next-Ready p strategy now draws e h = elim (Bool-cases (length p.entries == 0)) [
  | inl z ↦ absurd (ground arith)
  | inr z ↦ elim (Bool-cases (text_eq strategy (bytes "random"))) [
    | inl r ↦ scan-Ready p.entries now _ (length p.entries) 0 e (rw (z, r, next) at h)
    | inr r ↦ scan-Ready p.entries now _ (length p.entries) 0 e (rw (z, r, next) at h)
  ]
]

find-none : (p : Entry → Bool) (es : List Entry) → find p es ≡ none → All (λ e. p e ≡ false) es
find-none p [] h = tt
find-none p (e ∷ es) h = ground (arith, find-none p es)

-- With the round-robin strategy `Next` returns nothing only if no entry of the pool is ready.
pub next-none :
    (p : Pool) (strategy : Text) (now : ℕ) (draws : ℕ → ℕ)
    → text_eq strategy (bytes "random") ≡ false
    → (next p strategy now draws).0 ≡ none
    → All (λ e. is_ready now e ≡ false) p.entries
next-none p strategy now draws s h = elim (dec_lt 0 (length p.entries)) [
  | yes some_left ↦ All-rotate _ _ p.entries (
      find-none (is_ready now) (rotate (add64 p.rr 1 % length p.entries) p.entries)
        (ap (λ r. r.0) (sym (next_round_robin p strategy now draws some_left s)) ∙ h))
  | no empty ↦ nothing p.entries empty
]
  where
    nothing : (es : List Entry) → ¬ (0 < length es) → All (λ e. is_ready now e ≡ false) es
    nothing [] h = tt
    nothing (e ∷ es) h = absurd (omega arith)

-- The results of `k` calls in a row at one time.
pub picks : Text → ℕ → (ℕ → ℕ) → ℕ → Pool → List (Option Entry)
picks strategy now draws zero p = []
picks strategy now draws (suc k) p =
    let (e, q) = next p strategy now draws in e ∷ picks strategy now draws k q

abbrev pub AllReady : ℕ → List Entry → Type 0
AllReady now es = All (λ e. is_ready now e ≡ true) es

find-ready : (now : ℕ) (es : List Entry) → AllReady now es → find (is_ready now) es ≡ get_elem? es 0
find-ready now [] h = refl
find-ready now (e ∷ es) h = rw h.0

next-ready :
    (p : Pool) (strategy : Text) (now : ℕ) (draws : ℕ → ℕ)
    → 0 < length p.entries
    → text_eq strategy (bytes "random") ≡ false
    → AllReady now p.entries
    → next p strategy now draws
      ≡ (get_elem? p.entries (add64 p.rr 1 % length p.entries), record p { rr = add64 p.rr 1 })
next-ready p strategy now draws h s r =
    next_round_robin p strategy now draws h s ∙ ap (λ e. (e, record p { rr = add64 p.rr 1 })) front
  where
    es : List Entry
    es = p.entries

    start : ℕ
    start = add64 p.rr 1 % length es

    here : (start + 0) % length es ≡ start
    here =
        let low : start + 0 < length es = omega (arith, mod-lt (add64 p.rr 1) h) in
        mod-eq_of_lt low ∙ omega arith

    front : find (is_ready now) (rotate start es) ≡ get_elem? es start
    front =
        find-ready now (rotate start es) (All-unrotate _ start es r)
        ∙ (get_elem?-rotate es start 0 (mod-lt _ h) h ∙ ap (get_elem? es) here)

get_elem?-picks :
    (strategy : Text) (now : ℕ) (draws : ℕ → ℕ) (k : ℕ) (p : Pool) (i : ℕ)
    → 0 < length p.entries
    → text_eq strategy (bytes "random") ≡ false
    → AllReady now p.entries
    → p.rr + k < word_mod
    → i < k
    → get_elem? (picks strategy now draws k p) i
      ≡ some (get_elem? p.entries ((p.rr + 1 + i) % length p.entries))
unfolding picks
get_elem?-picks strategy now draws zero p i h s r w l = elim l [ ]
get_elem?-picks strategy now draws (suc k) p zero h s r w l =
    let e : add64 p.rr 1 ≡ p.rr + 1 + 0 = omega arith in
    rw (next-ready p strategy now draws h s r)
      (ap (λ j. some (get_elem? p.entries (j % length p.entries))) e)
get_elem?-picks strategy now draws (suc k) p (suc i) h s r w l =
    let e : add64 p.rr 1 + 1 + i ≡ p.rr + 1 + suc i = omega arith in
    rw (next-ready p strategy now draws h s r) (
      get_elem?-picks strategy now draws k (record p { rr = add64 p.rr 1 }) i h s r (omega arith)
        (omega arith)
      ∙ ap (λ j. some (get_elem? p.entries (j % length p.entries))) e)

length-picks :
    (strategy : Text) (now : ℕ) (draws : ℕ → ℕ) (k : ℕ) (p : Pool)
    → length (picks strategy now draws k p) ≡ k
unfolding picks
length-picks strategy now draws zero p = refl
length-picks strategy now draws (suc k) p = ap suc (length-picks strategy now draws k _)

get_elem?-map-some :
    (es : List Entry) (i : ℕ)
    → i < length es
    → get_elem? (map {B = Option Entry} some es) i ≡ some (get_elem? es i)
get_elem?-map-some [] i h = elim h [ ]
get_elem?-map-some (e ∷ es) zero h = refl
get_elem?-map-some (e ∷ es) (suc i) h = get_elem?-map-some es i (omega arith)

length-map-some : (es : List Entry) → length (map {B = Option Entry} some es) ≡ length es
length-map-some [] = refl
length-map-some (e ∷ es) = ap suc (length-map-some es)

-- With the round-robin strategy, as many calls in a row as the pool has entries, all of them ready,
-- return every entry once: the list turned to one past the last start (the counter not wrapping).
pub picks-cycle :
    (strategy : Text) (now : ℕ) (draws : ℕ → ℕ) (p : Pool)
    → 0 < length p.entries
    → text_eq strategy (bytes "random") ≡ false
    → AllReady now p.entries
    → p.rr + length p.entries < word_mod
    → picks strategy now draws (length p.entries) p
      ≡ map some (rotate ((p.rr + 1) % length p.entries) p.entries)
picks-cycle strategy now draws p h s r w = List-ext _ _ λ i. elim (dec_lt i (length p.entries)) [
  | yes l ↦
      get_elem?-picks strategy now draws (length p.entries) p i h s r w l
      ∙ sym (
          get_elem?-map-some (rotate start p.entries) i (shorter i l)
          ∙ ap some (get_elem?-rotate p.entries start i (mod-lt _ h) l ∙ turned i))
  | no g ↦
      get_elem?-none _ i (omega (arith, length-picks strategy now draws (length p.entries) p))
      ∙ sym (get_elem?-none _ i (omega (arith, whole, length-map-some (rotate start p.entries))))
]
  where
    start : ℕ
    start = (p.rr + 1) % length p.entries

    whole : length (rotate start p.entries) ≡ length p.entries
    whole = length-rotate p.entries start (mod-lt _ h)

    shorter : (i : ℕ) → i < length p.entries → i < length (rotate start p.entries)
    shorter i l = omega (arith, whole)

    turned :
        (i : ℕ)
        → get_elem? p.entries ((start + i) % length p.entries)
          ≡ get_elem? p.entries ((p.rr + 1 + i) % length p.entries)
    turned i = ap (get_elem? p.entries) (mod-add-mod (p.rr + 1) (length p.entries) i)
