-- ===== src/SocksProxy/Dial.antt =====
-- `dial` of internal/server/socks5proxy/server.go, the loop over upstreams for one connection.
use easy_proxy_pool.Prelude.{
  ℕ, zero, suc, ◌+◌, ◌≡◌, refl, ◌⊎◌, inl, inr, true, false, Option, none, some, List, [], ◌∷◌,
  Bool-cases,
}
use easy_proxy_pool.Prelude.Text.{Text}
use easy_proxy_pool.Config.{SelectionConfig}
use easy_proxy_pool.Pool.{Entry, key, Pool, next, mark_success}
use easy_proxy_pool.HttpProxy.Attempts.{World, after_failure, rounds}
use easy_proxy_pool.HttpProxy.Connect.{Dials, dial_through_socks5}

-- How `dial` ends: a connection through an entry, no upstream to try, or the last dial's error.
pub data DialReply : Type 0 where
  connected : Entry → DialReply
  no_upstreams_available last_error : DialReply

pub record Dialled : Type 0 where
  pub reply : DialReply
  pub tried : List Entry
  pub pool : Pool

unfoldable pub dial_attempt :
    World → Dials → Text → ℕ → (Entry → Dialled) → Option Entry → Pool → Dialled
unfolding dial_through_socks5 mark_success
dial_attempt w dials target i retry none p = record {
  reply = no_upstreams_available;
  tried = [];
  pool = p;
}
dial_attempt w dials target i retry (some e) p = elim (dial_through_socks5 dials i e target) [
  | true ↦ record {
    reply = connected e;
    tried = e ∷ [];
    pool = mark_success (w.during i p) (key e);
  }
  | false ↦ let rest = retry e in record rest { tried = e ∷ rest.tried }
]

unfoldable pub dial_loop : World → Dials → SelectionConfig → Text → ℕ → ℕ → Pool → Dialled
unfolding next dial_attempt after_failure
dial_loop w dials sel target zero i p = record { reply = last_error; tried = []; pool = p }
dial_loop w dials sel target (suc n) i p =
    let (choice, q) = next (w.before i p) sel.strategy (w.now i) (w.draws i) in
    dial_attempt w dials target i
      (λ e. dial_loop w dials sel target n (i + 1) (after_failure sel e (w.later i) (w.during i q)))
      choice q

unfoldable pub dial : World → Dials → SelectionConfig → Text → Pool → Dialled
unfolding dial_loop rounds
dial w dials sel target p = dial_loop w dials sel target (rounds sel) 0 p

Ends : DialReply → ℕ → Type 0
Ends (connected e) n = ⊥
Ends last_error n = n ≡ 0
Ends no_upstreams_available n = Unit

-- With `n` attempts left from number `i` on, these entries were dialled: all dials failed but the last
-- of a connection, which goes through its entry.
pub Trail : Dials → Text → ℕ → ℕ → DialReply → List Entry → Type 0
Trail dials target n i reply [] = Ends reply n
Trail dials target zero i reply (e ∷ es) = ⊥
Trail dials target (suc n) i reply (e ∷ es) =
    ((dial_through_socks5 dials i e target ≡ true) × (reply ≡ connected e) × (es ≡ []))
    ⊎ ((dial_through_socks5 dials i e target ≡ false) × Trail dials target n (i + 1) reply es)

attempt-Trail :
    (w : World) (dials : Dials) (target : Text) (n i : ℕ) (retry : Entry → Dialled)
    (c : Option Entry) (p : Pool)
    → ((e : Entry) → Trail dials target n (i + 1) (retry e).reply (retry e).tried)
    → let r = dial_attempt w dials target i retry c p in
      Trail dials target (suc n) i r.reply r.tried
unfolding dial_attempt Trail Ends
attempt-Trail w dials target n i retry none p rest = tt
attempt-Trail w dials target n i retry (some e) p rest =
    elim (Bool-cases (dial_through_socks5 dials i e target)) [
      | inl good ↦ rw (good, dial_attempt) (inl (good, refl, refl))
      | inr bad ↦ rw (bad, dial_attempt) (inr (bad, rest e))
    ]

loop-Trail :
    (w : World) (dials : Dials) (sel : SelectionConfig) (target : Text) (n i : ℕ) (p : Pool)
    → let r = dial_loop w dials sel target n i p in Trail dials target n i r.reply r.tried
unfolding dial_loop Trail Ends
loop-Trail w dials sel target zero i p = refl
loop-Trail w dials sel target (suc n) i p =
    let (choice, q) = next (w.before i p) sel.strategy (w.now i) (w.draws i) in
    attempt-Trail w dials target n i
      (λ e. dial_loop w dials sel target n (i + 1) (after_failure sel e (w.later i) (w.during i q)))
      choice q
      (λ e.
        loop-Trail w dials sel target n (i + 1) (after_failure sel e (w.later i) (w.during i q)))

-- A SOCKS connection dials one entry after another, with at most the retries and one dials. It goes
-- through the first entry whose dial succeeds and dials no further, and it ends with a dial's error only
-- after the retries and one failed dials, whatever other goroutines do to the pool.
pub dial-Trail :
    (w : World) (dials : Dials) (sel : SelectionConfig) (target : Text) (p : Pool)
    → let r = dial w dials sel target p in Trail dials target (rounds sel) 0 r.reply r.tried
unfolding dial
dial-Trail w dials sel target p = loop-Trail w dials sel target (rounds sel) 0 p
