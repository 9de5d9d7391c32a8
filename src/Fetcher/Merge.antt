-- ===== src/Fetcher/Merge.antt =====
-- The entries that `Fetch` of fetcher.go returns, against those that the sources offer.
use easy_proxy_pool.Prelude.{
  ◌≡◌, refl, sym, ap, ◌∙◌, inl, inr, Bool, false, ◌||◌, ◌++◌, Option, none, some, List, [], ◌∷◌,
  arith, Bool-cases, subst,
}
use easy_proxy_pool.Prelude.Text.{Text, text_eq, text_eq_iff, contains}
use easy_proxy_pool.Fetcher.{
  entry_of_line, Found, add_entry, add_lines, add_sources, or_no_proxies, fetch,
}

-- Whether a line, one of some lines, and one of some sources, is made into an entry.
abbrev pub is_entry : Option Text → Text → Bool
is_entry none t = false
is_entry (some line) t = text_eq line t

offers_line : List Text → Text → Bool
offers_line [] t = false
offers_line (text ∷ texts) t = is_entry (entry_of_line text) t || offers_line texts t

pub offers : List (Option (List Text)) → Text → Bool
unfolding offers_line
offers [] t = false
offers (none ∷ sources) t = offers sources t
offers (some texts ∷ sources) t = offers_line texts t || offers sources t

abbrev pub Distinct : List Text → Type 0
Distinct [] = Unit {0}
Distinct (t ∷ ts) = (contains ts t ≡ false) × Distinct ts

contains-append_one :
    (ts : List Text) (e t : Text) → contains (ts ++ (e ∷ [])) t ≡ (contains ts t || text_eq e t)
unfolding contains
contains-append_one [] e t = ground arith
contains-append_one (x ∷ ts) e t = ground (arith, contains-append_one ts e t)

Distinct-append_one :
    (ts : List Text) (e : Text) → Distinct ts → contains ts e ≡ false → Distinct (ts ++ (e ∷ []))
unfolding contains
Distinct-append_one [] e d h = (refl, tt)
Distinct-append_one (x ∷ ts) e (new, d) h = (
  ground (arith, contains-append_one ts e x, text_eq_iff e x, text_eq_iff x e),
  Distinct-append_one ts e d (ground arith),
)

-- The set has the members of the output, none of which stands twice.
pub record IsFound (f : Found) : Type 0 where
  pub same : (t : Text) → contains f.set t ≡ contains f.out t
  pub distinct : Distinct f.out

-- What is found after some more entries that `offer` tells.
pub record Adds (offer : Text → Bool) (f g : Found) : Type 0 where
  pub found : IsFound g
  pub members : (t : Text) → contains g.out t ≡ (contains f.out t || offer t)

pub add_entry-Adds : (f : Found) (o : Option Text) → IsFound f → Adds (is_entry o) f (add_entry f o)
unfolding add_entry
add_entry-Adds f none v = record { found = v; members = λ t. ground arith }
add_entry-Adds f (some line) v = elim (Bool-cases (contains f.set line)) [
  | inl old ↦
      rw (old, add_entry)
        (record {
          found = v;
          members = λ t. ground (arith, v.same line, v.same t, text_eq_iff line t);
        })
  | inr new ↦
      rw (new, add_entry)
        (record {
          found = record {
            same =
                λ t. unfold contains in ground (arith, v.same t, contains-append_one f.out line t);
            distinct = Distinct-append_one f.out line v.distinct (sym (v.same line) ∙ new);
          };
          members = λ t. contains-append_one f.out line t;
        })
]

pub Adds-then :
    (p q : Text → Bool) (f g h : Found) → Adds p f g → Adds q g h → Adds (λ t. p t || q t) f h
Adds-then p q f g h a b = record {
  found = b.found;
  members = λ t. ground (arith, a.members t, b.members t);
}

add_lines-Adds :
    (f : Found) (texts : List Text) → IsFound f → Adds (offers_line texts) f (add_lines f texts)
unfolding add_lines offers_line
add_lines-Adds f [] v = record { found = v; members = λ t. ground arith }
add_lines-Adds f (text ∷ texts) v =
    Adds-then (is_entry (entry_of_line text)) (offers_line texts) f
      (add_entry f (entry_of_line text)) (add_lines (add_entry f (entry_of_line text)) texts) first
      (add_lines-Adds (add_entry f (entry_of_line text)) texts first.found)
  where
    first : Adds (is_entry (entry_of_line text)) f (add_entry f (entry_of_line text))
    first = add_entry-Adds f (entry_of_line text) v

add_sources-Adds :
    (f : Found) (sources : List (Option (List Text)))
    → IsFound f
    → Adds (offers sources) f (add_sources f sources)
unfolding add_sources offers
add_sources-Adds f [] v = record { found = v; members = λ t. ground arith }
add_sources-Adds f (none ∷ sources) v = add_sources-Adds f sources v
add_sources-Adds f (some texts ∷ sources) v =
    Adds-then (offers_line texts) (offers sources) f (add_lines f texts)
      (add_sources (add_lines f texts) sources) first
      (add_sources-Adds (add_lines f texts) sources first.found)
  where
    first : Adds (offers_line texts) f (add_lines f texts)
    first = add_lines-Adds f texts v

-- `Fetch` fails only if no readable source offers an entry. Otherwise it returns every entry that one
-- of them offers, each once, and nothing else.
pub fetch-Distinct :
    (sources : List (Option (List Text)))
    → ((out : List Text)
        → fetch sources ≡ some out
        → Distinct out × ((t : Text) → contains out t ≡ offers sources t))
      × (fetch sources ≡ none → (t : Text) → offers sources t ≡ false)
unfolding fetch
fetch-Distinct sources = (
  λ out h.
      subst (λ ts. Distinct ts × ((t : Text) → contains ts t ≡ offers sources t))
        (from_some all.out out h) (all_added.found.distinct, members),
  λ h t. sym (members t) ∙ ap (λ ts. contains ts t) (from_none all.out h) ∙ none_in t,
)
  where
    start : Found
    start = record { set = []; out = [] }

    all : Found
    all = add_sources start sources

    all_added : Adds (offers sources) start all
    all_added = add_sources-Adds start sources (record { same = λ t. refl; distinct = tt })

    none_in : (t : Text) → contains [] t ≡ false
    none_in t = unfold contains in refl

    members : (t : Text) → contains all.out t ≡ offers sources t
    members t = ground (arith, all_added.members t, none_in t)

    unwrap : (x y : List Text) → some x ≡ some y → x ≡ y
    unwrap x y g = cc

    from_some : (ts out : List Text) → or_no_proxies ts ≡ some out → ts ≡ out
    from_some [] out g = unfold or_no_proxies in absurd (cc)
    from_some (t ∷ ts) out g = unwrap (t ∷ ts) out (unfold or_no_proxies in g)

    from_none : (ts : List Text) → or_no_proxies ts ≡ none → ts ≡ []
    from_none [] g = refl
    from_none (t ∷ ts) g = unfold or_no_proxies in absurd (cc)
