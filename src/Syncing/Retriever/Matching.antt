-- ===== src/Syncing/Retriever/Matching.antt =====
-- How the DA retriever matches headers with data.
use chain_sdk.Base.{
  ℕ, ◌≡◌, refl, ◌⊎◌, inl, inr, true, false, Bool-cases, Option, none, some, List, [], ◌∷◌, if_both,
  if_of_true, if_of_false, arith,
}
use chain_sdk.Types.Header.{SignedHeader}
use chain_sdk.Types.Chain.{Data}
use chain_sdk.Syncing.Sync.{Event}
use chain_sdk.Syncing.Retriever.{
  Env, data_at, delete_data, is_empty_data_expected, create_empty_data_for_header, height_event,
  Matched, emit, keep, on_match, match_headers,
}

abbrev Among : {A : Type 0} → A → List A → Type 0
Among x [] = ⊥
Among x (y ∷ ys) = (x ≡ y) ⊎ Among x ys

abbrev pub All : {A : Type 0} → (A → Type 0) → List A → Type 0
All P [] = Unit {0}
All P (x ∷ xs) = P x × All P xs

All-weaken :
    {A : Type 0} (P Q : A → Type 0) → ((x : A) → P x → Q x) → (xs : List A) → All P xs → All Q xs
All-weaken P Q f [] a = tt
All-weaken P Q f (x ∷ xs) (p, a) = (f x p, All-weaken P Q f xs a)

pub data_at-delete_none :
    (k j : ℕ) (ds : List (ℕ × Data)) → data_at k ds ≡ none → data_at k (delete_data j ds) ≡ none
unfolding data_at delete_data
data_at-delete_none k j [] e = refl
data_at-delete_none k j ((i, d) ∷ ds) e = ground (arith, data_at-delete_none k j ds)

data_at-delete_self : (k : ℕ) (ds : List (ℕ × Data)) → data_at k (delete_data k ds) ≡ none
unfolding data_at delete_data
data_at-delete_self k [] = refl
data_at-delete_self k ((i, d) ∷ ds) = ground (arith, data_at-delete_self k ds)

data_at-delete_some :
    (k j : ℕ) (d : Data) (ds : List (ℕ × Data))
    → data_at k (delete_data j ds) ≡ some d
    → data_at k ds ≡ some d
unfolding data_at delete_data
data_at-delete_some k j d [] e = cc
data_at-delete_some k j d ((i, x) ∷ ds) e =
    ground (arith, data_at-delete_some k j d ds, data_at-delete_self k ds)

module _ (env : Env) (da : ℕ) where
  -- A height at which no data waits has none after the matching.
  pub match_headers-none :
      (k : ℕ) (hs : List SignedHeader) (ds : List (ℕ × Data))
      → data_at k ds ≡ none
      → data_at k (match_headers env da hs ds).block_data ≡ none
  unfolding match_headers
  match_headers-none k [] ds e = e
  match_headers-none k (h ∷ hs) ds e = on_match-none (data_at h.height ds) (match_headers-none k hs)
    where
      on_match-none :
          (o : Option Data)
          → ((ds : List (ℕ × Data))
              → data_at k ds ≡ none
              → data_at k (match_headers env da hs ds).block_data ≡ none)
          → data_at k (on_match env da h ds (match_headers env da hs) o).block_data ≡ none
      on_match-none none ih =
          if_both (λ (m : Matched). data_at k m.block_data ≡ none) (is_empty_data_expected env h) _
            _ (ih ds e) (ih ds e)
      on_match-none (some d) ih = ih (delete_data h.height ds) (data_at-delete_none k h.height ds e)

  -- A header with an event, or one that is left pending.
  abbrev Placed : Matched → SignedHeader → Type 0
  Placed m h = Among h m.headers ⊎ ((ev : Event) × Among ev m.events × (ev.header ≡ h))

  -- A header is left only without data at its height, where it does not expect empty data.
  abbrev Waits : List (ℕ × Data) → SignedHeader → Type 0
  Waits ds h = (data_at h.height ds ≡ none) × (is_empty_data_expected env h ≡ false)

  -- An event has one of the headers, with the data that waits at its height, or with empty data
  -- where the header expects that.
  abbrev Genuine : List SignedHeader → List (ℕ × Data) → Event → Type 0
  Genuine hs ds ev =
      Among ev.header hs
      × (ev.da_height ≡ da)
      × ((data_at ev.header.height ds ≡ some ev.block_data)
          ⊎ ((is_empty_data_expected env ev.header ≡ true)
              × (ev.block_data ≡ create_empty_data_for_header ev.header)))

  Placed-emit : (ev : Event) (m : Matched) (h : SignedHeader) → Placed m h → Placed (emit ev m) h
  unfolding emit
  Placed-emit ev m h (inl p) = inl p
  Placed-emit ev m h (inr (ev', p, e)) = inr (ev', inr p, e)

  Placed-keep :
      (g : SignedHeader) (m : Matched) (h : SignedHeader) → Placed m h → Placed (keep g m) h
  unfolding keep
  Placed-keep g m h (inl p) = inl (inr p)
  Placed-keep g m h (inr p) = inr p

  Genuine-later :
      (h : SignedHeader) (hs : List SignedHeader) (ds : List (ℕ × Data)) (ev : Event)
      → Genuine hs ds ev
      → Genuine (h ∷ hs) ds ev
  Genuine-later h hs ds ev (a, d, p) = (inr a, d, p)

  Genuine-delete :
      (h : SignedHeader) (hs : List SignedHeader) (ds : List (ℕ × Data)) (ev : Event)
      → Genuine hs (delete_data h.height ds) ev
      → Genuine (h ∷ hs) ds ev
  Genuine-delete h hs ds ev (a, d, inl p) =
      (inr a, d, inl (data_at-delete_some ev.header.height h.height ev.block_data ds p))
  Genuine-delete h hs ds ev (a, d, inr p) = (inr a, d, inr p)

  abbrev pub Complete : List SignedHeader → List (ℕ × Data) → Matched → Type 0
  Complete hs ds m =
      All (Genuine hs ds) m.events × All (Placed m) hs × All (Waits m.block_data) m.headers

  pub match_headers-Complete :
      (hs : List SignedHeader) (ds : List (ℕ × Data)) → Complete hs ds (match_headers env da hs ds)
  unfolding match_headers
  match_headers-Complete [] ds = (tt, tt, tt)
  match_headers-Complete (h ∷ hs) ds =
      on_match-Complete (data_at h.height ds) refl (match_headers-Complete hs)
        (match_headers-none h.height hs ds)
    where
      on_match-Complete :
          (o : Option Data)
          → data_at h.height ds ≡ o
          → ((ds : List (ℕ × Data)) → Complete hs ds (match_headers env da hs ds))
          → (data_at h.height ds ≡ none
              → data_at h.height (match_headers env da hs ds).block_data ≡ none)
          → Complete (h ∷ hs) ds (on_match env da h ds (match_headers env da hs) o)
      on_match-Complete (some d) e ih absent =
          let m = match_headers env da hs (delete_data h.height ds) in
          let (g, p, w) = ih (delete_data h.height ds) in
          let ev = height_event da h d in
          (
            (
              (inl refl, refl, inl e),
              All-weaken (Genuine hs (delete_data h.height ds)) (Genuine (h ∷ hs) ds)
                  (Genuine-delete h hs ds) m.events g,
            ),
            (
              inr (ev, inl refl, refl),
              All-weaken (Placed m) (Placed (emit ev m)) (Placed-emit ev m) hs p,
            ),
            w,
          )
      on_match-Complete none e ih absent = elim (Bool-cases (is_empty_data_expected env h)) [
        | inl y ↦ if_of_true (Complete (h ∷ hs) ds) (is_empty_data_expected env h) _ _ y (
            let m = match_headers env da hs ds in
            let (g, p, w) = ih ds in
            let ev = height_event da h (create_empty_data_for_header h) in
            (
              (
                (inl refl, refl, inr (y, refl)),
                All-weaken (Genuine hs ds) (Genuine (h ∷ hs) ds) (Genuine-later h hs ds) m.events g,
              ),
              (
                inr (ev, inl refl, refl),
                All-weaken (Placed m) (Placed (emit ev m)) (Placed-emit ev m) hs p,
              ),
              w,
            ))
        | inr n ↦ if_of_false (Complete (h ∷ hs) ds) (is_empty_data_expected env h) _ _ n (
            let m = match_headers env da hs ds in
            let (g, p, w) = ih ds in
            (
              All-weaken (Genuine hs ds) (Genuine (h ∷ hs) ds) (Genuine-later h hs ds) m.events g,
              (inl (inl refl), All-weaken (Placed m) (Placed (keep h m)) (Placed-keep h m) hs p),
              ((absent e, n), w),
            ))
      ]
