-- ===== src/Syncing/Retriever/Pinned.antt =====
-- A pending header whose data does not come keeps its height.
use chain_sdk.Base.{
  ℕ, ◌≡◌, ◌==◌, refl, sym, ap, ◌∙◌, subst, inl, inr, true, false, Bool-cases, Option, none, some,
  some-inj, List, [], ◌∷◌, if_both, ==_iff, if_of_false, arith, Bytes,
}
use chain_sdk.Types.Header.{SignedHeader}
use chain_sdk.Types.Chain.{Data}
use chain_sdk.Syncing.Sync.{Event}
use chain_sdk.Syncing.Retriever.{
  Env, Retriever, header_at, data_at, add_header, add_headers, add_data, add_all_data, delete_data,
  is_empty_data_expected, Matched, on_match, match_headers, with_matched, Decoded, match_decoded,
  decode_blobs, process_blobs,
}
use chain_sdk.Syncing.Retriever.Matching.{data_at-delete_none, match_headers-none}
use chain_sdk.Syncing.Retriever.Blobs.{DecodedKept, decode_blobs-DecodedKept}

header_at-add :
    (k : ℕ) (h g : SignedHeader) (hs : List SignedHeader)
    → header_at k hs ≡ some h
    → header_at k (add_header g hs) ≡ some h
unfolding header_at add_header
header_at-add k h g [] e = cc
header_at-add k h g (x ∷ hs) e = ground (arith, header_at-add k h g hs)

header_at-add_all :
    (k : ℕ) (h : SignedHeader) (gs hs : List SignedHeader)
    → header_at k hs ≡ some h
    → header_at k (add_headers gs hs) ≡ some h
unfolding add_headers
header_at-add_all k h [] hs e = e
header_at-add_all k h (g ∷ gs) hs e =
    header_at-add_all k h gs (add_header g hs) (header_at-add k h g hs e)

data_at-add :
    (k : ℕ) (d : ℕ × Data) (ds : List (ℕ × Data))
    → data_at k (d ∷ []) ≡ none
    → data_at k ds ≡ none
    → data_at k (add_data d ds) ≡ none
unfolding data_at add_data
data_at-add k (j, d) [] n e = n
data_at-add k (j, d) ((i, x) ∷ ds) n e = ground (arith, data_at-add k (j, d) ds)

data_at-add_all :
    (k : ℕ) (es ds : List (ℕ × Data))
    → data_at k es ≡ none
    → data_at k ds ≡ none
    → data_at k (add_all_data es ds) ≡ none
unfolding add_all_data data_at
data_at-add_all k [] ds n e = e
data_at-add_all k ((j, d) ∷ es) ds n e =
    data_at-add_all k es (add_data (j, d) ds) (ground arith)
      (data_at-add k (j, d) ds (ground arith) e)

module _ (env : Env) (da k : ℕ) (h : SignedHeader) where
  on_match-here :
      (g : SignedHeader) (ds : List (ℕ × Data)) (rest : List (ℕ × Data) → Matched) (o : Option Data)
      → is_empty_data_expected env h ≡ false
      → data_at k ds ≡ none
      → (g.height == k) ≡ true
      → g ≡ h
      → data_at g.height ds ≡ o
      → header_at k (on_match env da g ds rest o).headers ≡ some h
  unfolding on_match header_at
  on_match-here g ds rest (some d) n absent y same e =
      let at_k : g.height ≡ k = (==_iff g.height k).0 y in
      let here : data_at g.height ds ≡ none = ap (λ (j : ℕ). data_at j ds) at_k ∙ absent in cc
  on_match-here g ds rest none n absent y same e =
      if_of_false (λ (m : Matched). header_at k m.headers ≡ some h) (is_empty_data_expected env g) _
        _ (subst (λ (x : SignedHeader). is_empty_data_expected env x ≡ false) (sym same) n)
        (rw y (ap (λ (x : SignedHeader). some x) same))

  on_match-there :
      (g : SignedHeader) (ds : List (ℕ × Data)) (rest : List (ℕ × Data) → Matched) (o : Option Data)
      → data_at k ds ≡ none
      → (g.height == k) ≡ false
      → ((ds : List (ℕ × Data)) → data_at k ds ≡ none → header_at k (rest ds).headers ≡ some h)
      → header_at k (on_match env da g ds rest o).headers ≡ some h
  unfolding on_match header_at
  on_match-there g ds rest (some d) absent z ih =
      ih (delete_data g.height ds) (data_at-delete_none k g.height ds absent)
  on_match-there g ds rest none absent z ih =
      if_both (λ (m : Matched). header_at k m.headers ≡ some h) (is_empty_data_expected env g) _ _
        (ih ds absent) (rw z (ih ds absent))

  header_at-match :
      (hs : List SignedHeader) (ds : List (ℕ × Data))
      → is_empty_data_expected env h ≡ false
      → data_at k ds ≡ none
      → header_at k hs ≡ some h
      → header_at k (match_headers env da hs ds).headers ≡ some h
  unfolding match_headers header_at
  header_at-match [] ds n absent e = cc
  header_at-match (g ∷ hs) ds n absent e = elim (Bool-cases (g.height == k)) [
    | inl y ↦
        on_match-here g ds (match_headers env da hs) (data_at g.height ds) n absent y
          (some-inj (rw y at e)) refl
    | inr z ↦
        on_match-there g ds (match_headers env da hs) (data_at g.height ds) absent z
          (λ ds' none_at. header_at-match hs ds' n none_at (rw z at e))
  ]

-- While no data comes for the height of a header that is pending and does not expect empty data,
-- that header stays pending, whichever other headers of the height the blobs have.
pub pending_header_stays :
    (env : Env) (da k : ℕ) (blobs : List Bytes) (σ : Retriever) (h : SignedHeader) (r : Decoded)
    (τ : Retriever) (evs : List Event)
    → is_empty_data_expected env h ≡ false
    → header_at k σ.pending_headers ≡ some h
    → data_at k σ.pending_data ≡ none
    → decode_blobs env da blobs σ ≡ some r
    → data_at k r.block_data ≡ none
    → process_blobs env da blobs σ ≡ some (τ, evs)
    → (header_at k τ.pending_headers ≡ some h) × (data_at k τ.pending_data ≡ none)
unfolding process_blobs match_decoded
pending_header_stays env da k blobs σ h r τ evs n pending absent decoded no_data done =
    let (same, same') = subst (DecodedKept σ) decoded (decode_blobs-DecodedKept env da blobs σ) in
    let headers = add_headers r.headers r.retriever.pending_headers in
    let waiting = add_all_data r.block_data r.retriever.pending_data in
    let found : header_at k headers ≡ some h =
      header_at-add_all k h r.headers r.retriever.pending_headers
        (ap (header_at k) same ∙ pending) in
    let none_waits : data_at k waiting ≡ none =
      data_at-add_all k r.block_data r.retriever.pending_data no_data
        (ap (data_at k) same' ∙ absent) in
    let ends : some (with_matched r.retriever (match_headers env da headers waiting))
        ≡ some (τ, evs) =
      rw decoded at done in
    let out : with_matched r.retriever (match_headers env da headers waiting) ≡ (τ, evs) =
      some-inj ends in
    subst
      (λ (x : Retriever × List Event).
        (header_at k x.0.pending_headers ≡ some h) × (data_at k x.0.pending_data ≡ none))
      out
      (
        header_at-match env da k h headers waiting n none_waits found,
        match_headers-none env da k headers waiting none_waits,
      )
