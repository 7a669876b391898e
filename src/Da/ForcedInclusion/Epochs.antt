-- ===== src/Da/ForcedInclusion/Epochs.antt =====
-- What an epoch's last height returns, whatever part of the epoch the cache holds.
use chain_sdk.Base.{
  ℕ, ◌+◌, ◌-◌, ◌≤◌, ◌≡◌, ◌==◌, refl, sym, ap, ◌∙◌, Bool, true, false, ◌||◌, ◌&&◌, Option, none,
  some, List, [], ◌∷◌, ◌++◌, ltb, if◌then◌else◌, arith, Bytes, ==_iff, else_of, Bool-cases, inl,
  inr, not,
}
use mathlib.Core.List.{append_assoc, append-nil}
use chain_sdk.Epoch.{Boundaries, calculate_epoch_boundaries}
use chain_sdk.Da.ForcedInclusion.{
  BlockData, StatusCode, success, not_found, height_from_future, other_error, ResultRetrieve,
  CacheAnswer, cache_error, cache_miss, cache_hit, DaView, ForcedInclusionEvent, RetrieveOutcome,
  event, heights_from, Blocks, lookup_block, Cached, sort_answer, from_cache, SyncResult, future,
  fetched, with_block, with_error, fetch_one, fetch_missing, non_empty, choose_block, add_block,
  process, finish, collect_epoch, retrieve_forced_included_txs,
}

abbrev hit_of : CacheAnswer → Option BlockData
hit_of cache_error = none
hit_of cache_miss = none
hit_of (cache_hit b) = some b

abbrev answer_of : StatusCode → ResultRetrieve → Option BlockData
answer_of success r = some (record { blobs = r.found; timestamp = r.timestamp })
answer_of not_found r = some (record { blobs = []; timestamp = r.timestamp })
answer_of height_from_future r = none
answer_of other_error r = none

-- The block of a height, from the cache or from the DA layer.
abbrev block_at : DaView → ℕ → Option BlockData
block_at v h =
    let r = v.retrieve h in choose_block (hit_of (v.get_cached_block h)) (answer_of r.code r)

abbrev blobs_of : Option BlockData → List Bytes
blobs_of none = []
blobs_of (some b) = non_empty b.blobs

-- All blobs of the heights that hold bytes, in height order.
abbrev pub epoch_txs : DaView → List ℕ → List Bytes
epoch_txs v [] = []
epoch_txs v (h ∷ hs) = blobs_of (block_at v h) ++ epoch_txs v hs

abbrev AllAnswered : DaView → List ℕ → Type 0
AllAnswered v [] = Unit {0}
AllAnswered v (h ∷ hs) = ((b : BlockData) × (block_at v h ≡ some b)) × AllAnswered v hs

abbrev is_none : Option BlockData → Bool
is_none none = true
is_none (some b) = false

mem : ℕ → List ℕ → Bool
mem h [] = false
mem h (k ∷ ks) = k == h || mem h ks

lookup-hits :
    (v : DaView) (h : ℕ) (hs : List ℕ)
    → lookup_block h (from_cache v hs).hits
      ≡ (if mem h hs then hit_of (v.get_cached_block h) else none)
unfolding from_cache lookup_block mem
lookup-hits v h [] = refl
lookup-hits v h (k ∷ ks) = ground (arith, lookup-hits v h ks)

mem-missing :
    (v : DaView) (h : ℕ) (hs : List ℕ)
    → mem h (from_cache v hs).missing ≡ (mem h hs && is_none (hit_of (v.get_cached_block h)))
unfolding from_cache mem
mem-missing v h [] = refl
mem-missing v h (k ∷ ks) = ground (arith, mem-missing v h ks)

abbrev Fetches : DaView → List ℕ → SyncResult → Type 0
Fetches v ms r =
    (bs : Blocks) × (r ≡ fetched bs false)
    × ((h : ℕ)
        → lookup_block h bs
          ≡ (if mem h ms then answer_of (v.retrieve h).code (v.retrieve h) else none))

abbrev AllFetched : DaView → List ℕ → Type 0
AllFetched v [] = Unit {0}
AllFetched v (h ∷ hs) =
    ((b : BlockData) × (answer_of (v.retrieve h).code (v.retrieve h) ≡ some b)) × AllFetched v hs

AllFetched-sort_answer :
    (v : DaView) (h : ℕ) (a : CacheAnswer) (c : Cached) (b : BlockData)
    → choose_block (hit_of a) (answer_of (v.retrieve h).code (v.retrieve h)) ≡ some b
    → AllFetched v c.missing
    → AllFetched v (sort_answer h a c).missing
unfolding sort_answer
AllFetched-sort_answer v h cache_error c b e all = ((b, e), all)
AllFetched-sort_answer v h cache_miss c b e all = ((b, e), all)
AllFetched-sort_answer v h (cache_hit x) c b e all = all

AllFetched-missing :
    (v : DaView) (hs : List ℕ) → AllAnswered v hs → AllFetched v (from_cache v hs).missing
unfolding from_cache
AllFetched-missing v [] all = tt
AllFetched-missing v (h ∷ hs) ((b, e), all) =
    AllFetched-sort_answer v h (v.get_cached_block h) (from_cache v hs) b e
      (AllFetched-missing v hs all)

fetch_one-Fetches :
    (v : DaView) (h : ℕ) (ms : List ℕ) (rest : SyncResult) (b : BlockData)
    → answer_of (v.retrieve h).code (v.retrieve h) ≡ some b
    → Fetches v ms rest
    → Fetches v (h ∷ ms) (fetch_one h (v.retrieve h).code (v.retrieve h) rest)
unfolding fetch_one with_block with_error lookup_block mem
fetch_one-Fetches v h ms rest b e (bs, f, look) =
    ((h, b) ∷ bs, ground arith, λ k. ground (arith, look k))

fetch_missing-Fetches :
    (v : DaView) (ms : List ℕ) → AllFetched v ms → Fetches v ms (fetch_missing v ms)
unfolding fetch_missing lookup_block mem
fetch_missing-Fetches v [] all = ([], refl, λ h. refl)
fetch_missing-Fetches v (h ∷ ms) ((b, e), all) =
    fetch_one-Fetches v h ms (fetch_missing v ms) b e (fetch_missing-Fetches v ms all)

add_block-txs :
    (o : Option BlockData) (e : ForcedInclusionEvent)
    → ((add_block o e).txs ≡ e.txs ++ blobs_of o)
      × ((add_block o e).start_da_height ≡ e.start_da_height)
      × ((add_block o e).end_da_height ≡ e.end_da_height)
unfolding add_block
add_block-txs none e = (sym (append-nil e.txs), refl, refl)
add_block-txs (some b) e = (refl, refl, refl)

process_lem :
    (v : DaView) (cached sync : Blocks) (hs : List ℕ) (e : ForcedInclusionEvent)
    → ((h : ℕ)
        → mem h hs ≡ true
        → choose_block (lookup_block h cached) (lookup_block h sync) ≡ block_at v h)
    → ((process cached sync hs e).txs ≡ e.txs ++ epoch_txs v hs)
      × ((process cached sync hs e).start_da_height ≡ e.start_da_height)
      × ((process cached sync hs e).end_da_height ≡ e.end_da_height)
unfolding process mem
process_lem v cached sync [] e agree = (sym (append-nil e.txs), refl, refl)
process_lem v cached sync (h ∷ hs) e agree =
    let o = choose_block (lookup_block h cached) (lookup_block h sync) in
    let e' = add_block o e in
    let one = add_block-txs o e in
    let rest = process_lem v cached sync hs e' (λ k m. agree k (ground arith)) in
    let same : o ≡ block_at v h = agree h (ground arith) in
    (
      rest.0
          ∙ ap (λ (t : List Bytes). t ++ epoch_txs v hs) one.0
          ∙ append_assoc e.txs (blobs_of o) (epoch_txs v hs)
          ∙ ap (λ (x : Option BlockData). e.txs ++ (blobs_of x ++ epoch_txs v hs)) same,
      rest.1 ∙ one.1,
      rest.2 ∙ one.2,
    )

choose-cases :
    (c a : Option BlockData) (there : Bool)
    → there ≡ true
    → choose_block (if there then c else none) (if there && is_none c then a else none)
      ≡ choose_block c a
choose-cases c a there e = ground arith

abbrev pub epoch_heights : Boundaries → List ℕ
epoch_heights b = heights_from (b.end + 1 - b.start) b.start

abbrev pub IsEvent : RetrieveOutcome → ℕ → ℕ → List Bytes → Type 0
IsEvent r start last txs =
    (e : ForcedInclusionEvent) × (r ≡ event e)
    × (e.start_da_height ≡ start)
    × (e.end_da_height ≡ last)
    × (e.txs ≡ txs)

collect_epoch_lem :
    (v : DaView) (b : Boundaries) (h : ℕ)
    → AllAnswered v (epoch_heights b)
    → IsEvent (collect_epoch v b h) b.start b.end (epoch_txs v (epoch_heights b))
unfolding collect_epoch
collect_epoch_lem v b h all =
    let heights = epoch_heights b in
    let c = from_cache v heights in
    let (sync, done, look) = fetch_missing-Fetches v c.missing (AllFetched-missing v heights all) in
    let empty : ForcedInclusionEvent = record {
      timestamp = 0;
      start_da_height = b.start;
      end_da_height = b.end;
      txs = [];
    } in
    let agree : (k : ℕ)
        → mem k heights ≡ true
        → choose_block (lookup_block k c.hits) (lookup_block k sync) ≡ block_at v k =
      λ k m.
        rw (lookup-hits v k heights, look k, mem-missing v k heights)
          (choose-cases (hit_of (v.get_cached_block k))
            (answer_of (v.retrieve k).code (v.retrieve k)) (mem k heights) m) in
    let p = process_lem v c.hits sync heights empty agree in
    rw (done, finish) (process c.hits sync heights empty, refl, p.1, p.2, p.0)

-- With a namespace configured, at the last height of an epoch from the start height on, where the
-- cache or the DA layer answers for each of its heights, the event spans the epoch and has exactly
-- the non-empty blobs of its heights in height order, whichever heights were cached.
pub epoch_end_lem :
    (v : DaView) (s e h : ℕ)
    → v.has_namespace ≡ true
    → s ≤ h
    → h ≡ (calculate_epoch_boundaries h s e).end
    → AllAnswered v (epoch_heights (calculate_epoch_boundaries h s e))
    → IsEvent
        (retrieve_forced_included_txs v s e h)
        (calculate_epoch_boundaries h s e).start
        h
        (epoch_txs v (epoch_heights (calculate_epoch_boundaries h s e)))
unfolding retrieve_forced_included_txs
epoch_end_lem v s e h named after last all =
    let b = calculate_epoch_boundaries h s e in
    let started : ltb h s ≡ false = ground arith in
    let at_end : (h == b.end) ≡ true = (==_iff h b.end).1 last in
    let (found, r, first, final, txs) = collect_epoch_lem v b h all in
    rw (named, started, at_end) (found, r, first, final ∙ sym last, txs)

-- With a namespace configured, at the last height of an epoch from the start height on, where the
-- DA layer fails for a height of the epoch that the cache lacks, and no height is from the future,
-- the retriever still returns an event without an error, with no transactions, that ends at that
-- height.
pub failed_epoch_lem :
    (v : DaView) (s e h : ℕ) (bs : Blocks)
    → v.has_namespace ≡ true
    → s ≤ h
    → h ≡ (calculate_epoch_boundaries h s e).end
    → fetch_missing v (from_cache v (epoch_heights (calculate_epoch_boundaries h s e))).missing
      ≡ fetched bs true
    → IsEvent (retrieve_forced_included_txs v s e h) h h []
unfolding retrieve_forced_included_txs
failed_epoch_lem v s e h bs named after last failed =
    let b = calculate_epoch_boundaries h s e in
    let started : ltb h s ≡ false = ground arith in
    let at_end : (h == b.end) ≡ true = (==_iff h b.end).1 last in
    rw (named, started, at_end, failed, finish) (_, refl, refl, refl, refl)

process-end :
    (cached sync : Blocks) (hs : List ℕ) (e : ForcedInclusionEvent)
    → (process cached sync hs e).end_da_height ≡ e.end_da_height
unfolding process
process-end cached sync [] e = refl
process-end cached sync (h ∷ hs) e =
    let o = choose_block (lookup_block h cached) (lookup_block h sync) in
    process-end cached sync hs (add_block o e) ∙ (add_block-txs o e).2

event-inj : {x y : ForcedInclusionEvent} → event x ≡ event y → x ≡ y
event-inj h = cc

finish-end :
    (cached : Blocks) (hs : List ℕ) (empty e : ForcedInclusionEvent) (h : ℕ) (r : SyncResult)
    → empty.end_da_height ≡ h
    → finish cached hs empty h r ≡ event e
    → e.end_da_height ≡ h
unfolding finish
finish-end cached hs empty e h (future k) last r = cc
finish-end cached hs empty e h (fetched sync true) last r =
    sym (ap (λ (x : ForcedInclusionEvent). x.end_da_height) (event-inj r))
finish-end cached hs empty e h (fetched sync false) last r =
    sym (ap (λ (x : ForcedInclusionEvent). x.end_da_height) (event-inj r))
    ∙ process-end cached sync hs empty
    ∙ last

-- An event ends at the height that was asked for.
pub retrieve-end :
    (v : DaView) (s size h : ℕ) (e : ForcedInclusionEvent)
    → retrieve_forced_included_txs v s size h ≡ event e
    → e.end_da_height ≡ h
unfolding retrieve_forced_included_txs collect_epoch
retrieve-end v s size h e r =
    let b = calculate_epoch_boundaries h s size in
    let (named, r') = else_of (not v.has_namespace) r (λ x. cc) in
    let (after, r'') = else_of (ltb h s) r' (λ x. cc) in
    elim (Bool-cases (h == b.end)) [
      | inl y ↦
          finish-end (from_cache v (epoch_heights b)).hits (epoch_heights b)
            (record { timestamp = 0; start_da_height = b.start; end_da_height = b.end; txs = [] }) e
            h (fetch_missing v (from_cache v (epoch_heights b)).missing)
            (sym ((==_iff h b.end).0 y)) (rw y at r'')
      | inr n ↦
          (let r3 = rw n at r'' in
            sym (ap (λ (x : ForcedInclusionEvent). x.end_da_height) (event-inj r3)))
    ]
