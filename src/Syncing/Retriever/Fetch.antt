-- ===== src/Syncing/Retriever/Fetch.antt =====
-- fetchBlobs and RetrieveFromDA of block/internal/syncing/da_retriever.go.
use chain_sdk.Base.{
  ℕ, ◌==◌, Bool, true, false, ◌&&◌, Option, none, some, List, [], ◌++◌, if◌then◌else◌, Bytes,
  bytes_equal, length,
}
use chain_sdk.Syncing.Sync.{Event}
use chain_sdk.Syncing.Retriever.{Env, Retriever, process_blobs}

pub data Code : Type 0 where
  status_success status_error status_from_future status_not_found other_status : Code

-- datypes.ResultRetrieve, and the client at one DA height.
pub record Answer : Type 0 where
  pub code : Code
  pub blobs : List Bytes
  ids : List Bytes

pub record Client : Type 0 where
  header_namespace : Bytes
  pub data_namespace : Bytes
  pub retrieve : Bytes → Answer

pub data FetchError : Type 0 where
  retrieval_failed height_from_future blob_not_found cancelled panicked : FetchError

-- `none` is no error.
validate_blob_response : Code → Option FetchError
validate_blob_response status_success = none
validate_blob_response status_error = some retrieval_failed
validate_blob_response status_from_future = some height_from_future
validate_blob_response status_not_found = some blob_not_found
validate_blob_response other_status = none

-- An error other than that nothing was found.
pub stops : Option FetchError → Bool
stops none = false
stops (some retrieval_failed) = true
stops (some height_from_future) = true
stops (some blob_not_found) = false
stops (some cancelled) = true
stops (some panicked) = true

-- The blobs, or the IDs, of an answer that succeeded.
on_success : Code → List Bytes → List Bytes
on_success status_success bs = bs
on_success status_error bs = []
on_success status_from_future bs = []
on_success status_not_found bs = []
on_success other_status bs = []

-- The blobs of both namespaces, or an error.
pub combine : Answer → Answer → Option FetchError × List Bytes
unfolding on_success
combine header_answer data_answer =
    let blobs =
      on_success header_answer.code header_answer.blobs
      ++ on_success data_answer.code data_answer.blobs in
    let ids =
      on_success header_answer.code header_answer.ids
      ++ on_success data_answer.code data_answer.ids in
    if length blobs == 0 && length ids == 0 then (some blob_not_found, blobs) else (none, blobs)

fetch_blobs : Client → Option FetchError × List Bytes
unfolding combine stops validate_blob_response
fetch_blobs c =
    let header_answer = c.retrieve c.header_namespace in
    let data_answer = c.retrieve c.data_namespace in
    if bytes_equal c.header_namespace c.data_namespace
    then (validate_blob_response header_answer.code, header_answer.blobs)
    else if stops (validate_blob_response header_answer.code)
    then (validate_blob_response header_answer.code, header_answer.blobs)
    else if stops (validate_blob_response data_answer.code)
    then (validate_blob_response data_answer.code, data_answer.blobs)
    else combine header_answer data_answer

pub data Retrieved : Type 0 where
  failed : FetchError → Retrieved
  events : List Event → Retrieved

on_processed : Retriever → Option (Retriever × List Event) → Retriever × Retrieved
on_processed σ none = (σ, failed panicked)
on_processed σ (some (τ, evs)) = (τ, events evs)

on_fetched : Env → ℕ → Bool → Retriever → Option FetchError × List Bytes → Retriever × Retrieved
unfolding on_processed process_blobs
on_fetched env da is_cancelled σ (some e, blobs) = (σ, failed e)
on_fetched env da is_cancelled σ (none, blobs) =
    if is_cancelled then (σ, failed cancelled) else on_processed σ (process_blobs env da blobs σ)

retrieve_from_da : Env → Client → ℕ → Bool → Retriever → Retriever × Retrieved
unfolding on_fetched fetch_blobs
retrieve_from_da env c da is_cancelled σ = on_fetched env da is_cancelled σ (fetch_blobs c)
