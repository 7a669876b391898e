-- ===== src/Cache/Pending/Tests.antt =====
-- The pending blocks at concrete inputs.
use chain_sdk.Base.{
  ℕ, ◌==◌, ◌≡◌, refl, true, Option, none, some, [], ◌∷◌, if◌then◌else◌, put_little_endian,
}
use chain_sdk.Types.Chain.{Data}
use chain_sdk.Cache.Pending.{
  Pending, View, get_pending, num_pending, set_last_submitted_height, advance_past_empty_data,
}
use chain_sdk.Cache.Pending.Listing.{pending_of, Returns, get_pending-Returns}
use chain_sdk.Cache.Pending.Progress.{Advances, advance_past_empty_data-Advances}

-- The store has ten blocks, and the item of a height is the height.
abbrev heights : View ℕ
heights = record {
  store_height = some 10;
  fetch = λ h. some h;
  survives = λ h. h == 8;
  writes_metadata = true;
}

abbrev cached : ℕ → Option ℕ
cached h = some h

abbrev at_seven : Pending ℕ
at_seven = record { last_height = 7; pending_cache = cached; stored = some (put_little_endian 8 7) }

lists : (get_pending heights at_seven).1 ≡ some (8 ∷ 9 ∷ 10 ∷ [])
unfolding get_pending
lists = refl

get_pending-Returns_example :
    Returns heights (pending_of heights 7 10) (get_pending heights at_seven)
get_pending-Returns_example = get_pending-Returns heights at_seven 10 (λ h x e. e) refl

stores_nine : (set_last_submitted_height heights at_seven 9).stored ≡ some (put_little_endian 8 9)
unfolding set_last_submitted_height
stores_nine = refl

abbrev rolled_back : View ℕ
rolled_back = record heights { store_height = some 5 }

wraps : num_pending rolled_back at_seven ≡ 18446744073709551614
unfolding num_pending
wraps = refl

-- The block at 3 has a transaction, and those before it have none.
abbrev blocks : View Data
blocks = record {
  store_height = some 5;
  fetch = λ h. some (record { metadata = none; txs = if h == 3 then (1 ∷ []) ∷ [] else [] });
  survives = λ h. true;
  writes_metadata = true;
}

abbrev none_submitted : Pending Data
none_submitted = record { last_height = 0; pending_cache = λ _. none; stored = none }

stops_at_two : (advance_past_empty_data blocks none_submitted).last_height ≡ 2
unfolding advance_past_empty_data
stops_at_two = refl

advance_past_empty_data-Advances_example :
    Advances blocks 0 5 (advance_past_empty_data blocks none_submitted).last_height
advance_past_empty_data-Advances_example =
    advance_past_empty_data-Advances blocks none_submitted 5 refl
