-- ===== src/Types/Header/Tests.antt =====
-- The validation of a concrete signed header.
use chain_sdk.Base.{
  ℕ, ◌+◌, ◌^◌, ◌==◌, refl, Bool, true, false, Option, none, some, [], ◌∷◌, Bytes, bytes_equal,
  if◌then◌else◌,
}
use chain_sdk.Types.Header.{
  SignedHeader, Signing, Verified, IsWellFormed, validate_basic, try_payload, validate_basic_lem,
}

abbrev accepts_slim : Bytes → Option Bool
accepts_slim [] = none
accepts_slim (p ∷ ps) = if p == 8 then some true else some false

-- A custom payload that does not verify, and the legacy encoding that does.
abbrev legacy_signing : Signing
legacy_signing = record {
  verify = accepts_slim;
  provider = some (some (7 ∷ []));
  slim = some (7 ∷ []);
  legacy = some (8 ∷ []);
}

abbrev signed : SignedHeader
signed = record {
  header = record {
    chain_id = 1 ∷ [];
    height = 4;
    nanos = 50;
    last_header_hash = 2 ∷ [];
    data_hash = 3 ∷ [];
    app_hash = 4 ∷ [];
    proposer_address = 5 ∷ [];
  };
  signature = 6 ∷ [];
  signer_address = 5 ∷ [];
}

abbrev year_2300 : ℕ
year_2300 = 10 ^ 19 + 2 ^ 63

validate_basic_lem_example : IsWellFormed year_2300 signed × Verified legacy_signing
unfolding validate_basic bytes_equal try_payload
validate_basic_lem_example = validate_basic_lem year_2300 legacy_signing signed refl
