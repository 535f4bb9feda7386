-- ===== src/Merger/Provider.antt =====
-- cmd/merger/provider/provider.go and cmd/merger/config/config.go. `fmt.Sprintf` with the pattern of
-- the configuration is the argument `sprintf`, and the exchange with the server of the provider the
-- argument `exchange`; nothing is assumed of either. The ranges over a Go map are in list order.
pub mod Laws
use kubauth.Base.{String, Bool, true, false, Option, none, some, List, [], map, ◌==◌, if◌then◌else◌}
use kubauth.Base.Int.{ℤ, add_int64}
use kubauth.Misc.Claims.{Claims, no_claims, claim, put}
use kubauth.Proto.{
  Result, ok, err, undefined, init_user, IdentityRequest, IdentityResponse, UserDetail,
  ProviderSpec, Translated,
}

-- `IdProviderConfig`, without the parameters of the HTTP client.
pub record IdProviderConfig : Type 0 where
  pub name : String
  pub credential_authority : Option Bool
  pub group_authority : Option Bool
  pub group_pattern : String
  pub claim_authority : Option Bool
  pub claim_pattern : String
  pub name_authority : Option Bool
  pub email_authority : Option Bool
  pub critical : Option Bool
  pub uid_offset : ℤ

-- The interface that the authenticator uses.
pub record Provider : Type 0 where
  pub get_user_detail : String → String → Result UserDetail
  pub get_name : String

default_yes : Option Bool → Option Bool
default_yes none = some true
default_yes (some b) = some b

default_pattern : String → String
default_pattern pattern = if pattern == "" then "%s" else pattern

-- The defaults that `New` writes into the configuration.
unfoldable pub with_defaults : IdProviderConfig → IdProviderConfig
unfolding default_yes default_pattern
with_defaults c = record c {
  credential_authority = default_yes c.credential_authority;
  group_authority = default_yes c.group_authority;
  group_pattern = default_pattern c.group_pattern;
  claim_authority = default_yes c.claim_authority;
  claim_pattern = default_pattern c.claim_pattern;
  name_authority = default_yes c.name_authority;
  email_authority = default_yes c.email_authority;
  critical = default_yes c.critical;
}

-- A dereferenced flag; `New` leaves none that is nil.
abbrev pub deref : Option Bool → Bool
deref none = false
deref (some b) = b

unfoldable pub get_spec : IdProviderConfig → ProviderSpec
get_spec c = record {
  name = c.name;
  credential_authority = deref c.credential_authority;
  group_authority = deref c.group_authority;
  claim_authority = deref c.claim_authority;
  name_authority = deref c.name_authority;
  email_authority = deref c.email_authority;
}

module _ (sprintf : String → String → String) where
  -- The loop that renames the claims, into the map `out`.
  translate_claims : String → Claims → Claims → Claims
  translate_claims pattern out no_claims = out
  translate_claims pattern out (claim k v m) =
      translate_claims pattern (put (sprintf pattern k) v out) m

  translate_uid : ℤ → Option ℤ → Option ℤ
  translate_uid offset none = none
  translate_uid offset (some uid) = some (add_int64 uid offset)

  -- What a response of the provider becomes.
  detail_of : IdProviderConfig → IdentityResponse → UserDetail
  unfolding translate_claims translate_uid get_spec
  detail_of c response = record {
    user = response.user;
    status = response.status;
    provider = get_spec c;
    translated = record {
      groups = map (sprintf c.group_pattern) response.user.groups;
      claims = translate_claims c.claim_pattern no_claims response.user.claims;
      uid = translate_uid c.uid_offset response.user.uid;
    };
  }

  -- What stands for a provider that failed and is not critical.
  skipped : IdProviderConfig → String → UserDetail
  unfolding get_spec
  skipped c login = record {
    user = init_user login;
    status = undefined;
    provider = get_spec c;
    translated = record { groups = []; claims = no_claims; uid = none };
  }

  -- What the outcome of the exchange becomes.
  answer_of : IdProviderConfig → String → Result IdentityResponse → Result UserDetail
  unfolding detail_of skipped
  answer_of c login (err e) = if deref c.critical then err e else ok (skipped c login)
  answer_of c login (ok response) = ok (detail_of c response)

  unfoldable pub get_user_detail :
      IdProviderConfig
      → (IdentityRequest → Result IdentityResponse)
      → String
      → String
      → Result UserDetail
  unfolding answer_of
  get_user_detail c exchange login password =
      answer_of c login (exchange (record { login = login; password = password }))

  -- `New`, behind the set-up of the HTTP client.
  unfoldable pub new : IdProviderConfig → (IdentityRequest → Result IdentityResponse) → Provider
  unfolding with_defaults get_user_detail
  new c exchange = record {
    get_user_detail = get_user_detail (with_defaults c) exchange;
    get_name = c.name;
  }
