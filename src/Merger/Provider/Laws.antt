-- ===== src/Merger/Provider/Laws.antt =====
-- What cmd/merger/provider/provider.go makes of a response, and of a failure.
use kubauth.Base.{◌≡◌, ◌≢◌, String, false, Option, none, some, [], arith, map}
use kubauth.Misc.Claims.{Value, Claims, no_claims, get}
use kubauth.Misc.Claims.Merge.{UniqueKeys}
use kubauth.Proto.{Result, ok, err, undefined, IdentityResponse, UserDetail}
use kubauth.Merger.Provider.{IdProviderConfig, with_defaults, get_spec, skipped, answer_of}

module _ (sprintf : String → String → String) where
  -- A pattern that keeps the names of claims apart.
  abbrev pub KeepsApart : String → Type 0
  KeepsApart pattern = (j k : String) → sprintf pattern j ≡ sprintf pattern k → j ≡ k

  abbrev or_else : Option Value → Option Value → Option Value
  or_else none b = b
  or_else (some v) b = some v

  -- What a provider answers for a login whose exchange has this result: the flags of its
  -- configuration, where a flag that is not set is on, and the user of the response with the groups
  -- and the claims renamed; or, of a provider that is not critical, an answer that says nothing.
  pub record Answers (c : IdProviderConfig) (response : Result IdentityResponse) (d : UserDetail)
      : Type 0 where
    pub flags : d.provider ≡ get_spec (with_defaults c)
    pub a_map : UniqueKeys d.translated.claims
    pub from_response :
        (r : IdentityResponse)
        → response ≡ ok r
        → (d.user ≡ r.user)
          × (d.status ≡ r.status)
          × (d.translated.groups ≡ map (sprintf (with_defaults c).group_pattern) r.user.groups)
    pub claims_renamed :
        (r : IdentityResponse) (k : String)
        → response ≡ ok r
        → UniqueKeys r.user.claims
        → KeepsApart (with_defaults c).claim_pattern
        → get (sprintf (with_defaults c).claim_pattern k) d.translated.claims ≡ get k r.user.claims
    pub on_error :
        (e : String)
        → response ≡ err e
        → (d.status ≡ undefined)
          × (d.translated.groups ≡ [])
          × (d.translated.claims ≡ no_claims)
          × (d.translated.uid ≡ none)

  module _ (c : IdProviderConfig) where
    on_error :
        (login e : String)
        → (c.critical ≡ some false
            → answer_of sprintf (with_defaults c) login (err e)
              ≡ ok (skipped sprintf (with_defaults c) login))
          × (c.critical ≢ some false → answer_of sprintf (with_defaults c) login (err e) ≡ err e)
    unfolding answer_of with_defaults
    on_error login e = ground arith
