-- ===== src/Oidc/UpstreamController/Tests.antt =====
-- An upstream provider that is published, and one that is refused and then deleted.
use kubauth.Base.{◌≡◌, refl, true, false, none, some, [], ◌∷◌, lookup, insert}
use kubauth.Misc.Slices.{bool_ptr_true}
use kubauth.Proto.{ok, err}
use kubauth.Ucrd.Authenticator.{found}
use kubauth.Oidc.Storage.{new_memory_store, set_upstream, get_upstream}
use kubauth.Oidc.Upstream.Provider.{UpstreamSpec, Upstream, OidcLibrary, empty_spec, oidc}
use kubauth.Oidc.ClientController.{no_phase, ready}
use kubauth.Oidc.UpstreamController.{
  UpstreamProvider, Calls, World, check_spec, status_for, reconcile,
}
use kubauth.Oidc.UpstreamController.Laws.{Tells, reconcile-Tells}
use kubauth.Oidc.UpstreamController.Stale.{stale_upstream}

abbrev library : OidcLibrary
library = record {
  http_client = λ ca. ok tt;
  discover = λ issuer. ok (record {
    auth_url = "https://up/auth";
    token_url = "https://up/token";
    user_info_url = "https://up/userinfo";
  });
  challenge_methods = λ issuer. ok ("S256" ∷ []);
}

abbrev calls : Calls
calls = record {
  get_secret = λ name. found (λ key. some "s3cret");
  get_config_map = λ name. found (λ key. none);
  library = library;
  patch = ok tt;
  update_status = ok tt;
}

abbrev valid : UpstreamSpec
valid = record empty_spec {
  type = oidc;
  display_name = "Up";
  issuer_url = "https://up";
  redirect_url = "https://issuer/callback";
  client_id = "kubauth";
  scopes = "openid" ∷ [];
}

abbrev up : UpstreamProvider
up = record {
  namespace = "upstreams";
  name = "up";
  deleting = false;
  has_finalizer = true;
  spec = valid;
  status = record { phase = no_phase; message = ""; effective_config = none };
}

abbrev world : World (Unit {0}) (Unit {0})
world = record { resource = found up; store = new_memory_store; status_errors = 0 }

reconcile-Tells_example :
    Tells new_memory_store up (reconcile "upstreams" calls world "upstreams" (found up)).0
reconcile-Tells_example = reconcile-Tells "upstreams" calls world up refl refl refl

abbrev made : Upstream
made = record { name = "up"; spec = valid; client_secret = ""; provider = none }

-- The same provider, published and then left without an issuer.
abbrev spoilt : UpstreamProvider
spoilt = record up {
  spec = record valid { issuer_url = "" };
  status = record { phase = ready; message = "OK"; effective_config = none };
}

abbrev published_world : World (Unit {0}) (Unit {0})
published_world = record {
  resource = found spoilt;
  store = set_upstream new_memory_store "up" made;
  status_errors = 0;
}

is_invalid : check_spec spoilt.spec ≡ err "upstream provider has no issuerURL"
unfolding check_spec
is_invalid = refl

spoilt_enabled : bool_ptr_true spoilt.spec.enabled ≡ true
unfolding bool_ptr_true
spoilt_enabled = refl

is_there : get_upstream published_world.store "up" ≡ some made
unfolding get_upstream set_upstream insert lookup new_memory_store
is_there = refl

stale_upstream_example :
    (let s = status_for spoilt none (some "upstream provider has no issuerURL") in
      let after = (reconcile "upstreams" calls published_world "upstreams" (found spoilt)).0 in
      let last =
        (reconcile "upstreams" calls after "upstreams"
          (found (record spoilt { status = s; deleting = true }))).0 in
      (after.resource ≡ found (record spoilt { status = s }))
      × ((last.resource
            ≡ found (record spoilt { status = s; deleting = true; has_finalizer = false }))
          × (get_upstream last.store "up" ≡ some made)))
stale_upstream_example =
    stale_upstream "upstreams" calls calls published_world spoilt
      "upstream provider has no issuerURL" made refl refl spoilt_enabled refl is_invalid refl refl
      is_there
