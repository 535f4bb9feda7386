-- ===== src/Oidc/LoginPage/Offered.antt =====
-- The choice of upstreams of cmd/oidc/oidcserver/display-login.go, seen as a list.
use kubauth.Base.{
  ◌≡◌, refl, sym, ◌∙◌, inl, inr, String, Bool, true, false, Option, none, some, List, [], ◌∷◌, ◌++◌,
  Bool-cases, if◌then◌else◌,
}
use mathlib.Core.List.{append-nil, append_assoc, Perm}
use kubauth.Oidc.Client.{KubauthClient}
use kubauth.Oidc.Storage.{MemoryStore, get_upstream}
use kubauth.Oidc.Upstream.Provider.{Upstream, new_internal_upstream}
use kubauth.Oidc.LoginPage.Order.{ByName, sort_upstreams-ByName, sort_upstreams-Perm}
use kubauth.Oidc.LoginPage.{
  UpstreamButton, PageSettings, Choice, is_internal, button_of, add_upstream, add_found, no_choice,
  sort_upstreams, choose_global, choose_any, values, choose_named, choose,
}

-- The buttons for the external ones of a list of upstreams, and the last internal one.
abbrev pub buttons_for : List Upstream → List UpstreamButton
buttons_for [] = []
buttons_for (u ∷ us) =
    let rest = buttons_for us in if is_internal u then rest else button_of u ∷ rest

abbrev pub or_else : Option Upstream → Option Upstream → Option Upstream
or_else none other = other
or_else (some u) other = some u

abbrev pub last_internal : List Upstream → Option Upstream
last_internal [] = none
last_internal (u ∷ us) = or_else (last_internal us) (if is_internal u then some u else none)

abbrev pub cons_found : Option Upstream → List Upstream → List Upstream
cons_found none us = us
cons_found (some u) us = u ∷ us

abbrev pub not_specific : List Upstream → List Upstream
not_specific [] = []
not_specific (u ∷ us) =
    let rest = not_specific us in if u.spec.client_specific then rest else u ∷ rest

abbrev pub any_offered : String → List Upstream → List Upstream
any_offered label [] = new_internal_upstream label ∷ []
any_offered label (u ∷ us) = not_specific (sort_upstreams (u ∷ us))

-- What is offered of these upstreams of the store without a list: those that are not client-specific
-- of the same upstreams in the order of their names, or the default one.
abbrev pub OfferedOf : String → List Upstream → List Upstream → Type 0
OfferedOf label [] us = us ≡ new_internal_upstream label ∷ []
OfferedOf label (v ∷ vs) us =
    (sorted : List Upstream) × Perm sorted (v ∷ vs) × ByName sorted × (us ≡ not_specific sorted)

any_offered-OfferedOf :
    (label : String) (vs : List Upstream) → OfferedOf label vs (any_offered label vs)
any_offered-OfferedOf label [] = refl
any_offered-OfferedOf label (v ∷ vs) =
    (sort_upstreams (v ∷ vs), sort_upstreams-Perm (v ∷ vs), sort_upstreams-ByName (v ∷ vs), refl)

-- The choice that a list of upstreams makes.
abbrev pub chosen : Choice → List Upstream → Choice
chosen c us = record {
  internal = or_else (last_internal us) c.internal;
  buttons = c.buttons ++ buttons_for us;
}

or_else_assoc : (a b c : Option Upstream) → or_else (or_else a b) c ≡ or_else a (or_else b c)
or_else_assoc none b c = refl
or_else_assoc (some u) b c = refl

chosen-cons :
    (c : Choice) (u : Upstream) (us : List Upstream)
    → chosen (add_upstream c u) us ≡ chosen c (u ∷ us)
unfolding add_upstream
chosen-cons c u us = elim (Bool-cases (is_internal u)) [
  | inl e ↦ rw (e, or_else_assoc (last_internal us) (some u) c.internal) refl
  | inr e ↦ rw (e, or_else_assoc (last_internal us) none c.internal, append_assoc) refl
]

chosen-nil : (c : Choice) → chosen c [] ≡ c
chosen-nil c = rw (append-nil c.buttons) refl

-- One round of the loop, whether the upstream is left out or not.
global_round :
    (specific : Bool) (c : Choice) (u : Upstream) (us : List Upstream)
    → ((d : Choice) → choose_global d us ≡ chosen d (not_specific us))
    → choose_global (if specific then c else add_upstream c u) us
      ≡ chosen c (if specific then not_specific us else u ∷ not_specific us)
global_round true c u us ih = ih c
global_round false c u us ih = ih (add_upstream c u) ∙ chosen-cons c u (not_specific us)

choose_global-chosen :
    (c : Choice) (us : List Upstream) → choose_global c us ≡ chosen c (not_specific us)
unfolding choose_global
choose_global-chosen c [] = sym (chosen-nil c)
choose_global-chosen c (u ∷ us) =
    global_round u.spec.client_specific c u us (λ d. choose_global-chosen d us)

module _ {R K : Type 0} (store : MemoryStore R Upstream K) (s : PageSettings) where
  abbrev pub known : List String → List Upstream
  known [] = []
  known (name ∷ names) = cons_found (get_upstream store name) (known names)

  -- What a client is offered.
  abbrev pub offered : KubauthClient → List Upstream
  offered client = elim client.spec.upstream_providers [
    | [] ↦ any_offered s.default_login_label (values store.upstreams)
    | (name ∷ names) ↦ known (name ∷ names)
  ]

  -- The upstreams that a client with this list is offered.
  abbrev pub OfferedBy : List String → List Upstream → Type 0
  OfferedBy [] us = OfferedOf s.default_login_label (values store.upstreams) us
  OfferedBy (name ∷ names) us = us ≡ known (name ∷ names)

  pub offered-OfferedBy :
      (client : KubauthClient) → OfferedBy client.spec.upstream_providers (offered client)
  offered-OfferedBy client = for_list client.spec.upstream_providers
    where
      for_list :
          (names : List String)
          → OfferedBy names (
              let us : List Upstream = elim names [
                | [] ↦ any_offered s.default_login_label (values store.upstreams)
                | (name ∷ rest) ↦ known (name ∷ rest)
              ] in
              us)
      for_list [] = any_offered-OfferedOf s.default_login_label (values store.upstreams)
      for_list (name ∷ rest) = refl

  add_found-chosen :
      (c : Choice) (o : Option Upstream) (us : List Upstream)
      → chosen (add_found c o) us ≡ chosen c (cons_found o us)
  add_found-chosen c none us = refl
  add_found-chosen c (some u) us = chosen-cons c u us

  choose_named-chosen :
      (c : Choice) (names : List String) → choose_named store s c names ≡ chosen c (known names)
  unfolding choose_named
  choose_named-chosen c [] = sym (chosen-nil c)
  choose_named-chosen c (name ∷ names) =
      choose_named-chosen (add_found c (get_upstream store name)) names
      ∙ add_found-chosen c (get_upstream store name) (known names)

  pub choose-chosen :
      (client : KubauthClient) → choose store s client ≡ chosen no_choice (offered client)
  unfolding choose choose_any
  choose-chosen client = for_list client.spec.upstream_providers
    where
      for_any :
          (us : List Upstream)
          → choose_any s.default_login_label us
            ≡ chosen no_choice (any_offered s.default_login_label us)
      for_any [] = refl
      for_any (u ∷ us) = choose_global-chosen no_choice (sort_upstreams (u ∷ us))

      for_list :
          (names : List String)
          → (let c : Choice = elim names [
            | [] ↦ choose_any s.default_login_label (values store.upstreams)
            | (name ∷ rest) ↦ choose_named store s no_choice (name ∷ rest)
          ] in
              c)
            ≡ chosen no_choice (
                let us : List Upstream = elim names [
                  | [] ↦ any_offered s.default_login_label (values store.upstreams)
                  | (name ∷ rest) ↦ known (name ∷ rest)
                ] in
                us)
      for_list [] = for_any (values store.upstreams)
      for_list (name ∷ rest) = choose_named-chosen no_choice (name ∷ rest)
