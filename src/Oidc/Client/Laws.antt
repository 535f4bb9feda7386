-- ===== src/Oidc/Client/Laws.antt =====
-- The audiences and the lifespans of an OIDC client.
use kubauth.Base.{
  ◌≡◌, refl, inl, inr, String, true, [], ◌∷◌, ◌||◌, arith, ◌==◌, eq_iff, Bool-cases, contains,
  contains-append,
}
use kubauth.Oidc.Client.{KubauthClient, get_audience}

-- The audiences that a client may ask for are those of its specification and its own identifier.
-- They stand in the order of the specification, and nothing is added when the identifier is listed.
pub get_audience_lem :
    (k : KubauthClient) (s : String)
    → (contains (get_audience k) s ≡ (contains k.spec.audiences s || (k.client_id == s)))
      × (contains k.spec.audiences k.client_id ≡ true → get_audience k ≡ k.spec.audiences)
unfolding get_audience
get_audience_lem k s = elim (Bool-cases (contains k.spec.audiences k.client_id)) [
  | inl h ↦ rw h (ground (arith, h, eq_iff k.client_id s), λ e. refl)
  | inr h ↦ rw h (
    ground (arith, contains-append k.spec.audiences (k.client_id ∷ []) s),
    λ e. ground (arith, e),
  )
]
