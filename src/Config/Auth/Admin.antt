-- ===== src/Config/Auth/Admin.antt =====
-- internal/config/admin.go: where the settings for admin tokens come from.
use argvio.Prelude.{
  Str, str_eq_other, ◌≡◌, ◌≢◌, refl, ◌⊎◌, inl, inr, Bool, true, false, [], ◌∷◌, some, none, Option,
}
use argvio.Config.Auth.{OidcConfig, AdminOidcConfig, effective, or_own, or_set}

or_own-own : (base own : Str) → own ≢ [] → or_own base own ≡ own
or_own-own base [] set = absurd (set refl)
or_own-own base (c ∷ own) set = refl

or_own_nothing : (own : Str) → or_own [] own ≡ own
or_own_nothing [] = refl
or_own_nothing (c ∷ own) = refl

or_set_off : (o : Option Bool) → (or_set false o ≡ false) ⊎ (o ≡ some true)
or_set_off none = inl refl
or_set_off (some false) = inl refl
or_set_off (some true) = inr refl

-- With an issuer of its own, admin verification sends none of the user provider's introspection settings
-- to it: its endpoint and credentials are those set for admins, and introspection is on only if they
-- turn it on.
pub effective_own_issuer :
    (a : AdminOidcConfig) (base : OidcConfig)
    → a.issuer_url ≢ []
    → a.issuer_url ≢ base.issuer_url
    → let eff = effective a base in
      (eff.issuer_url ≡ a.issuer_url)
      × (eff.introspection.endpoint ≡ a.introspection.endpoint)
      × (eff.introspection.client_id ≡ a.introspection.client_id)
      × (eff.introspection.client_secret ≡ a.introspection.client_secret)
      × ((eff.introspection.enabled ≡ false) ⊎ (a.introspection.enabled ≡ some true))
unfolding effective
effective_own_issuer a base own other =
    let issuer = or_own-own base.issuer_url a.issuer_url own in
    let differs = str_eq_other a.issuer_url base.issuer_url other in
    rw (issuer, differs)
      (
        refl,
        or_own_nothing a.introspection.endpoint,
        or_own_nothing a.introspection.client_id,
        or_own_nothing a.introspection.client_secret,
        or_set_off a.introspection.enabled,
      )
