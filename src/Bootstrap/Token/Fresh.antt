-- ===== src/Bootstrap/Token/Fresh.antt =====
-- A token that was created can be refreshed.
use cluster_api_bootstrap_pr.Prelude.{
  String, Option, none, some, Result, ok, err, Error, ◌≡◌, refl, subst, sym, ◌∙◌, ap, Option-cases,
  inl, inr, if◌then◌else◌, str_eq, ok_injective,
}
use cluster_api_bootstrap_pr.Prelude.Dict.{lookup, insert, lookup-insert}
use cluster_api_bootstrap_pr.Secret.Store.{Secret}
use cluster_api_bootstrap_pr.Bootstrap.Token.{
  TokenClient, BootstrapApi, token_key, token_secret, token_split, token_created, create_token,
  refresh_token,
}

module _ {V : Type 0} (api : BootstrapApi) (client : TokenClient V) where
  created_lem :
      (token expiration : String) (v v' : V) (r : Option Error × V) (t : String)
      → token_created api client t r ≡ (ok token, v')
      → (r ≡ (none, v')) × (t ≡ token)
  created_lem token expiration v v' (none, w) t h = (
    ap (λ (x : Result String × V). (none, x.1)) h,
    ok_injective t token (ap (λ (x : Result String × V). x.0) h),
  )
  created_lem token expiration v v' (some e, w) t h =
      absurd (cc (ap (λ (x : Result String × V). x.0) h))

  abbrev pub refreshed : String → Secret → Secret
  refreshed expiration s = record s { content = insert api.expiration_key expiration s.content }

  split_lem :
      (t expiration token : String) (v v' : V)
      → token_split api client expiration t v (api.find_submatch t) ≡ (ok token, v')
      → (t ≡ token)
        × (id : String) × (secret : String) × (api.find_submatch t ≡ some (id, secret))
        × (client.secrets.create (token_secret api expiration id secret) v ≡ (none, v'))
  split_lem t expiration token v v' = elim (Option-cases (api.find_submatch t)) [
    | inl absent ↦ rw absent (λ h. absurd (cc (ap (λ (x : Result String × V). x.0) h)))
    | inr ((id, secret), found) ↦ rw found (λ h.
        let (created, same) =
          created_lem token expiration v v'
            (client.secrets.create (token_secret api expiration id secret) v) t h in
        (same, id, secret, refl, created))
  ]

  -- When createToken returns a token, its Secret stands in the workload cluster, and a refreshToken of
  -- that token finds it: it is an Update of that Secret in which the expiration, and nothing else, has
  -- changed.
  pub refresh_token-create_token :
      (generated : Result String) (token expiration expiration' : String) (v v' : V)
      → create_token api client generated expiration v ≡ (ok token, v')
      → (id : String) × (secret : String) × (let s = token_secret api expiration id secret in
          (api.find_submatch token ≡ some (id, secret))
          × (client.secrets.get (token_key api id) v' ≡ ok s)
          × (refresh_token api client token expiration' v'
              ≡ client.update (refreshed expiration' s) v')
          × ((k : String)
              → lookup k (refreshed expiration' s).content
                ≡ (if str_eq api.expiration_key k then some expiration' else lookup k s.content)))
  unfolding create_token refresh_token
  refresh_token-create_token (err e) token expiration expiration' v v' h =
      absurd (cc (ap (λ (x : Result String × V). x.0) h))
  refresh_token-create_token (ok t) token expiration expiration' v v' h =
      let (same, id, secret, found, created) = split_lem t expiration token v v' h in
      let s = token_secret api expiration id secret in
      let there : client.secrets.get (token_key api id) v' ≡ ok s =
        subst (λ w. client.secrets.get (token_key api id) w ≡ ok s)
          (ap (λ (x : Option Error × V). x.1) created)
          (client.secrets.get_created s v (ap (λ (x : Option Error × V). x.0) created)) in
      let found' : api.find_submatch token ≡ some (id, secret) =
        ap api.find_submatch (sym same) ∙ found in
      (
        id,
        secret,
        (
          found',
          there,
          rw found' (rw there refl),
          λ k. lookup-insert api.expiration_key k expiration' s.content,
        ),
      )
