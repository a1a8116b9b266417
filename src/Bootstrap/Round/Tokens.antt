-- ===== src/Bootstrap/Round/Tokens.antt =====
-- The bootstrap token of a worker.
use cluster_api_bootstrap_pr.Prelude.{
  String, Bool, true, false, Option, none, some, Result, ok, err, Error, str_eq, ◌≡◌, refl, sym,
  ◌∙◌, ap, ◌⊎◌, inl, inr, Bool-cases, Result-cases,
}
use cluster_api_bootstrap_pr.Api.{Cluster}
use cluster_api_bootstrap_pr.Bootstrap.Defaults.{WorkerConfiguration, ConfigOwner, set_config}
use cluster_api_bootstrap_pr.Bootstrap.Services.{Services, cluster_key}
use cluster_api_bootstrap_pr.Bootstrap.Token.{TokenClient, create_token, refresh_token}
use cluster_api_bootstrap_pr.Bootstrap.Round.{
  TokenState, set_worker_config, until_consumed, token_refreshed, refresh_with, token_created,
  create_with, reconcile_worker_bootstrap_token,
}

module _ {W V : Type 0} (services : Services W V) (owner : ConfigOwner) (cluster : Cluster) where
  -- the configuration is written as YAML into the spec
  abbrev pub IsWritten : TokenState V → TokenState V → Type 0
  IsWritten st st' =
      (services.marshal_worker st'.cfg ≡ ok st'.spec.config)
      × (record st'.spec { config = st.spec.config } ≡ st.spec)

  set_worker_config-IsWritten :
      (st st' : TokenState V)
      → set_worker_config services owner cluster st ≡ (none, st')
      → IsWritten st st' × (st'.cfg ≡ st.cfg) × (st'.remote ≡ st.remote)
  unfolding set_config
  set_worker_config-IsWritten st st' = elim (Result-cases (services.marshal_worker st.cfg)) [
    | inl (e, t) ↦ rw t (λ h. absurd (cc (ap (λ (x : Option Error × TokenState V). x.0) h)))
    | inr (text, t) ↦ rw t (λ h.
        let e = ap (λ (x : Option Error × TokenState V). x.1) h in
        (
          (
            ap (λ (s : TokenState V). services.marshal_worker s.cfg) (sym e)
                ∙ t
                ∙ ap (λ (s : TokenState V). ok s.spec.config) e,
            ap (λ (s : TokenState V). record s.spec { config = st.spec.config }) (sym e),
          ),
          ap (λ (s : TokenState V). s.cfg) (sym e),
          ap (λ (s : TokenState V). s.remote) (sym e),
        ))
  ]

  until_consumed-fails :
      (r : Option Error × TokenState V)
      → (e : Error) × ((until_consumed services owner cluster r).0 ≡ some e)
  until_consumed-fails (some e, st) = (e, refl)
  until_consumed-fails (none, st) = (_, refl)

  token_refreshed-fails :
      (st : TokenState V) (r : Option Error × V)
      → (e : Error) × ((token_refreshed services owner cluster st r).0 ≡ some e)
  token_refreshed-fails st (some e, v) = (_, refl)
  token_refreshed-fails st (none, v) =
      until_consumed-fails (set_worker_config services owner cluster (record st { remote = v }))

  refresh_with-fails :
      (st : TokenState V) (r : Result (TokenClient V))
      → (e : Error) × ((refresh_with services owner cluster st r).0 ≡ some e)
  refresh_with-fails st (err e) = (e, refl)
  refresh_with-fails st (ok client) =
      token_refreshed-fails st (
        refresh_token services.token_api client st.cfg.bootstrap_token services.expiration
          st.remote)

  -- The token is consumed, or there is none.
  abbrev pub IsSettled : TokenState V → Type 0
  IsSettled st = (str_eq st.cfg.bootstrap_token "" ≡ true) ⊎ (owner.infrastructure_ready ≡ true)

  -- The token of `st'` is one that createToken has made, and nothing else has changed.
  abbrev pub IsCreated : TokenState V → TokenState V → Type 0
  IsCreated st st' =
      (client : TokenClient V) × (services.remote_client (cluster_key cluster) ≡ ok client)
      × (create_token services.token_api client services.generate_token services.expiration
            st.remote
          ≡ (ok st'.cfg.bootstrap_token, st'.remote))
      × (record st'.cfg { bootstrap_token = st.cfg.bootstrap_token } ≡ st.cfg)

  token_created-IsCreated :
      (st st' : TokenState V) (r : Result String × V)
      → token_created services owner cluster st r ≡ (none, st')
      → IsWritten st st'
        × (r ≡ (ok st'.cfg.bootstrap_token, st'.remote))
        × (record st'.cfg { bootstrap_token = st.cfg.bootstrap_token } ≡ st.cfg)
  token_created-IsCreated st st' (err e, v) h =
      absurd (cc (ap (λ (x : Option Error × TokenState V). x.0) h))
  token_created-IsCreated st st' (ok token, v) h =
      let made = record st { cfg = record st.cfg { bootstrap_token = token }; remote = v } in
      let (written, cfg, remote) = set_worker_config-IsWritten made st' h in
      (
        written,
        λ i. (ok (sym cfg i).bootstrap_token, sym remote i),
        ap (λ (c : WorkerConfiguration). record c { bootstrap_token = st.cfg.bootstrap_token }) cfg,
      )

  create_with-IsCreated :
      (st st' : TokenState V) (r : Result (TokenClient V))
      → services.remote_client (cluster_key cluster) ≡ r
      → create_with services owner cluster st r ≡ (none, st')
      → IsWritten st st' × IsCreated st st'
  create_with-IsCreated st st' (err e) t h =
      absurd (cc (ap (λ (x : Option Error × TokenState V). x.0) h))
  create_with-IsCreated st st' (ok client) t h =
      let (written, created, kept) =
        token_created-IsCreated st st'
          (create_token services.token_api client services.generate_token services.expiration
            st.remote)
          h in
      (written, (client, t, created, kept))

  -- When reconcileWorkerBootstrapToken reports no error, a ready configuration is left as it was, and then it
  -- has no token or the infrastructure that consumes the token is ready. For one that is not ready
  -- the configuration is written into the spec, and either it had a token, which is respected, with no
  -- call to the workload cluster, or its token is one that createToken made there.
  pub reconcile_worker_bootstrap_token_lem :
      (ready : Bool) (st st' : TokenState V)
      → reconcile_worker_bootstrap_token services owner cluster ready st ≡ (none, st')
      → ((ready ≡ true) × (st' ≡ st) × IsSettled st)
        ⊎ ((ready ≡ false)
            × IsWritten st st'
            × (((str_eq st.cfg.bootstrap_token "" ≡ false)
                  × (st'.cfg ≡ st.cfg)
                  × (st'.remote ≡ st.remote))
                ⊎ IsCreated st st'))
  unfolding reconcile_worker_bootstrap_token
  reconcile_worker_bootstrap_token_lem true st st' =
      elim (Bool-cases (str_eq st.cfg.bootstrap_token "")) [
        | inl t ↦
            rw t (λ h. inl (refl, ap (λ (x : Option Error × TokenState V). x.1) (sym h), inl refl))
        | inr t ↦ elim (Bool-cases owner.infrastructure_ready) [
          | inl b ↦
              rw (t, b)
                (λ h. inl (refl, ap (λ (x : Option Error × TokenState V). x.1) (sym h), inr refl))
          | inr b ↦
              rw (t, b)
                (λ h.
                  let (e, failed) =
                    refresh_with-fails st (services.remote_client (cluster_key cluster)) in
                  absurd (cc (sym (ap (λ (x : Option Error × TokenState V). x.0) h) ∙ failed)))
        ]
      ]
  reconcile_worker_bootstrap_token_lem false st st' =
      elim (Bool-cases (str_eq st.cfg.bootstrap_token "")) [
        | inl t ↦ rw t (λ h.
            let (written, created) = create_with-IsCreated st st' _ refl h in
            inr (refl, written, inr created))
        | inr t ↦ rw t (λ h.
            let (written, cfg, remote) = set_worker_config-IsWritten st st' h in
            inr (refl, written, inl (refl, cfg, remote)))
      ]
