-- ===== src/Bootstrap/Token.antt =====
-- controllers/bootstrap/token.go: bootstrap tokens, kept in Secrets of the workload cluster. What the
-- code takes from k8s.io/cluster-bootstrap and the time that a token expires at are parameters.
pub mod Fresh
use cluster_api_bootstrap_pr.Prelude.{
  String, Bool, Option, none, some, List, [], ◌∷◌, Result, ok, err, Error, errorf, wrap, is_empty,
  if◌then◌else◌,
}
use cluster_api_bootstrap_pr.Prelude.Dict.{insert}
use cluster_api_bootstrap_pr.Secret.Store.{ObjectKey, Secret, SecretClient}

-- The client of the workload cluster.
pub record TokenClient (V : Type 0) : Type 0 where
  pub secrets : SecretClient V
  pub update : Secret → V → Option Error × V

-- The packages bootstraputil and bootstrapapi, and metav1.NamespaceSystem. `find_submatch` is
-- FindStringSubmatch of BootstrapTokenRegexp: the token's ID and secret, when the token has the form.
pub record BootstrapApi : Type 0 where
  pub find_submatch : String → Option (String × String)
  pub secret_name : String → String
  pub namespace_system : String
  pub secret_type : String
  pub id_key : String
  pub secret_key : String
  pub expiration_key : String
  pub usage_signing_key : String
  pub usage_authentication : String
  pub extra_groups_key : String
  pub description_key : String

abbrev pub token_key : BootstrapApi → String → ObjectKey
token_key api id = record { namespace_of = api.namespace_system; name = api.secret_name id }

abbrev pub token_secret : BootstrapApi → String → String → String → Secret
token_secret api expiration id secret = record {
  key = token_key api id;
  labels = [];
  owner_references = [];
  type_of = api.secret_type;
  content =
      (api.id_key, id)
      ∷ (api.secret_key, secret)
      ∷ (api.expiration_key, expiration)
      ∷ (api.usage_signing_key, "true")
      ∷ (api.usage_authentication, "true")
      ∷ (api.extra_groups_key, "system:bootstrappers:crit:default-node-token")
      ∷ (api.description_key, "token generated by cluster-api-bootstrap-provider-crit")
      ∷ [];
}

module _ {V : Type 0} (api : BootstrapApi) (client : TokenClient V) where
  abbrev pub token_created : String → Option Error × V → Result String × V
  token_created token (none, v) = (ok token, v)
  token_created token (some e, v) = (err e, v)

  abbrev pub token_split : String → String → V → Option (String × String) → Result String × V
  token_split expiration token v none = (err (errorf "the bootstrap token was not of the form"), v)
  token_split expiration token v (some (id, secret)) =
      token_created token (client.secrets.create (token_secret api expiration id secret) v)

  -- createToken, with the token that GenerateBootstrapToken returns
  unfoldable pub create_token : Result String → String → V → Result String × V
  create_token (err e) expiration v = (err (wrap "unable to generate bootstrap token" e), v)
  create_token (ok token) expiration v = token_split expiration token v (api.find_submatch token)

  -- An absent Data is an empty one.
  abbrev pub token_read : String → V → Result Secret → Option Error × V
  token_read expiration v (err e) = (some e, v)
  token_read expiration v (ok s) =
      if is_empty s.content
      then (some (errorf "Invalid bootstrap secret"), v)
      else client.update (record s { content = insert api.expiration_key expiration s.content }) v

  abbrev pub token_found : String → V → Option (String × String) → Option Error × V
  token_found expiration v none = (some (errorf "the bootstrap token was not of the form"), v)
  token_found expiration v (some (id, secret)) =
      token_read expiration v (client.secrets.get (token_key api id) v)

  -- refreshToken
  unfoldable pub refresh_token : String → String → V → Option Error × V
  refresh_token token expiration v = token_found expiration v (api.find_submatch token)
