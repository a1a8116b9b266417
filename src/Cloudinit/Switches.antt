-- ===== src/Cloudinit/Switches.antt =====
-- The optional switches of a cloud-config.
use Prim.Native.String.{◌++◌}
use cluster_api_bootstrap_pr.Prelude.{
  String, Bool, true, Option, none, some, List, [], ◌∷◌, map, is_some, ◌≡◌, refl, ap,
}
use cluster_api_bootstrap_pr.Api.{Ntp, User}
use cluster_api_bootstrap_pr.Cloudinit.{CloudConfig, each, ntp_text, user_text, users_text, write}

-- A switch that is set, on or off, is on.
abbrev pub switched_on : Option Bool → Option Bool
switched_on none = none
switched_on (some b) = some true

abbrev pub enabled_ntp : Option Ntp → Option Ntp
enabled_ntp none = none
enabled_ntp (some n) = some (record n { enabled = switched_on n.enabled })

abbrev pub inactive_user : User → User
inactive_user u = record u { inactive = switched_on u.inactive }

is_some-switched_on : (o : Option Bool) → is_some (switched_on o) ≡ is_some o
is_some-switched_on none = refl
is_some-switched_on (some b) = refl

ntp_text-enabled : (o : Option Ntp) → ntp_text (enabled_ntp o) ≡ ntp_text o
unfolding ntp_text
ntp_text-enabled none = refl
ntp_text-enabled (some n) = rw (is_some-switched_on n.enabled) refl

user_text-inactive : (u : User) → user_text (inactive_user u) ≡ user_text u
unfolding user_text
user_text-inactive u = rw (is_some-switched_on u.inactive) refl

each-inactive : (us : List User) → each user_text (map inactive_user us) ≡ each user_text us
each-inactive [] = refl
each-inactive (u ∷ us) = rw (user_text-inactive u, each-inactive us) refl

users_text-inactive : (us : List User) → users_text (map inactive_user us) ≡ users_text us
unfolding users_text
users_text-inactive [] = refl
users_text-inactive (u ∷ us) = ap (λ x. "\nusers:" ++ x) (each-inactive (u ∷ us))

-- What Write prints does not tell a switch that is off from one that is on: with every `enabled` of NTP and
-- every `inactive` of a user that is set to false set to true instead, the cloud-config is the same.
pub write-switched_on :
    (split : String → List String) (quote : String → String) (cfg : CloudConfig)
    → write split quote
        (record cfg { ntp = enabled_ntp cfg.ntp; users = map inactive_user cfg.users })
      ≡ write split quote cfg
unfolding write
write-switched_on split quote cfg =
    rw (ntp_text-enabled cfg.ntp, users_text-inactive cfg.users) refl
