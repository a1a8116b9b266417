-- ===== src/Tests/Clouds.antt =====
-- The theorems on cloud-configs, at concrete ones.
use cluster_api_bootstrap_pr.Prelude.{
  String, false, none, some, List, [], ◌∷◌, map, str_eq, if◌then◌else◌, ◌≡◌, refl,
}
use cluster_api_bootstrap_pr.Api.{User}
use cluster_api_bootstrap_pr.Cloudinit.{CloudConfig, ntp_text, user_text, write}
use cluster_api_bootstrap_pr.Cloudinit.Switches.{enabled_ntp, inactive_user, write-switched_on}

abbrev split : String → List String
split text = if str_eq text "a\nb" then "a" ∷ "b" ∷ [] else text ∷ []

abbrev admin : User
admin = record {
  name = "admin";
  gecos = none;
  groups = some "sudo";
  home_dir = none;
  inactive = some false;
  shell = none;
  passwd = none;
  primary_group = none;
  lock_password = some false;
  sudo = none;
  ssh_authorized_keys = [];
}

abbrev cloud : CloudConfig
cloud = record {
  files = [];
  pre_crit_commands = "date" ∷ [];
  post_crit_commands = [];
  users = admin ∷ [];
  ntp = some (record { servers = "ntp" ∷ []; enabled = some false });
  verbosity = "";
}

-- An account that is not to be inactive, and a service that is not to be enabled.
printed_user :
    user_text admin
    ≡ "\n  - name: admin\n    groups: sudo\n    inactive: true\n    lock_passwd: false"
unfolding user_text
printed_user = refl

printed_ntp : ntp_text cloud.ntp ≡ "\nntp:\n  enabled: true\n  servers:\n    - ntp"
unfolding ntp_text
printed_ntp = refl

write-switched_on_example :
    write split
      (λ c. c)
      (record cloud { ntp = enabled_ntp cloud.ntp; users = map inactive_user cloud.users })
    ≡ write split (λ c. c) cloud
write-switched_on_example = write-switched_on split (λ c. c) cloud
