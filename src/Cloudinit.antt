-- ===== src/Cloudinit.antt =====
-- internal/cloudinit/cloudinit.go: what Write prints. The templates are constants, so parsing them and
-- executing them into a buffer do not fail. Their text stands here with the white space that `{{-` and
-- `-}}` cut off left out; `if` of text/template takes a pointer for true when it is not nil, a slice
-- when it is not empty. strings.Split at newlines is the parameter `split`, printf "%q" is `quote`.
pub mod Switches
use Prim.Native.String.{◌++◌}
use cluster_api_bootstrap_pr.Prelude.{
  ℕ, zero, suc, String, Bool, true, false, not, Option, none, some, List, [], ◌∷◌, is_empty,
  is_some, str_eq, if◌then◌else◌,
}
use cluster_api_bootstrap_pr.Api.{File, User, Ntp}

-- Config
pub record CloudConfig : Type 0 where
  pub files : List File
  pub pre_crit_commands : List String
  pub post_crit_commands : List String
  pub users : List User
  pub ntp : Option Ntp
  pub verbosity : String

-- strings.Repeat(" ", i)
abbrev pub spaces : ℕ → String
spaces zero = ""
spaces (suc i) = " " ++ spaces i

-- strings.Join
abbrev pub join_with : String → List String → String
join_with sep [] = ""
join_with sep (s ∷ []) = s
join_with sep (s ∷ t ∷ ss) = s ++ (sep ++ join_with sep (t ∷ ss))

-- `range` over a slice
abbrev pub each {ℓ} : {A : Type ℓ} → (A → String) → List A → String
each print [] = ""
each print (x ∷ xs) = print x ++ each print xs

-- `{{- if .Field }}` before an optional field
abbrev pub optional_line : String → Option String → String
optional_line label none = ""
optional_line label (some s) = label ++ s

abbrev pub bool_text : Bool → String
bool_text true = "true"
bool_text false = "false"

abbrev pub lock_line : Option Bool → String
lock_line none = ""
lock_line (some b) = "\n    lock_passwd: " ++ bool_text b

-- ntpTemplate
unfoldable pub ntp_text : Option Ntp → String
ntp_text none = ""
ntp_text (some n) =
    "\nntp:\n  "
    ++ ((if is_some n.enabled then "enabled: true\n  " else "")
        ++ ("servers:" ++ each (λ s. "\n    - " ++ s) n.servers))

-- usersTemplate
unfoldable pub user_text : User → String
user_text u =
    ("\n  - name: " ++ u.name)
    ++ (optional_line "\n    passwd: " u.passwd
        ++ (optional_line "\n    gecos: " u.gecos
            ++ (optional_line "\n    groups: " u.groups
                ++ (optional_line "\n    homedir: " u.home_dir
                    ++ ((if is_some u.inactive then "\n    inactive: true" else "")
                        ++ (lock_line u.lock_password
                            ++ (optional_line "\n    shell: " u.shell
                                ++ (optional_line "\n    primary_group: " u.primary_group
                                    ++ (optional_line "\n    sudo: " u.sudo
                                        ++ (if not (is_empty u.ssh_authorized_keys)
                                            then "\n    ssh_authorized_keys:"
                                              ++ each (λ k. "\n      - " ++ k) u.ssh_authorized_keys
                                            else ""))))))))))

unfoldable pub users_text : List User → String
users_text us = if not (is_empty us) then "\nusers:" ++ each user_text us else ""

-- the function "Indent"
unfoldable pub indent : (String → List String) → ℕ → String → String
indent split i input = spaces i ++ join_with ("\n" ++ spaces i) (split input)

abbrev pub labelled : String → String → String → String
labelled before value after = if str_eq value "" then "" else before ++ (value ++ after)

module _ (split : String → List String) (quote : String → String) where
  -- commandsTemplate
  unfoldable pub commands_text : List String → String
  commands_text = each (λ c. "\n  - " ++ quote c)

  -- filesTemplate
  unfoldable pub file_text : File → String
  file_text f =
      ("\n-   path: " ++ (f.path ++ "\n    "))
      ++ (labelled "encoding: \"" f.encoding "\"\n    "
          ++ (labelled "owner: " f.owner "\n    "
              ++ (labelled "permissions: '" f.permissions "'\n    "
                  ++ ("content: |\n" ++ indent split 6 f.content))))

  unfoldable pub files_text : List File → String
  files_text fs = "write_files:" ++ each file_text fs

  -- Write, with nodeCloudInit
  unfoldable pub write : CloudConfig → String
  write cfg =
      "## template: jinja\n#cloud-config\n"
      ++ (files_text cfg.files
          ++ ("\nruncmd:"
              ++ (commands_text cfg.pre_crit_commands
                  ++ ("\n  - 'crit up --config /var/lib/crit/config.yaml "
                      ++ (cfg.verbosity
                          ++ ("'"
                              ++ (commands_text cfg.post_crit_commands
                                  ++ (ntp_text cfg.ntp ++ (users_text cfg.users ++ "\n")))))))))
