-- ===== src/Config/Checks.antt =====
-- internal/config/config.go: `Validate` and `ValidateListen`, without the texts of the errors.
-- `split_host_port` is `net.SplitHostPort`, and `parse_ip` is `net.ParseIP` with what `IsLoopback` and
-- `IsUnspecified` say of the address.
pub mod Valid
mod Tests
use omarchy_vault.Prelude.{
  ℕ, ◌*◌, ◌++◌, GoString, codes, str_eq, is_empty, has_prefix, any, Bool, true, false, not, ◌&&◌,
  ◌||◌, ltb, leb, ◌==◌, if◌then◌else◌, Option, none, some, List, [], ◌∷◌, length, Result, ok, err,
}
use omarchy_vault.Config.Folders.{FolderError, validate_folder}
use omarchy_vault.Storage.Paths.{clean}
use omarchy_vault.Storage.Inspect.{Source}

-- An `int`
pub data ℤ : Type 0 where
  pos negsuc : ℕ → ℤ

abbrev pub in_range : ℕ → ℕ → ℤ → Bool
in_range low high (pos n) = leb low n && leb n high
in_range low high (negsuc n) = false

abbrev pub is_negative : ℤ → Bool
is_negative (pos n) = false
is_negative (negsuc n) = true

abbrev pub is_zero : ℤ → Bool
is_zero (pos n) = n == 0
is_zero (negsuc n) = false

abbrev pub is_one : ℤ → Bool
is_one (pos n) = n == 1
is_one (negsuc n) = false

-- `Preferences`
pub record Preferences : Type 0 where
  pub upload_folder : GoString
  pub upload_expiry_minutes : ℤ
  pub download_expiry_minutes : ℤ
  pub download_max_count : ℤ

-- `Config`, as far as it is checked
pub record Config : Type 0 where
  pub version : ℤ
  pub vault_root : GoString
  pub listen : GoString
  pub sources : List Source
  pub pool_mode : GoString
  pub preferences : Preferences
  pub auto_off_minutes : ℤ
  pub allow_non_loopback_listen : Bool
  pub host : GoString
  pub port : ℤ

pub data ConfigError : Type 0 where
  bad_version bad_vault_root root_is_slash bad_listen : ConfigError
  bad_source_path bad_source_folder : GoString → ConfigError
  bad_pool bad_upload_folder bad_upload_expiry bad_download_expiry bad_port bad_host bad_auto_off
        bad_max_count :
      ConfigError

-- A `net.IP`, as far as it is asked
pub record Address : Type 0 where
  pub is_loopback : Bool
  pub is_unspecified : Bool

-- the last test of `ValidateListen`
abbrev pub is_this_computer : Option Address → Bool
is_this_computer none = false
is_this_computer (some ip) = ip.is_loopback

-- the test of `transfer.host`
abbrev pub is_for_phones : Option Address → Bool
is_for_phones none = false
is_for_phones (some ip) = not (ip.is_loopback || ip.is_unspecified)

-- `validateAbsClean`
unfoldable pub is_abs_clean : GoString → Bool
is_abs_clean p =
    not (is_empty p)
    && (has_prefix p (codes "/") && (str_eq (clean p) p && not (any (λ c. c == 0) p)))

abbrev pub is_ok : Result FolderError Unit → Bool
is_ok (ok _) = true
is_ok (err _) = false

-- the switch over the mode of the pool
abbrev pub pool_fits : GoString → ℕ → Bool
pool_fits mode n =
    if str_eq mode (codes "none")
    then n == 0
    else if str_eq mode (codes "single")
    then n == 1
    else if str_eq mode (codes "combined")
    then not (ltb n 2)
    else false

-- `strings.ContainsAny` with the two slashes and NUL
abbrev pub is_one_name : GoString → Bool
is_one_name f = not (
    is_empty f
    || (any (λ c. c == 47 || c == 92 || c == 0) f
        || (str_eq f (codes ".") || str_eq f (codes ".."))))

-- an error where the test fails
abbrev pub unless : Bool → ConfigError → List ConfigError
unless fine e = if fine then [] else e ∷ []

unfoldable pub check_sources : List Source → List ConfigError
check_sources [] = []
check_sources (s ∷ ss) =
    unless (is_abs_clean s.path) (bad_source_path s.path)
    ++ (unless (is_ok (validate_folder s.folder)) (bad_source_folder s.folder) ++ check_sources ss)

module _ (split_host_port : GoString → Option (GoString × GoString))
    (parse_ip : GoString → Option Address) where
  abbrev pub listens_at : Bool → Option (GoString × GoString) → Bool
  listens_at anywhere none = false
  listens_at anywhere (some (host, port)) =
      not (is_empty port)
      && (anywhere || (str_eq host (codes "localhost") || is_this_computer (parse_ip host)))

  -- `ValidateListen`
  unfoldable pub validate_listen : GoString → Bool → Bool
  validate_listen addr anywhere = listens_at anywhere (split_host_port addr)

  -- `Config.Validate`: the errors that are joined, none for a valid configuration
  unfoldable pub validate : Config → List ConfigError
  unfolding check_sources is_abs_clean validate_listen
  validate c =
      let p = c.preferences in
      unless (is_one c.version) bad_version
      ++ (unless (is_abs_clean c.vault_root) bad_vault_root
          ++ (unless (not (is_abs_clean c.vault_root && str_eq c.vault_root (codes "/")))
                root_is_slash
              ++ (unless (validate_listen c.listen c.allow_non_loopback_listen) bad_listen
                  ++ (check_sources c.sources
                      ++ (unless (pool_fits c.pool_mode (length c.sources)) bad_pool
                          ++ (unless (is_one_name p.upload_folder) bad_upload_folder
                              ++ (unless (in_range 1 (24 * 60) p.upload_expiry_minutes)
                                    bad_upload_expiry
                                  ++ (unless (in_range 1 (24 * 60) p.download_expiry_minutes)
                                        bad_download_expiry
                                      ++ (unless (in_range 0 65535 c.port) bad_port
                                          ++ (unless
                                                (is_empty c.host || is_for_phones (parse_ip c.host))
                                                bad_host
                                              ++ (unless
                                                    (is_zero c.auto_off_minutes
                                                      || in_range 5 (24 * 60) c.auto_off_minutes)
                                                    bad_auto_off
                                                  ++ unless (not (is_negative p.download_max_count))
                                                      bad_max_count)))))))))))
