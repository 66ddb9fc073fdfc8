-- ===== src/Config/Checks/Tests.antt =====
-- internal/config/config.go: a configuration like `Default`, with an address for phones.
use omarchy_vault.Prelude.{
  ◌≡◌, refl, GoString, codes, str_eq, if◌then◌else◌, has_prefix, Bool, true, false, Option, none,
  some, [],
}
use omarchy_vault.Config.Folders.{split}
use omarchy_vault.Storage.Paths.{clean, push_components, join_slash}
use omarchy_vault.Config.Checks.{
  pos, Config, Address, is_abs_clean, validate_listen, check_sources, validate,
}

abbrev split_default : GoString → Option (GoString × GoString)
split_default addr = if_local (str_eq addr (codes "127.0.0.1:8788"))
  where
    if_local : Bool → Option (GoString × GoString)
    if_local true = some (codes "127.0.0.1", codes "8788")
    if_local false = none

abbrev read_ip : GoString → Option Address
read_ip host =
    if str_eq host (codes "127.0.0.1")
    then some (record { is_loopback = true; is_unspecified = false })
    else if str_eq host (codes "192.168.1.7")
    then some (record { is_loopback = false; is_unspecified = false })
    else none

abbrev default_config : Config
default_config = record {
  version = pos 1;
  vault_root = codes "/srv/vault";
  listen = codes "127.0.0.1:8788";
  sources = [];
  pool_mode = codes "none";
  preferences = record {
    upload_folder = codes "Phone Uploads";
    upload_expiry_minutes = pos 10;
    download_expiry_minutes = pos 10;
    download_max_count = pos 1;
  };
  auto_off_minutes = pos 15;
  allow_non_loopback_listen = false;
  host = codes "192.168.1.7";
  port = pos 0;
}

-- The configuration is valid.
accepted : validate split_default read_ip default_config ≡ []
unfolding validate is_abs_clean validate_listen check_sources clean push_components join_slash split
    has_prefix str_eq
accepted = refl
