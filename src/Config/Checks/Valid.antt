-- ===== src/Config/Checks/Valid.antt =====
-- internal/config/config.go: which configurations `Validate` accepts.
use omarchy_vault.Prelude.{
  ℕ, ◌≤◌, ◌≡◌, ◌≢◌, ◌⊎◌, GoString, codes, is_empty, Bool, true, false, Option, some, [], length,
  All, ok,
}
use omarchy_vault.Config.Folders.{validate_folder}
use omarchy_vault.Storage.Inspect.{Source}
use omarchy_vault.Config.Checks.{ℤ, pos, Config, Address, is_abs_clean, is_one_name}

-- A source with an absolute, clean path and an allowed folder.
abbrev pub IsSource : Source → Type 0
IsSource s = (is_abs_clean s.path ≡ true) × (validate_folder s.folder ≡ ok tt)

-- A number between two bounds.
abbrev pub IsWithin : ℕ → ℕ → ℤ → Type 0
IsWithin low high z = (n : ℕ) × (z ≡ pos n) × (low ≤ n) × (n ≤ high)

-- The mode of the pool says how many sources there are.
abbrev pub IsPool : GoString → ℕ → Type 0
IsPool mode n =
    ((mode ≡ codes "none") × (n ≡ 0))
    ⊎ ((mode ≡ codes "single") × (n ≡ 1))
    ⊎ ((mode ≡ codes "combined") × (2 ≤ n))

-- A loopback address.
abbrev pub IsThisComputer : Option Address → Type 0
IsThisComputer o = (ip : Address) × (o ≡ some ip) × (ip.is_loopback ≡ true)

-- An address that is neither a loopback address nor unspecified.
abbrev pub IsForPhones : Option Address → Type 0
IsForPhones o =
    (ip : Address) × (o ≡ some ip) × (ip.is_loopback ≡ false) × (ip.is_unspecified ≡ false)

module _ (split_host_port : GoString → Option (GoString × GoString))
    (parse_ip : GoString → Option Address) where
  -- The address has a port, and its host is this computer, unless any host is allowed.
  abbrev pub IsListen : GoString → Bool → Type 0
  IsListen addr anywhere =
      (host : GoString) × (port : GoString) × (split_host_port addr ≡ some (host, port))
      × (is_empty port ≡ false)
      × ((anywhere ≡ true) ⊎ (host ≡ codes "localhost") ⊎ IsThisComputer (parse_ip host))

  -- What `Validate` asks of a configuration.
  abbrev pub IsValid : Config → Type 0
  IsValid c =
      (c.version ≡ pos 1)
      × ((is_abs_clean c.vault_root ≡ true)
          × (((is_abs_clean c.vault_root ≡ false) ⊎ (c.vault_root ≢ codes "/"))
              × (IsListen c.listen c.allow_non_loopback_listen
                  × (All IsSource c.sources
                      × (IsPool c.pool_mode (length c.sources)
                          × ((is_one_name c.preferences.upload_folder ≡ true)
                              × (IsWithin 1 1440 c.preferences.upload_expiry_minutes
                                  × (IsWithin 1 1440 c.preferences.download_expiry_minutes
                                      × (IsWithin 0 65535 c.port
                                          × (((c.host ≡ []) ⊎ IsForPhones (parse_ip c.host))
                                              × (((c.auto_off_minutes ≡ pos 0)
                                                    ⊎ IsWithin 5 1440 c.auto_off_minutes)
                                                  × ((n : ℕ) × (c.preferences.download_max_count
                                                        ≡ pos n)))))))))))))
