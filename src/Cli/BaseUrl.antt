-- ===== src/Cli/BaseUrl.antt =====
-- The server's address as the settings give it.
use rubber_duck.Prelude.{false, ◌++◌, ◌≡◌, Text, AllPass, last_passes, drop_tail-split}
use rubber_duck.Cli.{Config, setting_or, default_url, is_slash, strip_slashes, base_url}

-- The address is the configured one less its trailing slashes, all of them: only slashes are cut off,
-- and what is left ends in none.
base_url-split :
    (c : Config)
    → (slashes : Text) × (setting_or default_url c.base_url ≡ base_url c ++ slashes)
      × AllPass is_slash slashes
      × (last_passes is_slash (base_url c) ≡ false)
unfolding base_url strip_slashes
base_url-split c = drop_tail-split is_slash (setting_or default_url c.base_url)
