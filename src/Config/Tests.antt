-- ===== src/Config/Tests.antt =====
-- The configuration test of papago.c on the defaults and on a configuration without certificates.
use libpapago.Prelude.{◌≡◌, refl, true, false, some}
use libpapago.Config.{config_new, valid_config}

defaults : valid_config (some config_new) ≡ true
unfolding valid_config config_new
defaults = refl

no_certificate : valid_config (some (record config_new { enable_ssl = true })) ≡ false
unfolding valid_config config_new
no_certificate = refl
