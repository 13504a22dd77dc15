-- ===== src/Bridge/WholeTests.antt =====
-- A file with one group that is polled, and the theorem at it.
use factory_thing.CString.Defs.{lit}
use factory_thing.Config.Defs.{Configuration}
use factory_thing.Config.LoadsTests.{stated_configuration}

abbrev c : Configuration
c = record stated_configuration { config_file = lit "/etc/c.json"; config_folder = lit "/opt" }
