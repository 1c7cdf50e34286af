-- ===== src/Files/Basename.antt =====
-- What `-oA` makes of a basename that has a dot.
use rnmap.Text.{Text}
use rnmap.Cli.{Cli}
