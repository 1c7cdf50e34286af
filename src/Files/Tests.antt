-- ===== src/Files/Tests.antt =====
-- Paths with their extension replaced, and the files of `-oA scan.v1`.
use rnmap.Base.{◌≡◌, refl}
use rnmap.Text.{codes}
use rnmap.Text.Split.{split}
use rnmap.Files.{with_extension}

in_directory : with_extension (codes "out.d/scan/./") (codes "xml") ≡ codes "out.d/scan.xml"
unfolding with_extension split
in_directory = refl

parent_kept : with_extension (codes "out/..") (codes "xml") ≡ codes "out/.."
unfolding with_extension split
parent_kept = refl

hidden : with_extension (codes ".scan") (codes "xml") ≡ codes ".scan.xml"
unfolding with_extension split
hidden = refl
