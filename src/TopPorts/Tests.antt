-- ===== src/TopPorts/Tests.antt =====
-- The theorems on the top ports at 3.
use rnmap.Base.{◌≡◌, [], take, max}
use rnmap.TopPorts.{top, top_n}
use rnmap.TopPorts.Distinct.{distinct, top_n-take}

top_n-take_example : top_n 3 ≡ take (max 3 1) (distinct top [])
top_n-take_example = top_n-take 3
