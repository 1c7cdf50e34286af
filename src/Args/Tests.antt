-- ===== src/Args/Tests.antt =====
-- The theorems on the rewriting of arguments.
use rnmap.Base.{[], ◌∷◌, ◌≡◌, refl, ok, map, All, List}
use mathlib.Core.List.{cons-ne-nil}
use rnmap.Text.{codes}
use rnmap.Args.{rewrite_nmap_args, is_flag, nmap_flags, single_dash}
use rnmap.Args.Flags.{
  Arg, flag, flag_with, kept, spell, meanings, IsArg, undashed, rewrite_nmap_args-meanings,
}

abbrev sample : List Arg
sample = flag (codes "sS") ∷ flag_with (codes "PS") (codes "22,80") ∷ kept (codes "10.0.0.5") ∷ []

sample-IsArg : All IsArg sample
unfolding is_flag nmap_flags single_dash
sample-IsArg = (refl, ((refl, cons-ne-nil b'2' (codes "2,80")), (undashed refl, tt)))

rewrite_nmap_args-meanings_example : rewrite_nmap_args (map spell sample) ≡ ok (meanings sample)
rewrite_nmap_args-meanings_example = rewrite_nmap_args-meanings sample sample-IsArg
