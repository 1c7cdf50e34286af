-- ===== src/Report/Counts.antt =====
-- The counts of a report, and what the choice of the open ports leaves of them.
use rnmap.Base.{
  suc, ◌≤◌, ◌≡◌, refl, ap, Bool, List, [], ◌∷◌, ◌++◌, map, arith, retain, length, Bool-cases, inl,
  inr,
}
use rnmap.Report.{
  PortResult, is_open, is_up, HostResult, ScanReport, host_is_up, all_ports, host_count, up_count,
  open_port_count,
}

pub retain-append {ℓ} :
    {A : Type ℓ} (p : A → Bool) (xs ys : List A) → retain p (xs ++ ys) ≡ retain p xs ++ retain p ys
retain-append p [] ys = refl
retain-append p (x ∷ xs) ys = elim (Bool-cases (p x)) [
  | inl kept ↦ rw (kept, retain-append p xs ys) refl
  | inr dropped ↦ rw (dropped, retain-append p xs ys) refl
]

pub retain_idem {ℓ} :
    {A : Type ℓ} (p : A → Bool) (xs : List A) → retain p (retain p xs) ≡ retain p xs
retain_idem p [] = refl
retain_idem p (x ∷ xs) = elim (Bool-cases (p x)) [
  | inl kept ↦ rw kept (rw (kept, retain_idem p xs) refl)
  | inr dropped ↦ rw dropped (retain_idem p xs)
]

pub length-retain {ℓ} : {A : Type ℓ} (p : A → Bool) (xs : List A) → length (retain p xs) ≤ length xs
length-retain p [] = omega arith
length-retain p (x ∷ xs) = elim (Bool-cases (p x)) [
  | inl kept ↦ rw kept (omega (arith, length-retain p xs))
  | inr dropped ↦ rw dropped (omega (arith, length-retain p xs))
]

abbrev pub port_open : PortResult → Bool
port_open p = is_open p.state

module _ {Time : Type 0} where
  -- A host with its open ports only.
  abbrev pub only_open : HostResult Time → HostResult Time
  only_open h = record h { ports = retain port_open h.ports }

  length-map-only_open : (hs : List (HostResult Time)) → length (map only_open hs) ≡ length hs
  length-map-only_open [] = refl
  length-map-only_open (h ∷ hs) = ap suc (length-map-only_open hs)

  retain-up-only_open :
      (hs : List (HostResult Time))
      → length (retain host_is_up (map only_open hs)) ≡ length (retain host_is_up hs)
  retain-up-only_open [] = refl
  retain-up-only_open (h ∷ hs) = elim (Bool-cases (is_up h.state)) [
    | inl up ↦ rw up (ap suc (retain-up-only_open hs))
    | inr not_up ↦ rw not_up (retain-up-only_open hs)
  ]

  retain-open-only_open :
      (hs : List (HostResult Time))
      → retain port_open (all_ports (map only_open hs)) ≡ retain port_open (all_ports hs)
  retain-open-only_open [] = refl
  retain-open-only_open (h ∷ hs) =
      rw (retain-append port_open (retain port_open h.ports) (all_ports (map only_open hs))) (
        rw
          (
            retain_idem port_open h.ports,
            retain-append port_open h.ports (all_ports hs),
            retain-open-only_open hs,
          )
          refl)

  -- Leaving out the ports that are not open changes none of the report's three counts.
  pub counts-only_open :
      (r : ScanReport Time)
      → (host_count (record r { hosts = map only_open r.hosts }) ≡ host_count r)
        × (up_count (record r { hosts = map only_open r.hosts }) ≡ up_count r)
        × (open_port_count (record r { hosts = map only_open r.hosts }) ≡ open_port_count r)
  unfolding host_count up_count open_port_count
  counts-only_open r = (
    length-map-only_open r.hosts,
    retain-up-only_open r.hosts,
    ap length (retain-open-only_open r.hosts),
  )
