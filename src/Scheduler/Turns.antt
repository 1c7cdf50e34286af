-- ===== src/Scheduler/Turns.antt =====
-- What a task that goes on changes: its permit, the events that are left for it, and what it has printed.
use mathlib.Core.List.{Perm, perm_append_comm}
use mathlib.Core.List.Perm
use rnmap.Base.{
  ℕ, zero, suc, ◌+◌, ◌≡◌, refl, sym, ap, List, [], ◌∷◌, ◌++◌, append_assoc, append-nil, Option,
  none, some, All, arith,
}
use rnmap.Text.{Text}
use rnmap.Scheduler.{
  Task, running, told, ended, Turn, Turned, count_running, in_place, in_front, turn_at, tell,
  finish,
}

module _ {R : Type 0} where
  abbrev pub port_of : Task R → ℕ
  port_of (running port) = port
  port_of (told port) = port
  port_of (ended port r) = port

  abbrev pub ports_of : List (Task R) → List ℕ
  ports_of [] = []
  ports_of (t ∷ ts) = port_of t ∷ ports_of ts

  -- How many events are left for a task.
  abbrev pub left_for : Task R → ℕ
  left_for (running port) = 2
  left_for (told port) = 1
  left_for (ended port r) = 0

  abbrev pub left_for_all : List (Task R) → ℕ
  left_for_all [] = 0
  left_for_all (t ∷ ts) = left_for t + left_for_all ts

  pub ports_of-append : (ts us : List (Task R)) → ports_of (ts ++ us) ≡ ports_of ts ++ ports_of us
  ports_of-append [] us = refl
  ports_of-append (t ∷ ts) us = ap (λ ps. port_of t ∷ ps) (ports_of-append ts us)

  pub left_for_all-append :
      (ts us : List (Task R)) → left_for_all (ts ++ us) ≡ left_for_all ts + left_for_all us
  left_for_all-append [] us = omega arith
  left_for_all-append (t ∷ ts) us = omega (arith, left_for_all-append ts us)

  pub count_running-append :
      (ts us : List (Task R)) → count_running (ts ++ us) ≡ count_running ts + count_running us
  unfolding count_running
  count_running-append [] us = omega arith
  count_running-append (running p ∷ ts) us = omega (arith, count_running-append ts us)
  count_running-append (told p ∷ ts) us = omega (arith, count_running-append ts us)
  count_running-append (ended p r ∷ ts) us = count_running-append ts us

  -- How many permits a task holds.
  abbrev pub holds : Task R → ℕ
  holds t = count_running (t ∷ [])

  count_running-∷ :
      (t : Task R) (ts : List (Task R)) → count_running (t ∷ ts) ≡ holds t + count_running ts
  count_running-∷ t ts = count_running-append (t ∷ []) ts

Perm-append_left_comm :
    {A : Type 0} (xs ys zs : List A) → Perm (xs ++ (ys ++ zs)) (ys ++ (xs ++ zs))
Perm-append_left_comm xs ys zs =
    rw (sym (append_assoc xs ys zs), sym (append_assoc ys xs zs))
      (Perm.append_right zs (perm_append_comm xs ys))

module _ {R : Type 0} (task : ℕ → Option R) (say : ℕ → List Text) where
  -- A task has ended with the result that its port has.
  abbrev pub IsHonest : Task R → Type 0
  IsHonest (running port) = Unit
  IsHonest (told port) = Unit
  IsHonest (ended port r) = r ≡ task port

  -- The lines that a task has printed.
  abbrev pub said_by : Task R → List Text
  said_by (running port) = []
  said_by (told port) = say port
  said_by (ended port r) = say port

  abbrev pub said : List (Task R) → List Text
  said [] = []
  said (t ∷ ts) = said_by t ++ said ts

  pub said-append : (ts us : List (Task R)) → said (ts ++ us) ≡ said ts ++ said us
  said-append [] us = refl
  said-append (t ∷ ts) us =
      rw (said-append ts us) (sym (append_assoc (said_by t) (said ts) (said us)))

  -- A task goes on: it gives back so many permits, and one event less is left for it.
  pub record IsTurn (given : ℕ) (t u : Task R) (printed : List Text) : Type 0 where
    pub returned : holds t ≡ given + holds u
    pub went_on : left_for t ≡ suc (left_for u)
    pub same_port : port_of u ≡ port_of t
    pub still_honest : IsHonest u
    pub prints : said_by u ≡ printed ++ said_by t

  -- The same of one among the handles.
  pub record AreTurned (given : ℕ) (ts us : List (Task R)) (printed : List Text) : Type 0 where
    pub returned : count_running ts ≡ given + count_running us
    pub went_on : left_for_all ts ≡ suc (left_for_all us)
    pub same_ports : ports_of us ≡ ports_of ts
    pub still_honest : All IsHonest ts → All IsHonest us
    pub prints : Perm (printed ++ said ts) (said us)

  -- What an event that is possible keeps, or nothing for one that is not.
  abbrev Turns : ℕ → Task R → Turn R → Type 0
  Turns given t none = Unit
  Turns given t (some (u, printed)) = IsTurn given t u printed

  abbrev pub TurnsAll : ℕ → List (Task R) → Turned R → Type 0
  TurnsAll given ts none = Unit
  TurnsAll given ts (some (us, printed)) = AreTurned given ts us printed

  pub tell-Turns : (t : Task R) → Turns 0 t (tell say t)
  unfolding tell count_running
  tell-Turns (running p) = record {
    returned = refl;
    went_on = refl;
    same_port = refl;
    still_honest = tt;
    prints = sym (append-nil (say p));
  }
  tell-Turns (told p) = tt
  tell-Turns (ended p r) = tt

  pub finish-Turns : (t : Task R) → Turns 1 t (finish task t)
  unfolding finish count_running
  finish-Turns (running p) = tt
  finish-Turns (told p) = record {
    returned = refl;
    went_on = refl;
    same_port = refl;
    still_honest = refl;
    prints = refl;
  }
  finish-Turns (ended p r) = tt

  in_place-TurnsAll :
      (given : ℕ) (t : Task R) (ts : List (Task R)) (o : Turn R)
      → Turns given t o
      → TurnsAll given (t ∷ ts) (in_place ts o)
  in_place-TurnsAll given t ts none h = tt
  in_place-TurnsAll given t ts (some (u, printed)) h = record {
    returned = omega (arith, h.returned, count_running-∷ t ts, count_running-∷ u ts);
    went_on = omega (arith, h.went_on);
    same_ports = ap (λ p. p ∷ ports_of ts) h.same_port;
    still_honest = λ honest. (h.still_honest, honest.1);
    prints = rw (h.prints, append_assoc) (Perm.refl _);
  }

  in_front-TurnsAll :
      (given : ℕ) (t : Task R) (ts : List (Task R)) (o : Turned R)
      → TurnsAll given ts o
      → TurnsAll given (t ∷ ts) (in_front t o)
  in_front-TurnsAll given t ts none h = tt
  in_front-TurnsAll given t ts (some (us, printed)) h = record {
    returned = omega (arith, h.returned, count_running-∷ t ts, count_running-∷ t us);
    went_on = omega (arith, h.went_on);
    same_ports = ap (λ ps. port_of t ∷ ps) h.same_ports;
    still_honest = λ honest. (honest.0, h.still_honest honest.1);
    prints =
        Perm.trans (Perm-append_left_comm printed (said_by t) (said ts))
          (Perm.append_left (said_by t) h.prints);
  }

  pub turn_at-TurnsAll :
      (given : ℕ) (turn : Task R → Turn R) (i : ℕ) (ts : List (Task R))
      → ((t : Task R) → Turns given t (turn t))
      → TurnsAll given ts (turn_at turn i ts)
  unfolding turn_at
  turn_at-TurnsAll given turn i [] h = tt
  turn_at-TurnsAll given turn zero (t ∷ ts) h = in_place-TurnsAll given t ts (turn t) (h t)
  turn_at-TurnsAll given turn (suc i) (t ∷ ts) h =
      in_front-TurnsAll given t ts (turn_at turn i ts) (turn_at-TurnsAll given turn i ts h)
