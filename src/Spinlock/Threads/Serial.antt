-- ===== src/Spinlock/Threads/Serial.antt =====
-- The order of the sections that threads run under the lock of include/pipepp/core/spinlock.hpp.
use pipepp_core.Prelude.{
  ℕ, zero, suc, ◌<◌, ◌≡◌, ◌≢◌, refl, sym, ap, ◌∙◌, ◌⊎◌, inl, inr, true, false, Option, none, some,
  List, [], ◌∷◌, ◌++◌, arith, length, get_elem?, set, get_elem?-set_self, get_elem?-set_ne,
  Bool-cases, Option-cases, ◌==◌, subst, map,
}
use pipepp_core.Spinlock.{unlocked}
use pipepp_core.Spinlock.Threads.{
  Action, Section, Thread, waiting, inside, System, Move, acquires, acts, releases, Step, moves,
  spins, Reach, here, next, run_actions, run_sections, NoneInside, OnlyInside,
}

pub in_bounds : {A : Type 0} (xs : List A) (i : ℕ) (v : A) → get_elem? xs i ≡ some v → i < length xs
in_bounds [] i v h = cc
in_bounds (x ∷ xs) zero v h = omega arith
in_bounds (x ∷ xs) (suc i) v h = omega (arith, in_bounds xs i v h)

module _ {J M V : Type 0} (section : J → Section M V) where
  run_sections-append :
      (jobs : List J) (job : J) (v : V)
      → run_sections section (jobs ++ job ∷ []) v
        ≡ run_actions (section job).actions (section job).msg (run_sections section jobs v)
  run_sections-append [] job v = refl
  run_sections-append (j ∷ jobs) job v = run_sections-append jobs job _

  -- The lock is free, nobody is inside, and what is shared is what the sections so far make of it
  -- one after the other; or the lock is taken, one thread is inside, and once it has run the rest of
  -- its section this holds.
  abbrev pub Free : V → System J M V → Type 0
  Free v s =
      (s.lock.locked ≡ false) × NoneInside s.threads × (s.shared ≡ run_sections section s.started v)

  pub record Held (v : V) (s : System J M V) : Type 0 where
    pub thread : ℕ
    pub msg : M
    pub rest : List (Action M V)
    pub jobs : List J
    pub taken : s.lock.locked ≡ true
    pub is_inside : get_elem? s.threads thread ≡ some (inside msg rest jobs)
    pub alone : OnlyInside thread s.threads
    pub settles : run_actions rest msg s.shared ≡ run_sections section s.started v

  abbrev pub Serial : V → System J M V → Type 0
  Serial v s = Free v s ⊎ Held v s

  -- Putting a thread at `i` where no other is inside.
  OnlyInside-set :
      (ts : List (Thread J M V)) (i : ℕ) (t : Thread J M V)
      → OnlyInside i ts
      → OnlyInside i (set ts i t)
  OnlyInside-set ts i t only j m rest jobs h = elim (Bool-cases (i == j)) [
    | inl e ↦ ground arith
    | inr e ↦
        let apart : i ≢ j = λ k. ground arith in
        only j m rest jobs (sym (get_elem?-set_ne ts i j t apart) ∙ h)
  ]

  NoneInside-set :
      (ts : List (Thread J M V)) (i : ℕ) (jobs : List J)
      → i < length ts
      → OnlyInside i ts
      → NoneInside (set ts i (waiting jobs))
  NoneInside-set ts i jobs room only j m rest jobs' h =
      let same : j ≡ i = OnlyInside-set ts i (waiting jobs) only j m rest jobs' h in
      let k : get_elem? (set ts i (waiting jobs)) i ≡ some (inside m rest jobs') =
        ap (get_elem? (set ts i (waiting jobs))) (sym same) ∙ h in
      let l = get_elem?-set_self ts i (waiting jobs) room in cc

  -- Only the thread inside can act or release.
  holder :
      {v : V} {s : System J M V} (i : ℕ) (m : M) (rest : List (Action M V)) (jobs : List J)
      → Serial v s
      → get_elem? s.threads i ≡ some (inside m rest jobs)
      → (s.lock.locked ≡ true)
        × OnlyInside i s.threads
        × (run_actions rest m s.shared ≡ run_sections section s.started v)
  holder i m rest jobs (inl (_, nobody, _)) h = absurd (nobody i m rest jobs h)
  holder {v} {s} i m rest jobs (inr held) h =
      let same : i ≡ held.thread = held.alone i m rest jobs h in
      let k : some (inside held.msg held.rest held.jobs) ≡ some (inside m rest jobs) =
        sym held.is_inside ∙ (ap (get_elem? s.threads) (sym same) ∙ h) in
      let rests : held.rest ≡ rest = cc in
      let msgs : held.msg ≡ m = cc in
      (
        held.taken,
        subst (λ j. OnlyInside j s.threads) (sym same) held.alone,
        ap (λ x. run_actions x m s.shared) (sym rests)
            ∙ (ap (λ x. run_actions held.rest x s.shared) (sym msgs) ∙ held.settles),
      )

  pub Move-Serial : (v : V) (s t : System J M V) → Serial v s → Move section s t → Serial v t
  Move-Serial v s _ (inr held) (acquires i job jobs at free) = let k = held.taken in cc
  Move-Serial v s _ (inl (_, nobody, so_far)) (acquires i job jobs at free) = inr (record {
    thread = i;
    msg = (section job).msg;
    rest = (section job).actions;
    jobs = jobs;
    taken = refl;
    is_inside = get_elem?-set_self s.threads i _ (in_bounds s.threads i _ at);
    alone = OnlyInside-set s.threads i _ (λ j m rest js h. absurd (nobody j m rest js h));
    settles =
        ap (run_actions (section job).actions (section job).msg) so_far
        ∙ sym (run_sections-append s.started job v);
  })
  Move-Serial v s _ h (acts i m a rest jobs at) =
      let (taken, only, settles) = holder i m (a ∷ rest) jobs h at in
      let room = in_bounds s.threads i _ at in
      let proceed : Option M → V = λ kept. elim kept [
        | none ↦ (a m s.shared).1
        | some m' ↦ run_actions rest m' (a m s.shared).1
      ] in
      elim (Option-cases (a m s.shared).0) [
        | inl e ↦ inr (record {
          thread = i;
          msg = m;
          rest = [];
          jobs = jobs;
          taken = taken;
          is_inside = get_elem?-set_self s.threads i _ room ∙ rw e refl;
          alone = OnlyInside-set s.threads i _ only;
          settles = ap proceed (sym e) ∙ settles;
        })
        | inr (m', e) ↦ inr (record {
          thread = i;
          msg = m';
          rest = rest;
          jobs = jobs;
          taken = taken;
          is_inside = get_elem?-set_self s.threads i _ room ∙ rw e refl;
          alone = OnlyInside-set s.threads i _ only;
          settles = ap proceed (sym e) ∙ settles;
        })
      ]
  Move-Serial v s _ h (releases i m jobs at) =
      let (_, only, settles) = holder i m [] jobs h at in
      inl (refl, NoneInside-set s.threads i jobs (in_bounds s.threads i _ at) only, settles)

  pub Step-Serial : (v : V) (s t : System J M V) → Serial v s → Step section s t → Serial v t
  Step-Serial v s t h (moves m) = Move-Serial v s t h m
  Step-Serial v s _ (inl (free, _, _)) (spins i job jobs at taken) = cc
  Step-Serial v s _ (inr held) (spins i job jobs at taken) = inr (record {
    thread = held.thread;
    msg = held.msg;
    rest = held.rest;
    jobs = held.jobs;
    taken = refl;
    is_inside = held.is_inside;
    alone = held.alone;
    settles = held.settles;
  })

  pub Reach-Serial : (v : V) (s t : System J M V) → Serial v s → Reach section s t → Serial v t
  Reach-Serial v s _ h here = h
  Reach-Serial v s t h (next {t = u} r st) = Step-Serial v u t (Reach-Serial v s u h r) st

  -- All threads before their first section, and the lock free.
  abbrev pub start : List (List J) → V → System J M V
  start jobs v = record { lock = unlocked; threads = map waiting jobs; shared = v; started = [] }

  waiting-NoneInside : (jobs : List (List J)) → NoneInside {M = M} {V = V} (map waiting jobs)
  waiting-NoneInside [] j m rest js h = cc
  waiting-NoneInside (job ∷ jobs) zero m rest js h = cc
  waiting-NoneInside (job ∷ jobs) (suc j) m rest js h = waiting-NoneInside jobs j m rest js h

  pub start-Serial : (jobs : List (List J)) (v : V) → Serial v (start jobs v)
  start-Serial jobs v = inl (refl, waiting-NoneInside jobs, refl)

  -- In every state that threads reach from a start, two threads that are inside are the same.
  pub mutual_exclusion :
      (jobs : List (List J)) (v : V) (s : System J M V) (i j : ℕ) (m n : M)
      (xs ys : List (Action M V)) (is js : List J)
      → Reach section (start jobs v) s
      → get_elem? s.threads i ≡ some (inside m xs is)
      → get_elem? s.threads j ≡ some (inside n ys js)
      → i ≡ j
  mutual_exclusion jobs v s i j m n xs ys is js r h k =
      let (_, only, _) =
        holder j n ys js (Reach-Serial v (start jobs v) s (start-Serial jobs v) r) k in
      only i m xs is h

  -- In every state that threads reach from a start and in which the lock is free, what they share is
  -- what the sections make of it that run alone, one after the other, in the order in which the lock
  -- was taken.
  pub serialised :
      (jobs : List (List J)) (v : V) (s : System J M V)
      → Reach section (start jobs v) s
      → s.lock.locked ≡ false
      → s.shared ≡ run_sections section s.started v
  serialised jobs v s r free = elim (Reach-Serial v (start jobs v) s (start-Serial jobs v) r) [
    | inl (_, _, so_far) ↦ so_far
    | inr held ↦ let k = held.taken in cc
  ]

  -- A thread that is not through with its sections.
  abbrev pub HasWork : Thread J M V → Type 0
  HasWork (waiting []) = ⊥
  HasWork _ = Unit {0}

  holder_moves :
      (s : System J M V) (i : ℕ) (m : M) (rest : List (Action M V)) (jobs : List J)
      → get_elem? s.threads i ≡ some (inside m rest jobs)
      → (t : System J M V) × Move section s t
  holder_moves s i m [] jobs h = (_, releases i m jobs h)
  holder_moves s i m (a ∷ rest) jobs h = (_, acts i m a rest jobs h)

  pub Serial-progress :
      (v : V) (s : System J M V) (i : ℕ) (t : Thread J M V)
      → Serial v s
      → get_elem? s.threads i ≡ some t
      → HasWork t
      → (s' : System J M V) × Move section s s'
  Serial-progress v s i t (inr held) h work =
      holder_moves s held.thread held.msg held.rest held.jobs held.is_inside
  Serial-progress v s i (waiting []) (inl free) h work = elim work [ ]
  Serial-progress v s i (waiting (job ∷ jobs)) (inl free) h work = (_, acquires i job jobs h free.0)
  Serial-progress v s i (inside m rest jobs) (inl free) h work = absurd (free.1 i m rest jobs h)

  -- No deadlock: in every state that threads reach from a start, while some thread is not through
  -- with its sections, some thread can take a step that is not a vain exchange.
  pub progress :
      (jobs : List (List J)) (v : V) (s : System J M V) (i : ℕ) (t : Thread J M V)
      → Reach section (start jobs v) s
      → get_elem? s.threads i ≡ some t
      → HasWork t
      → (s' : System J M V) × Move section s s'
  progress jobs v s i t r =
      Serial-progress v s i t (Reach-Serial v (start jobs v) s (start-Serial jobs v) r)
