-- ===== src/Spinlock/Threads/Taken.antt =====
-- For which jobs the lock of include/pipepp/core/spinlock.hpp has been taken, and in which order.
use pipepp_core.Prelude.{
  ℕ, zero, suc, ◌≡◌, refl, sym, ap, ◌∙◌, subst, Option, none, some, List, [], ◌∷◌, ◌++◌, arith,
  length, get_elem?, set, map, length-set,
}
use pipepp_core.Spinlock.Threads.{
  Action, Section, Thread, waiting, inside, System, Move, acquires, acts, releases, moves, spins,
  Reach, here, next, after,
}
use pipepp_core.Spinlock.Threads.Serial.{start}

-- `Takes queues order rest`: jobs taken from the fronts of the queues, in this order, leave the rest.
pub data Takes {J : Type 0} (queues : List (List J)) : List J → List (List J) → Type 0 where
  nothing : Takes queues [] queues
  takes :
      {order : List J} {rest : List (List J)} (i : ℕ) (job : J) (jobs : List J)
      → Takes queues order rest
      → get_elem? rest i ≡ some (job ∷ jobs)
      → Takes queues (order ++ job ∷ []) (set rest i jobs)

module _ {A B : Type 0} (f : A → B) where
  map-set : (xs : List A) (i : ℕ) (x : A) → map f (set xs i x) ≡ set (map f xs) i (f x)
  map-set [] i x = refl
  map-set (y ∷ xs) zero x = refl
  map-set (y ∷ xs) (suc i) x = ap (◌∷◌ (f y)) (map-set xs i x)

  get_elem?-map :
      (xs : List A) (i : ℕ) (x : A) → get_elem? xs i ≡ some x → get_elem? (map f xs) i ≡ some (f x)
  get_elem?-map [] i x h = cc
  get_elem?-map (y ∷ xs) zero x h = let e : y ≡ x = ground arith in ap (λ z. some (f z)) e
  get_elem?-map (y ∷ xs) (suc i) x h = get_elem?-map xs i x h

  map-set_same :
      (xs : List A) (i : ℕ) (x y : A)
      → get_elem? xs i ≡ some x
      → f y ≡ f x
      → map f (set xs i y) ≡ map f xs
  map-set_same [] i x y h e = refl
  map-set_same (z ∷ xs) zero x y h e =
      let k : z ≡ x = ground arith in ap (λ v. v ∷ map f xs) (e ∙ ap f (sym k))
  map-set_same (z ∷ xs) (suc i) x y h e = ap (◌∷◌ (f z)) (map-set_same xs i x y h e)

module _ {J M V : Type 0} where
  -- The jobs for which a thread has not taken the lock.
  abbrev pub remaining : Thread J M V → List J
  remaining (waiting jobs) = jobs
  remaining (inside m rest jobs) = jobs

  -- No thread has anything left to do.
  abbrev pub Finished : List (Thread J M V) → Type 0
  Finished [] = Unit {0}
  Finished (waiting [] ∷ ts) = Finished ts
  Finished (_ ∷ ts) = ⊥

  remaining-after :
      (o : Option M) (m : M) (rest : List (Action M V)) (jobs : List J)
      → remaining (after o m rest jobs) ≡ jobs
  remaining-after none m rest jobs = refl
  remaining-after (some m') m rest jobs = refl

module _ {J : Type 0} (M V : Type 0) where
  remaining-start :
      (queues : List (List J)) → map (remaining {M = M} {V = V}) (map waiting queues) ≡ queues
  remaining-start [] = refl
  remaining-start (q ∷ queues) = ap (◌∷◌ q) (remaining-start queues)

module _ {J : Type 0} where
  pub Takes-length :
      {queues rest : List (List J)} {order : List J}
      → Takes queues order rest
      → length rest ≡ length queues
  Takes-length nothing = refl
  Takes-length (takes {rest = rest} i job jobs h at) = length-set rest i jobs ∙ Takes-length h

module _ {J M V : Type 0} (section : J → Section M V) where
  Move-Takes :
      (queues : List (List J)) (s t : System J M V)
      → Takes queues s.started (map remaining s.threads)
      → Move section s t
      → Takes queues t.started (map remaining t.threads)
  Move-Takes queues s _ h (acquires i job jobs at free) =
      subst (λ rest. Takes queues (s.started ++ job ∷ []) rest)
        (sym (map-set remaining s.threads i _))
        (takes i job jobs h (get_elem?-map remaining s.threads i _ at))
  Move-Takes queues s _ h (acts i m a rest jobs at) =
      subst (Takes queues s.started)
        (sym (
          map-set_same remaining s.threads i _ _ at (remaining-after (a m s.shared).0 m rest jobs)))
        h
  Move-Takes queues s _ h (releases i m jobs at) =
      subst (Takes queues s.started) (sym (map-set_same remaining s.threads i _ _ at refl)) h

  pub Reach-Takes :
      (queues : List (List J)) (v : V) (s : System J M V)
      → Reach section (start section queues v) s
      → Takes queues s.started (map remaining s.threads)
  Reach-Takes queues v _ here = subst (Takes queues []) (sym (remaining-start M V queues)) nothing
  Reach-Takes queues v s (next r (moves m)) = Move-Takes queues _ s (Reach-Takes queues v _ r) m
  Reach-Takes queues v _ (next r (spins i job jobs at taken)) = Reach-Takes queues v _ r
