-- ===== src/Examples/Networks.antt =====
-- Runs of the theorems on networks of connected pipelines.
use pipepp_core.Prelude.{
  ℕ, zero, suc, ◌≤◌, ◌<◌, ◌⊎◌, ◌≡◌, refl, ap, sym, inl, inr, subst, true, take, some, none, [], ◌∷◌,
  length, get_elem?, arith,
}
use pipepp_core.Exec.{done, fault, deadlock, Ends}
use pipepp_core.Config.{embedded_config}
use pipepp_core.Pipeline.{make, set_sink}
use pipepp_core.Pipeline.Emit.{run_stages}
use pipepp_core.Message.{from_view}
use pipepp_core.Pipeline.Emit.Flow.{fits}
use pipepp_core.Pipeline.Run.Ends.{SinkReturns}
use pipepp_core.Spinlock.{unlocked, lock}
use pipepp_core.Network.{
  node_at, pass, connects, prefixes, target_of, Node, Network, Link, connect_to, connect_to_prefix,
  pipe_args, pipe_prefix_args, sink_into, emit_at, flood,
}
use pipepp_core.Network.Links.{LinkReturns, Closed, NodeReturns}
use pipepp_core.Network.Depth.{emit_at-Ends}
use pipepp_core.Network.Flood.{IsRanked, FreeBelow}
use pipepp_core.Network.Ranked.{emit_at-flood}
use pipepp_core.Network.Circles.{circle-deadlock}
use pipepp_core.Network.Relays.{Relays}
use pipepp_core.Network.Routes.{Leads, arriving, emit_arrived, emit_at-arriving}
use pipepp_core.Network.Threads.{System, Reach, start, idle, calling, here, next, moves, begins}
use pipepp_core.Network.Threads.Progress.{useful, work, Finished, all_finish}
use pipepp_core.Examples.Pipelines.{Toy, toy, count, greeting}

-- A pipeline that counts its messages, and two that are connected to it, one with a prefix.
abbrev bare : Node Toy ℕ
bare = record { own = make embedded_config toy; link = none }

abbrev counting : Node Toy ℕ
counting = sink_into bare count

abbrev fan_in : Network Toy ℕ
unfolding pipe_args pipe_prefix_args
fan_in =
    counting
    ∷ pipe_args bare (connect_to 0)
    ∷ pipe_prefix_args bare (connect_to_prefix 0 (b'a' ∷ []))
    ∷ []

-- Two pipelines that are connected to each other.
abbrev ring : Network Toy ℕ
unfolding pipe_args
ring = pipe_args bare (connect_to 1) ∷ pipe_args bare (connect_to 0) ∷ []

-- What holds of each of a few pipelines.
module _ (P : ℕ → Node Toy ℕ → Type 0) (a b : Node Toy ℕ) where
  each_of_two : P 0 a → P 1 b → (i : ℕ) (n : Node Toy ℕ) → get_elem? (a ∷ b ∷ []) i ≡ some n → P i n
  each_of_two p q zero n at = let e : a ≡ n = ground arith in subst (P 0) e p
  each_of_two p q (suc zero) n at = let e : b ≡ n = ground arith in subst (P 1) e q
  each_of_two p q (suc (suc i)) n at = cc

  each_of_three :
      (c : Node Toy ℕ)
      → P 0 a
      → P 1 b
      → P 2 c
      → (i : ℕ) (n : Node Toy ℕ) → get_elem? (a ∷ b ∷ c ∷ []) i ≡ some n
      → P i n
  each_of_three c p q r zero n at = let e : a ≡ n = ground arith in subst (P 0) e p
  each_of_three c p q r (suc zero) n at = let e : b ≡ n = ground arith in subst (P 1) e q
  each_of_three c p q r (suc (suc zero)) n at = let e : c ≡ n = ground arith in subst (P 2) e r
  each_of_three c p q r (suc (suc (suc i))) n at = cc

-- A pipeline without stages whose link and sink return.
returning :
    (n : Node Toy ℕ)
    → n.own.stage_count ≡ 0
    → SinkReturns n.own.sink
    → LinkReturns n.link
    → NodeReturns n
returning n e h k = record {
  functions = [];
  holds = record { front = ap (λ m. take m n.own.stages) e; counted = sym e };
  stages_return = tt;
  sink_returns = h;
  link_returns = k;
}

-- The target of a link of `n`, if it has one, is below `bound`.
abbrev TargetBelow : ℕ → Node Toy ℕ → Type 0
TargetBelow bound n = (l : Link ℕ) → n.link ≡ some l → target_of l < bound

no_link : (bound : ℕ) (l : Link ℕ) → none ≡ some l → target_of l < bound
no_link bound l e = cc

link_to :
    (k : Link ℕ) (bound : ℕ)
    → target_of k < bound
    → (l : Link ℕ) → some k ≡ some l
    → target_of l < bound
link_to k bound h l e = let same : k ≡ l = ground arith in subst (λ x. target_of x < bound) same h

fan_in-Closed : Closed fan_in
unfolding fan_in pipe_args pipe_prefix_args set_sink
fan_in-Closed = record {
  returns =
      each_of_three (λ i n. NodeReturns n) _ _ _ (returning _ refl (λ mv w. (_, refl)) tt)
        (returning _ refl tt tt) (returning _ refl tt tt);
  stands = λ i n l at.
      each_of_three (λ i. TargetBelow 3) _ _ _ (no_link 3) (link_to (connects 0) 3 (omega arith))
        (link_to (prefixes 0 (b'a' ∷ [])) 3 (omega arith)) i n at l;
}

ring-Closed : Closed ring
unfolding ring pipe_args
ring-Closed = record {
  returns =
      each_of_two (λ i n. NodeReturns n) _ _ (returning _ refl tt tt) (returning _ refl tt tt);
  stands = λ i n l at.
      each_of_two (λ i. TargetBelow 2) _ _ (link_to (connects 1) 2 (omega arith))
        (link_to (connects 0) 2 (omega arith)) i n at l;
}

abbrev by_place : ℕ → ℕ
by_place i = i

fan_in-IsRanked : IsRanked by_place fan_in
unfolding fan_in pipe_args pipe_prefix_args set_sink
fan_in-IsRanked i n l at =
    each_of_three TargetBelow _ _ _ (no_link 0) (link_to (connects 0) 1 (omega arith))
      (link_to (prefixes 0 (b'a' ∷ [])) 2 (omega arith)) i n at l

fan_in-free : FreeBelow by_place 3 fan_in
unfolding fan_in pipe_args pipe_prefix_args set_sink
fan_in-free i n at low =
    each_of_three (λ i n. n.own.stage_lock ≡ unlocked) _ _ _ refl refl refl i n at

emit_at-Ends_example :
    Ends (emit_at 3 ring 0 0 greeting) ⊎ (emit_at 3 ring 0 0 greeting ≡ fault deadlock)
unfolding ring
emit_at-Ends_example = emit_at-Ends 3 ring 0 0 greeting ring-Closed (omega arith) (omega arith)

emit_at-flood_example :
    (emit_at 3 fan_in 2 0 greeting ≡ flood 3 fan_in 2 0 greeting)
    × Ends (flood 3 fan_in 2 0 greeting)
unfolding fan_in
emit_at-flood_example =
    emit_at-flood by_place 3 fan_in 2 0 greeting fan_in-Closed fan_in-IsRanked fan_in-free
      (omega arith) (omega arith)

ring-inside : (j : ℕ) → j < 2 → j < length ring
unfolding ring pipe_args
ring-inside j h = h

ring-Relays :
    (j : ℕ) (n : Node Toy ℕ)
    → get_elem? ring j ≡ some n
    → j < 2
    → (fits n.own.config greeting ≡ true) × (k : ℕ) × Relays n k [] × (k < 2)
unfolding ring pipe_args
ring-Relays j n at h =
    each_of_two (λ i n. (fits n.own.config greeting ≡ true) × (k : ℕ) × Relays n k [] × (k < 2)) _ _
      (
        refl,
        1,
        record { plain = record { front = refl; counted = refl }; goes = inr (refl, refl) },
        omega arith,
      )
      (
        refl,
        0,
        record { plain = record { front = refl; counted = refl }; goes = inr (refl, refl) },
        omega arith,
      )
      j n at

circle-deadlock_example : emit_at 3 ring 0 0 greeting ≡ fault deadlock
unfolding ring pipe_args
circle-deadlock_example =
    circle-deadlock (λ j. j < 2) 3 ring 0 0 greeting ring-inside ring-Relays (omega arith)
      (omega arith)

-- Three threads, one for each pipeline; the last has begun.
abbrev begun : System
begun = record (start fan_in ((0 ∷ []) ∷ (1 ∷ []) ∷ (2 ∷ []) ∷ [])) {
  threads = idle (0 ∷ []) ∷ idle (1 ∷ []) ∷ calling 2 [] [] ∷ [];
}

begun-Reach : Reach fan_in (start fan_in ((0 ∷ []) ∷ (1 ∷ []) ∷ (2 ∷ []) ∷ [])) begun
begun-Reach = next here (moves (begins 2 2 [] refl))

all_finish_example :
    let first = start fan_in ((0 ∷ []) ∷ (1 ∷ []) ∷ (2 ∷ []) ∷ []) in
    (useful by_place fan_in fan_in-Closed fan_in-IsRanked begun-Reach ≤ work by_place first.threads)
    × (t : System) × Reach fan_in begun t
    × Finished t.threads
unfolding fan_in
all_finish_example =
    all_finish by_place fan_in fan_in-Closed fan_in-IsRanked ((0 ∷ []) ∷ (1 ∷ []) ∷ (2 ∷ []) ∷ [])
      begun begun-Reach (omega arith)

-- The message comes to the pipeline at 0, and nothing but the count is changed; in the ring it comes
-- back to a lock that is held.
counted :
    (emit_at 3 fan_in 2 0 greeting ≡ done (fan_in, 1))
    × (emit_at 3 ring 0 0 greeting ≡ fault deadlock)
unfolding fan_in ring emit_at node_at pass lock run_stages from_view pipe_args pipe_prefix_args
    set_sink
counted = (refl, refl)

-- From the pipeline with the prefix to the one that counts.
fan_in-Leads : Leads fan_in 2 ((0, b'a' ∷ []) ∷ []) 0
unfolding fan_in pipe_args pipe_prefix_args set_sink
fan_in-Leads =
    (_, refl, record { plain = record { front = refl; counted = refl }; goes = inl refl }, refl)

emit_at-arriving_example :
    emit_at 3 fan_in 2 0 greeting
    ≡ emit_arrived fan_in 3 0 0 (arriving fan_in 2 ((0, b'a' ∷ []) ∷ []) greeting)
unfolding fan_in
emit_at-arriving_example =
    emit_at-arriving by_place fan_in fan_in-Closed fan_in-IsRanked ((0, b'a' ∷ []) ∷ []) 3 2 0 0
      greeting fan_in-free (omega arith) (omega arith) fan_in-Leads
