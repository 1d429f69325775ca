-- ===== src/Pipeline/Run/Calls.antt =====
-- Calls of two pipelines of include/pipepp/core/pipeline.hpp that one thread makes, one after the
-- other.
use pipepp_core.Prelude.{Bool, List, [], ◌∷◌}
use pipepp_core.Exec.{Exec, done, ◌>>=◌, Gives, done-Gives, >>=-Gives_of}
use pipepp_core.Message.{MessageView}
use pipepp_core.Source.{BusSource}
use pipepp_core.Pipeline.{Pipeline, BuildStep, build_step, stop, move_pipeline, assign_pipeline}
use pipepp_core.Pipeline.Emit.{emit}
use pipepp_core.Pipeline.Run.{run, poll_once}
use pipepp_core.Pipeline.Run.Keeps.{After}

-- A public call of a pipeline; `changes` is what a caller does to the source by `source()`.
pub data Call (S W : Type 0) : Type 0 where
  builds : BuildStep S W → Call S W
  emits : MessageView → Call S W
  polls : Call S W
  runs : List Bool → Call S W
  stops : Call S W
  changes : S → Call S W

-- A call of the first or of the second of two pipelines; the construction of one of them anew, by a
-- move of the other; or a move assignment of one to the other.
pub data PairCall (S W : Type 0) : Type 0 where
  on_first : Call S W → PairCall S W
  on_second : Call S W → PairCall S W
  first_from_second : PairCall S W
  second_from_first : PairCall S W
  first_takes_second : PairCall S W
  second_takes_first : PairCall S W

module _ {S W : Type 0} (bus : BusSource S) where
  abbrev pub call : Pipeline S W → W → Call S W → Exec (Pipeline S W × W)
  call p w (builds b) = done (build_step p b, w)
  call p w (emits mv) = emit p w mv
  call p w polls = poll_once bus p w >>= λ (polled, q, w'). done (q, w')
  call p w (runs schedule) = run bus schedule p w >>= λ (r, q, w'). done (q, w')
  call p w stops = done (stop p, w)
  call p w (changes src) = done (record p { source = src }, w)

  abbrev pub pair_call :
      Pipeline S W → Pipeline S W → W → PairCall S W → Exec (Pipeline S W × Pipeline S W × W)
  pair_call p q w (on_first c) = call p w c >>= λ (p', w'). done (p', q, w')
  pair_call p q w (on_second c) = call q w c >>= λ (q', w'). done (p, q', w')
  pair_call p q w first_from_second = move_pipeline q >>= λ (p', q'). done (p', q', w)
  pair_call p q w second_from_first = move_pipeline p >>= λ (q', p'). done (p', q', w)
  pair_call p q w first_takes_second = assign_pipeline p q >>= λ (p', q'). done (p', q', w)
  pair_call p q w second_takes_first = assign_pipeline q p >>= λ (q', p'). done (p', q', w)

  abbrev pub pair_calls :
      Pipeline S W → Pipeline S W → W → List (PairCall S W) → Exec (Pipeline S W × Pipeline S W × W)
  pair_calls p q w [] = done (p, q, w)
  pair_calls p q w (c ∷ cs) = pair_call p q w c >>= λ (p', q', w'). pair_calls p' q' w' cs

module _ {S W : Type 0} (bus : BusSource S) (P : Pipeline S W → Type 0) where
  -- The property holds of both pipelines.
  abbrev pub Both : Pipeline S W × Pipeline S W → Type 0
  Both (p, q) = P p × P q

  abbrev pub BothAfter : Pipeline S W × Pipeline S W × W → Type 0
  BothAfter end = P end.0 × P end.1

  -- What a property has to keep to hold behind any calls.
  pub record CallLaws : Type 0 where
    pub call_keeps :
        (p : Pipeline S W) (w : W) (c : Call S W) → P p → Gives (After bus P) (call bus p w c)
    pub move_keeps : (p : Pipeline S W) → P p → Gives Both (move_pipeline p)
    pub assign_keeps : (p q : Pipeline S W) → P p → P q → Gives Both (assign_pipeline p q)

  module _ (laws : CallLaws) where
    pair_call-BothAfter :
        (p q : Pipeline S W) (w : W) (c : PairCall S W)
        → P p
        → P q
        → Gives BothAfter (pair_call bus p q w c)
    pair_call-BothAfter p q w (on_first c) h k =
        >>=-Gives_of (After bus P) BothAfter _ _ (laws.call_keeps p w c h)
          λ end e. done-Gives BothAfter (e, k)
    pair_call-BothAfter p q w (on_second c) h k =
        >>=-Gives_of (After bus P) BothAfter _ _ (laws.call_keeps q w c k)
          λ end e. done-Gives BothAfter (h, e)
    pair_call-BothAfter p q w first_from_second h k =
        >>=-Gives_of Both BothAfter _ _ (laws.move_keeps q k) λ end e. done-Gives BothAfter e
    pair_call-BothAfter p q w second_from_first h k =
        >>=-Gives_of Both BothAfter _ _ (laws.move_keeps p h)
          λ end e. done-Gives BothAfter (e.1, e.0)
    pair_call-BothAfter p q w first_takes_second h k =
        >>=-Gives_of Both BothAfter _ _ (laws.assign_keeps p q h k) λ end e. done-Gives BothAfter e
    pair_call-BothAfter p q w second_takes_first h k =
        >>=-Gives_of Both BothAfter _ _ (laws.assign_keeps q p k h)
          λ end e. done-Gives BothAfter (e.1, e.0)

    pub pair_calls-BothAfter :
        (cs : List (PairCall S W)) (p q : Pipeline S W) (w : W)
        → P p
        → P q
        → Gives BothAfter (pair_calls bus p q w cs)
    pair_calls-BothAfter [] p q w h k = done-Gives BothAfter (h, k)
    pair_calls-BothAfter (c ∷ cs) p q w h k =
        >>=-Gives_of BothAfter BothAfter _ _ (pair_call-BothAfter p q w c h k)
          λ (p', q', w') (e, e'). pair_calls-BothAfter cs p' q' w' e e'
