-- ===== src/Pipeline.antt =====
-- include/pipepp/core/pipeline.hpp: the state of `basic_pipeline` and the calls that build it.
-- Its other calls are `Pipeline.Emit` and `Pipeline.Run`.
pub mod Emit
pub mod Run
pub mod Slots
pub mod Build
pub mod Closures
use pipepp_core.Prelude.{
  ℕ, ℤ, pos, suc, ◌+◌, Bool, true, false, Option, none, some, List, [], ◌∷◌, ltb, if◌then◌else◌,
  get_elem?, set, replicate,
}
use pipepp_core.ErrorCode.{ErrorCode, is_error}
use pipepp_core.Expected.{Result, ok, fail, has_value}
use pipepp_core.Config.{Config}
use pipepp_core.FixedString.{empty_string, checked_from}
use pipepp_core.Uri.Basic.{BasicUri, default_uri, parse_or_default, moved}
use pipepp_core.Source.{Subscription}
use pipepp_core.Exec.{Exec, done, ◌>>=◌}
use pipepp_core.Spinlock.{Spinlock, unlocked, move_lock, assign_lock}
use pipepp_core.Stages.{ConfigFn, ProcessFn, SinkFn}

-- `basic_pipeline<Source, Config>`, with the closures' world beside it. An empty slot of an array
-- of closures is `none`.
pub record Pipeline (S W : Type 0) : Type 0 where
  pub config : Config
  pub source : S
  pub owned_uri : BasicUri
  pub config_ops : List (Option (ConfigFn S W))
  pub config_count : ℕ
  pub stages : List (Option (ProcessFn W))
  pub stage_count : ℕ
  pub sink : Option (SinkFn W)
  pub subscriptions : List Subscription
  pub sub_count : ℕ
  pub running : Bool
  pub stage_lock : Spinlock
  pub pending_error : ErrorCode

-- `subscription{}`
abbrev pub no_subscription : Config → Subscription
no_subscription c = record { topic = empty_string c.max_topic_len; qos = pos 0 }

-- A slot of `subscriptions_`; the code never reads one behind the end.
abbrev pub subscription_at : Config → Option Subscription → Subscription
subscription_at c none = no_subscription c
subscription_at c (some s) = s

module _ {S W : Type 0} where
  -- The members' initialisers.
  abbrev pub fresh : Config → S → BasicUri → ErrorCode → Pipeline S W
  fresh c src uri pending = record {
    config = c;
    source = src;
    owned_uri = uri;
    config_ops = replicate c.max_config_ops none;
    config_count = 0;
    stages = replicate c.max_stages none;
    stage_count = 0;
    sink = none;
    subscriptions = replicate c.max_subscriptions (no_subscription c);
    sub_count = 0;
    running = false;
    stage_lock = unlocked;
    pending_error = pending;
  }

  -- `basic_pipeline(Source src)`
  abbrev pub make : Config → S → Pipeline S W
  make c src = fresh c src (default_uri c) ErrorCode.none

  -- `basic_pipeline(Source src, std::string_view uri_str)`; `addr` is the place of `owned_uri_`.
  unfoldable pub make_uri : Config → ℕ → S → List ℕ → Pipeline S W
  make_uri c addr src uri_str =
      let uri = parse_or_default c addr uri_str in
      fresh c src uri (if uri.truncated then ErrorCode.invalid_uri else ErrorCode.none)

  -- `subscribe`: the count goes up before the topic is checked.
  unfoldable pub subscribe : Pipeline S W → List ℕ → ℤ → Pipeline S W
  subscribe p topic qos =
      if ltb p.sub_count p.config.max_subscriptions
      then (let sub = subscription_at p.config (get_elem? p.subscriptions p.sub_count) in
          let r = checked_from p.config.max_topic_len sub.topic topic in
          if has_value r.0
          then record p {
            subscriptions = set p.subscriptions p.sub_count (record { topic = r.1; qos = qos });
            sub_count = suc p.sub_count;
          }
          else record p { sub_count = suc p.sub_count; pending_error = ErrorCode.buffer_overflow })
      else record p { pending_error = ErrorCode.capacity_exceeded }

  -- `configure`
  unfoldable pub configure : Pipeline S W → ConfigFn S W → Pipeline S W
  configure p f =
      if ltb p.config_count p.config.max_config_ops
      then record p {
        config_ops = set p.config_ops p.config_count (some f);
        config_count = suc p.config_count;
      }
      else record p { pending_error = ErrorCode.capacity_exceeded }

  -- `add_stage`
  unfoldable pub add_stage : Pipeline S W → ProcessFn W → Pipeline S W
  add_stage p f =
      if ltb p.stage_count p.config.max_stages
      then record p {
        stages = set p.stages p.stage_count (some f);
        stage_count = suc p.stage_count;
      }
      else record p { pending_error = ErrorCode.capacity_exceeded }

  -- `set_sink`
  unfoldable pub set_sink : Pipeline S W → SinkFn W → Pipeline S W
  set_sink p f = record p { sink = some f }

  -- `connect_uri`: the parsed URI is a temporary at `temp`, and is moved into the member.
  unfoldable pub connect_uri : Pipeline S W → ℕ → List ℕ → Pipeline S W
  unfolding moved
  connect_uri p temp uri_str =
      let uri = moved (parse_or_default p.config temp uri_str) in
      record p {
        owned_uri = uri;
        pending_error = if uri.truncated then ErrorCode.invalid_uri else p.pending_error;
      }

  -- `check`
  unfoldable pub check : Pipeline S W → Result
  check p = if is_error p.pending_error then fail p.pending_error else ok

  -- `stop`
  abbrev pub stop : Pipeline S W → Pipeline S W
  stop p = record p { running = false }

  -- `is_running`
  abbrev pub is_running : Pipeline S W → Bool
  is_running p = p.running

  -- The move constructor: what the new pipeline holds, and what is left in the old one. The arrays
  -- of closures are moved slot by slot, which empties the old slots; the counts are copied. What a
  -- move leaves of the old source is the source's affair, and is not looked at.
  abbrev pub move_into : Pipeline S W → Pipeline S W
  move_into other = record other {
    owned_uri = moved other.owned_uri;
    running = false;
    stage_lock = unlocked;
  }

  abbrev pub moved_from : Pipeline S W → Pipeline S W
  moved_from other = record other {
    config_ops = replicate other.config.max_config_ops none;
    stages = replicate other.config.max_stages none;
    sink = none;
    running = false;
  }

  -- The move assignment takes over the same and leaves the same, but for the old `running_`, which
  -- it does not reset. What becomes of the locks is told by `assign_pipeline`.
  abbrev pub assign_from : Pipeline S W → Pipeline S W
  assign_from other = move_into other

  abbrev pub assigned_from : Pipeline S W → Pipeline S W
  assigned_from other = record (moved_from other) { running = other.running }

module _ {S W : Type 0} where
  -- The move constructor, with the assertion that the old lock is free: the new pipeline, and the
  -- old one after it.
  unfoldable pub move_pipeline : Pipeline S W → Exec (Pipeline S W × Pipeline S W)
  unfolding move_lock
  move_pipeline other = move_lock other.stage_lock >>= λ l.
      done (record (move_into other) { stage_lock = l }, moved_from other)

  -- `operator=(basic_pipeline&& other)`, for two different objects
  unfoldable pub assign_pipeline : Pipeline S W → Pipeline S W → Exec (Pipeline S W × Pipeline S W)
  unfolding assign_lock
  assign_pipeline p other = assign_lock p.stage_lock other.stage_lock >>= λ l.
      done (record (assign_from other) { stage_lock = l }, assigned_from other)

  -- `source()`
  abbrev pub source_of : Pipeline S W → S
  source_of p = p.source

  -- `pipeline(Source src, Config)`
  abbrev pub pipeline : Config → S → Pipeline S W
  pipeline c src = make c src

-- One call that builds a pipeline.
pub data BuildStep (S W : Type 0) : Type 0 where
  subscribes : List ℕ → ℤ → BuildStep S W
  configures : ConfigFn S W → BuildStep S W
  adds_stage : ProcessFn W → BuildStep S W
  sets_sink : SinkFn W → BuildStep S W
  connects_uri : ℕ → List ℕ → BuildStep S W

module _ {S W : Type 0} where
  unfoldable pub build_step : Pipeline S W → BuildStep S W → Pipeline S W
  build_step p (subscribes topic qos) = subscribe p topic qos
  build_step p (configures f) = configure p f
  build_step p (adds_stage f) = add_stage p f
  build_step p (sets_sink f) = set_sink p f
  build_step p (connects_uri temp uri_str) = connect_uri p temp uri_str

  -- A chain of builder calls.
  unfoldable pub build : Pipeline S W → List (BuildStep S W) → Pipeline S W
  build p [] = p
  build p (b ∷ bs) = build (build_step p b) bs
