-- ===== src/Config.antt =====
-- include/pipepp/core/config.hpp: the sizes that a build is compiled for.
use pipepp_core.Prelude.{ℕ}

-- `minimal_uri_tag` and `rfc3986_uri_tag`
pub data UriParserTag : Type 0 where
  minimal_uri_tag rfc3986_uri_tag : UriParserTag

pub record Config : Type 0 where
  pub uri_parser : UriParserTag
  pub max_uri_len : ℕ
  pub max_topic_len : ℕ
  pub max_payload_len : ℕ
  pub max_stages : ℕ
  pub max_config_ops : ℕ
  pub max_subscriptions : ℕ
  pub small_fn_size : ℕ
  pub source_size : ℕ
  pub max_scheme_len : ℕ
  pub max_schemes : ℕ

abbrev pub default_config : Config
default_config = record {
  uri_parser = minimal_uri_tag;
  max_uri_len = 256;
  max_topic_len = 256;
  max_payload_len = 4096;
  max_stages = 8;
  max_config_ops = 4;
  max_subscriptions = 8;
  small_fn_size = 128;
  source_size = 2048;
  max_scheme_len = 16;
  max_schemes = 4;
}

abbrev pub embedded_config : Config
embedded_config = record {
  uri_parser = minimal_uri_tag;
  max_uri_len = 128;
  max_topic_len = 64;
  max_payload_len = 512;
  max_stages = 4;
  max_config_ops = 2;
  max_subscriptions = 4;
  small_fn_size = 64;
  source_size = 512;
  max_scheme_len = 8;
  max_schemes = 2;
}
