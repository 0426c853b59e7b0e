-- ===== src/Tests.antt =====
-- Concrete data for the examples, and runs of the model on them.
mod Examples
mod Chunks
mod Topologies
mod Clients
use hurricache_go_client.Prelude.{
  ℕ, pos, ◌+◌, ◌*◌, ◌-◌, ◌≡◌, refl, Bool, true, false, Option, none, some, List, [], ◌∷◌, arith,
}
use hurricache_go_client.Errors.{ok, Ret, status, unavailable, data_loss}
use hurricache_go_client.Types.{Options, no_payload, Payload}
use hurricache_go_client.Config.{Config, IsNormal, normalize_config}
use hurricache_go_client.Codec.{Compressors, encode, encode_key}
use hurricache_go_client.Codec.RoundTrip.{IsInverse}
use hurricache_go_client.Rpc.{Method, Response, Reply, response, failure}
use hurricache_go_client.Rpc
use hurricache_go_client.World.{Ctx, Environment, World, ◌>>=◌, or_return}
use hurricache_go_client.Session.{
  Session, direct_run, perform, prepare, unary, invoke, check_context,
}
use hurricache_go_client.Operations.{exist_key}
use hurricache_go_client.Collections.Split.{split, pack, bisect, check_items}

-- Compressors that copy.
abbrev pub copying : Compressors
copying = record {
  compress_block_bound = λ n. n;
  compress_block = λ b n. ok b;
  uncompress_block = λ b n. ok b;
  gzip_write = λ b. ok b;
  gzip_reader = λ b. some (record { content = b; broken = false });
}

pub copying-IsInverse : IsInverse copying
copying-IsInverse = record { block = λ b w h. ground arith; gzip = λ b w h. ground arith }

abbrev pub small_config : Config
small_config = record {
  client_id = 7;
  timeout = pos 1000000000;
  default_ttl = pos 0;
  compression_threshold = some (pos 1);
  compression_codec = 1;
  max_request_bytes = pos 100;
  max_decoded_bytes = pos 1000;
}

pub small_config-IsNormal : IsNormal small_config
small_config-IsNormal = record {
  codec = omega arith;
  present = refl;
  threshold = omega arith;
  timeout = omega arith;
  ttl = omega arith;
  request = omega arith;
  decoded = omega arith;
}

abbrev pub no_options : Options
no_options = record { hint = none; client_id = none; ttl = none; timeout = none; mode = none }

abbrev pub forever : Ctx
forever t = none

-- A server that knows every key and refuses all else.
abbrev answer : (m : Method) → Reply (Response m)
answer Rpc.exist_key = response (record { value = true })
answer _ = failure unavailable []

abbrev pub server : Environment
server = record {
  closed = λ t. false;
  elapsed = λ d t. false;
  now = λ t. 5000000000000;
  proto_size = λ m. 40;
  respond = λ log call. answer call.method;
  compressors = copying;
}

abbrev pub closed_client : Environment
closed_client = record server { closed = λ t. true }

abbrev pub start : World
start = record { tick = 0; log = []; wake = false }

abbrev pub session : Session
session = record {
  ctx = forever;
  stub = 0;
  key = record { payload = none; key_hint = none; client_id = some 7; compression_info = none };
  ttl = none;
  config = small_config;
}

-- A key is asked for by one call, whose answer is returned.
exist_key_run :
    (exist_key server (direct_run server 3) small_config forever (1 ∷ []) no_options start).0
    ≡ (true, none)
unfolding exist_key perform prepare encode_key encode direct_run unary invoke check_context
    or_return ◌>>=◌
exist_key_run = refl
