-- ===== src/Errors/Laws.antt =====
-- client.go and smart.go: the results after which `run` does not act again.
use hurricache_go_client.Prelude.{Bool, true, Option, none, some}
use hurricache_go_client.Errors.{Error, has_partial}

abbrev pub forbids_replay : Option Error → Bool
forbids_replay none = true
forbids_replay (some e) = has_partial e
