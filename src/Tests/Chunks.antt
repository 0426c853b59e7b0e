-- ===== src/Tests/Chunks.antt =====
-- The theorems on chunks at concrete inputs.
use mathlib.Core.List.{reverse_aux}
use hurricache_go_client.Prelude.{
  ℕ, ◌≡◌, refl, true, false, none, some, List, [], ◌∷◌, ◌++◌, append_assoc, append-nil, ap, sym,
  arith,
}
use hurricache_go_client.Errors.Laws.{forbids_replay}
use hurricache_go_client.Types.{no_payload, list}
use hurricache_go_client.Codec.{value_of}
use hurricache_go_client.Collections.Split.{Span}
use hurricache_go_client.Collections.Create.{continuations, create_chunks}
use hurricache_go_client.Collections.Add.{
  AddOutcome, acknowledge, add_tail, add_chunks, remove_chunks,
}
use hurricache_go_client.Wire.{BatchValueResponse}
use hurricache_go_client.Types.{no_data}
use hurricache_go_client.Collections.Streams.{receive}
use hurricache_go_client.Collections.Received.{ReceivedAfter, receive-ReceivedAfter}
use hurricache_go_client.Tests.{copying, small_config}
use hurricache_go_client.Collections.Chunked.{IsInsertion, apply_all, apply_all-send_order}
use hurricache_go_client.Collections.Add.{
  AddKind, add_generic, add_head, add_before, add_after, add_position, add_bool, add_ordered_bool,
  send_order,
}
use hurricache_go_client.Collections.Acknowledged.{
  add_chunks-forbids_replay, remove_chunks-forbids_replay, create_chunks-forbids_replay,
}
use hurricache_go_client.Collections.Counts.{Summed, add_chunks-Summed, remove_chunks-Summed}
use hurricache_go_client.Session.{unary, invoke, check_context}
use hurricache_go_client.World.{Environment, Step, or_handle, or_return, ◌>>=◌}
use hurricache_go_client.Rpc.{Stub, Method, Response, Reply, Call, response, failure}
use hurricache_go_client.Rpc
use hurricache_go_client.Errors.{Ret, unavailable}
use hurricache_go_client.Tests.Examples.{view, topology}
use hurricache_go_client.Smart.Routing.{attempt}
use hurricache_go_client.Smart.Routing.Replay.{inserts, attempt-SendsChunks}
use hurricache_go_client.Session.Answers.{answers}
use hurricache_go_client.Tests.{forever, server, start, session}

-- A server that answers the first call and fails afterwards.
abbrev answer_once : List Call → (m : Method) → Reply (Response m)
answer_once [] Rpc.add_element_to_tail = response (record { size = 3 })
answer_once [] Rpc.remove_from_container_by_key_value = response (record { size = 3 })
answer_once [] Rpc.create_container = response (record { key_hint = none })
answer_once log m = failure unavailable []

abbrev brief : Environment
brief = record server { respond = λ log call. answer_once log call.method }

abbrev two_chunks : List Span
two_chunks = record { start = 0; end = 0 } ∷ record { start = 0; end = 0 } ∷ []

abbrev from_six : AddOutcome
from_six = record { count = 6; ok = true }

add_chunks-Summed_example :
    Summed brief
      (λ x. x.count)
      6
      start
      (add_chunks brief session list add_tail 0 none [] false from_six 0 0 two_chunks start)
add_chunks-Summed_example =
    add_chunks-Summed brief session list add_tail 0 none [] false from_six 0 0 two_chunks start
      (omega arith)

remove_chunks-Summed_example :
    Summed brief (λ n. n) 6 start (remove_chunks brief session list [] 6 0 0 two_chunks start)
remove_chunks-Summed_example =
    remove_chunks-Summed brief session list [] 6 0 0 two_chunks start (omega arith)

add_chunks-forbids_replay_example :
    forbids_replay
      (add_chunks brief session list add_tail 0 none [] false from_six 0 0 two_chunks start).0.1
    ≡ true
unfolding add_chunks acknowledge unary answers invoke or_handle or_return ◌>>=◌ check_context
add_chunks-forbids_replay_example =
    add_chunks-forbids_replay brief session list add_tail 0 none [] false from_six two_chunks start
      (omega arith)

remove_chunks-forbids_replay_example :
    forbids_replay (remove_chunks brief session list [] 6 0 0 two_chunks start).0.1 ≡ true
unfolding remove_chunks unary answers invoke or_handle or_return ◌>>=◌ check_context
remove_chunks-forbids_replay_example =
    remove_chunks-forbids_replay brief session list [] 6 two_chunks start (omega arith)

create_chunks-forbids_replay_example :
    forbids_replay (create_chunks brief session list [] two_chunks start).0.1 ≡ true
unfolding create_chunks continuations unary answers invoke or_handle or_return ◌>>=◌ check_context
create_chunks-forbids_replay_example =
    create_chunks-forbids_replay brief session list [] two_chunks start (omega arith)

abbrev insert_there : Stub → Step (Ret AddOutcome)
insert_there stub =
    add_chunks brief (record session { stub = stub }) list add_tail 0 none [] false from_six 0 0
      two_chunks

attempt-SendsChunks_example :
    attempt view topology forever 3 (some 4) insert_there start ≡ insert_there 3 start
unfolding add_chunks acknowledge unary answers invoke or_handle ◌>>=◌ check_context
attempt-SendsChunks_example =
    attempt-SendsChunks view topology forever 3 (some 4) brief
      (λ stub. record session { stub = stub }) AddOutcome insert_there start
      (inserts list add_tail 0 none [] false from_six two_chunks) (omega arith)

-- A sequence around a pivot: what stands before it, and what stands after it.
abbrev Around : Type 0
Around = List ℕ × List ℕ

abbrev place : AddKind → Around → List ℕ → Around
place add_head (l, r) xs = (reverse_aux xs l, r)
place add_tail (l, r) xs = (l, r ++ xs)
place add_before (l, r) xs = (l ++ xs, r)
place add_after (l, r) xs = (l, xs ++ r)
place _ s xs = s

reverse_aux-append : (a b l : List ℕ) → reverse_aux (a ++ b) l ≡ reverse_aux b (reverse_aux a l)
reverse_aux-append [] b l = refl
reverse_aux-append (x ∷ a) b l = reverse_aux-append a b (x ∷ l)

place_empty : (kind : AddKind) (s : Around) → place kind s [] ≡ s
place_empty add_generic s = refl
place_empty add_head s = refl
place_empty add_tail s = ap (λ r. (s.0, r)) (append-nil s.1)
place_empty add_position s = refl
place_empty add_before s = ap (λ l. (l, s.1)) (append-nil s.0)
place_empty add_after s = refl
place_empty add_bool s = refl
place_empty add_ordered_bool s = refl

place-IsInsertion : IsInsertion place
place-IsInsertion = record {
  empty = place_empty;
  head = λ s a b. ap (λ l. (l, s.1)) (reverse_aux-append a b s.0);
  tail = λ s a b. ap (λ r. (s.0, r)) (sym (append_assoc s.1 a b));
  before = λ s a b. ap (λ l. (l, s.1)) (sym (append_assoc s.0 a b));
  after = λ s a b. ap (λ r. (s.0, r)) (append_assoc a b s.1);
}

abbrev two_spans : List Span
two_spans = record { start = 0; end = 2 } ∷ record { start = 2; end = 3 } ∷ []

apply_all-send_order_example :
    apply_all (place add_after) (7 ∷ 8 ∷ 9 ∷ []) (1 ∷ [], 2 ∷ []) (send_order add_after two_spans)
    ≡ (1 ∷ [], 7 ∷ 8 ∷ 9 ∷ 2 ∷ [])
apply_all-send_order_example =
    apply_all-send_order place add_after (7 ∷ 8 ∷ 9 ∷ []) (1 ∷ [], 2 ∷ []) two_spans
      place-IsInsertion refl
      (refl, omega arith, omega arith, (refl, omega arith, omega arith, refl))

abbrev one_value : BatchValueResponse
one_value = record {
  key_unordered = [];
  key_ordered = [];
  value_unordered = some (value_of no_payload none (1 ∷ [], none)) ∷ [];
  value_ordered = [];
}

abbrev no_value : BatchValueResponse
no_value = record one_value { value_unordered = none ∷ [] }

receive-ReceivedAfter_example :
    ReceivedAfter copying small_config no_data 0
      (one_value ∷ no_value ∷ [])
      none
      (receive copying small_config no_data 0 0 (one_value ∷ no_value ∷ []) none)
receive-ReceivedAfter_example =
    receive-ReceivedAfter copying small_config (one_value ∷ no_value ∷ []) none
