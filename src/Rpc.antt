-- ===== src/Rpc.antt =====
-- The remote methods that the client calls through the generated stub of
-- proto/cachepb/cache_grpc.pb.go, each with its request and response message.
use hurricache_go_client.Prelude.{ℕ, Option, List, String}
use hurricache_go_client.Errors.{Code}
use hurricache_go_client.Wire.{
  GetRequest, ContainerGetRequest, TtlRequest, TtlResponse, CreateRequest, UpdateRequest,
  UpdateContainerRequest, BoolResponse, IntResponse, ValueResponse, BatchValueResponse,
  UpdateValueResponse, KeyHintResponse, KeyPositionRequest, CreateContainerRequest, AddToRequest,
  AddToValRequest, RemoveFromContainerRequest, LockRequest, UnLockRequest, LockResponse,
  AtomicValue, AtomicCreate, AtomicCas, AtomicCasRes,
}

pub data Method : Type 0 where
  get_value get_and_delete_value get_head get_tail get_and_remove_front get_and_remove_tail : Method
  exist_key remove remove_head remove_tail : Method
  get_size : Method
  atomic_load atomic_load_and_delete : Method
  set_ttl get_ttl : Method
  create_key_value update_value : Method
  get_element_at_position get_and_remove_element_at_position remove_element_at_position : Method
  get_value_in_container get_and_delete_value_in_container : Method
  exist_key_in_container remove_in_container update_value_in_container : Method
  lock_object unlock_object : Method
  atomic_create atomic_store atomic_exchange atomic_add : Method
  atomic_sub atomic_or atomic_and atomic_xor : Method
  atomic_compare_and_set : Method
  create_container add_element add_element_to_head add_element_to_tail : Method
  add_element_to_position_by_value remove_from_container_by_key_value : Method
  get_container get_element_in_range : Method

abbrev pub Request : Method → Type 0
Request set_ttl = TtlRequest
Request create_key_value = CreateRequest
Request update_value = UpdateRequest
Request get_element_at_position = KeyPositionRequest
Request get_and_remove_element_at_position = KeyPositionRequest
Request remove_element_at_position = KeyPositionRequest
Request get_element_in_range = KeyPositionRequest
Request get_value_in_container = ContainerGetRequest
Request get_and_delete_value_in_container = ContainerGetRequest
Request exist_key_in_container = ContainerGetRequest
Request remove_in_container = ContainerGetRequest
Request update_value_in_container = UpdateContainerRequest
Request lock_object = LockRequest
Request unlock_object = UnLockRequest
Request atomic_create = AtomicCreate
Request atomic_store = AtomicCreate
Request atomic_exchange = AtomicCreate
Request atomic_add = AtomicCreate
Request atomic_sub = AtomicCreate
Request atomic_or = AtomicCreate
Request atomic_and = AtomicCreate
Request atomic_xor = AtomicCreate
Request atomic_compare_and_set = AtomicCas
Request create_container = CreateContainerRequest
Request add_element = AddToRequest
Request add_element_to_head = AddToRequest
Request add_element_to_tail = AddToRequest
Request add_element_to_position_by_value = AddToValRequest
Request remove_from_container_by_key_value = RemoveFromContainerRequest
Request _ = GetRequest

-- Any request message, as `proto.Size` takes it.
pub data Message : Type 0 where
  get_message : GetRequest → Message
  ttl_message : TtlRequest → Message
  create_message : CreateRequest → Message
  update_message : UpdateRequest → Message
  position_message : KeyPositionRequest → Message
  container_get_message : ContainerGetRequest → Message
  update_container_message : UpdateContainerRequest → Message
  lock_message : LockRequest → Message
  unlock_message : UnLockRequest → Message
  atomic_message : AtomicCreate → Message
  cas_message : AtomicCas → Message
  create_container_message : CreateContainerRequest → Message
  add_message : AddToRequest → Message
  add_relative_message : AddToValRequest → Message
  remove_message : RemoveFromContainerRequest → Message

abbrev pub message : (m : Method) → Request m → Message
message set_ttl q = ttl_message q
message create_key_value q = create_message q
message update_value q = update_message q
message get_element_at_position q = position_message q
message get_and_remove_element_at_position q = position_message q
message remove_element_at_position q = position_message q
message get_element_in_range q = position_message q
message get_value_in_container q = container_get_message q
message get_and_delete_value_in_container q = container_get_message q
message exist_key_in_container q = container_get_message q
message remove_in_container q = container_get_message q
message update_value_in_container q = update_container_message q
message lock_object q = lock_message q
message unlock_object q = unlock_message q
message atomic_create q = atomic_message q
message atomic_store q = atomic_message q
message atomic_exchange q = atomic_message q
message atomic_add q = atomic_message q
message atomic_sub q = atomic_message q
message atomic_or q = atomic_message q
message atomic_and q = atomic_message q
message atomic_xor q = atomic_message q
message atomic_compare_and_set q = cas_message q
message create_container q = create_container_message q
message add_element q = add_message q
message add_element_to_head q = add_message q
message add_element_to_tail q = add_message q
message add_element_to_position_by_value q = add_relative_message q
message remove_from_container_by_key_value q = remove_message q
message _ q = get_message q

-- A stream as it is received: its batches up to the end, and the failure that ends it, if any, with
-- its code and the route trailers.
pub record Stream : Type 0 where
  pub batches : List BatchValueResponse
  pub failure : Option (Code × List String)

abbrev pub Response : Method → Type 0
Response exist_key = BoolResponse
Response remove = BoolResponse
Response remove_head = BoolResponse
Response remove_tail = BoolResponse
Response remove_element_at_position = BoolResponse
Response exist_key_in_container = BoolResponse
Response set_ttl = BoolResponse
Response get_size = IntResponse
Response remove_in_container = IntResponse
Response add_element = IntResponse
Response add_element_to_head = IntResponse
Response add_element_to_tail = IntResponse
Response add_element_to_position_by_value = IntResponse
Response remove_from_container_by_key_value = IntResponse
Response atomic_load = AtomicValue
Response atomic_load_and_delete = AtomicValue
Response atomic_exchange = AtomicValue
Response atomic_add = AtomicValue
Response atomic_sub = AtomicValue
Response atomic_or = AtomicValue
Response atomic_and = AtomicValue
Response atomic_xor = AtomicValue
Response atomic_compare_and_set = AtomicCasRes
Response get_ttl = TtlResponse
Response create_key_value = KeyHintResponse
Response atomic_create = KeyHintResponse
Response atomic_store = KeyHintResponse
Response create_container = KeyHintResponse
Response update_value = UpdateValueResponse
Response update_value_in_container = UpdateValueResponse
Response lock_object = LockResponse
Response unlock_object = LockResponse
Response get_container = Stream
Response get_element_in_range = Stream
Response _ = ValueResponse

-- A stub is known by the endpoint that it calls, a number that stands for its address in memory.
abbrev pub Stub : Type 0
Stub = ℕ

pub record Call : Type 0 where
  pub stub : Stub
  pub method : Method
  pub request : Request method

-- What the transport answers: a response, or a status code with the route trailers.
pub data Reply {ℓ} (A : Type ℓ) : Type ℓ where
  response : A → Reply A
  failure : Code → List String → Reply A
