-- ===== src/Error.antt =====
-- src/error/raft_error.rs: the errors of the engine and the class that says how the caller reacts.
-- A message that the source formats is kept without the numbers that it prints.
use Prim.Native.String.{String}
use arbitro_raft.Base.{ℕ, Bool, true, false, Option, if◌then◌else◌}

-- The kinds of `std::io::Error` that the engine tells apart.
pub data IoKind : Type 0 where
  storage_full quota_exceeded out_of_memory other_kind : IoKind

pub data RaftError : Type 0 where
  not_leader : Option ℕ → RaftError
  no_quorum overloaded : RaftError
  transfer_timeout term_changed peer_unknown : ℕ → RaftError
  invalid_config invalid_payload protocol dispatch storage transport corrupt_log snapshot :
      String → RaftError
  io : IoKind → RaftError

pub data ErrorClass : Type 0 where
  transient not_leader_redirect bad_frame resource fatal : ErrorClass

unfoldable pub io_kind_is_resource_exhaustion : IoKind → Bool
io_kind_is_resource_exhaustion storage_full = true
io_kind_is_resource_exhaustion quota_exceeded = true
io_kind_is_resource_exhaustion out_of_memory = true
io_kind_is_resource_exhaustion other_kind = false

unfoldable pub class : RaftError → ErrorClass
unfolding io_kind_is_resource_exhaustion
class (io kind) = if io_kind_is_resource_exhaustion kind then resource else fatal
class (storage m) = fatal
class (corrupt_log m) = fatal
class (not_leader h) = not_leader_redirect
class (protocol m) = bad_frame
class (dispatch m) = bad_frame
class (snapshot m) = bad_frame
class (invalid_payload m) = bad_frame
class (invalid_config m) = bad_frame
class (peer_unknown p) = bad_frame
class no_quorum = transient
class (term_changed t) = transient
class (transport m) = transient
class overloaded = transient
class (transfer_timeout p) = transient

abbrev is_fatal_class : ErrorClass → Bool
is_fatal_class fatal = true
is_fatal_class _ = false

unfoldable pub is_fatal : RaftError → Bool
unfolding class
is_fatal e = is_fatal_class (class e)

pub data Result {ℓ} (A : Type ℓ) : Type ℓ where
  ok : A → Result A
  err : RaftError → Result A
