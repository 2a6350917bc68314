-- ===== src/Net/Server/Messages.antt =====
-- The messages between the threads of net/server.py. Times are in microseconds.
use ee_kernel.Base.{ℕ, Bool, Text, Dict, Option}
use ee_kernel.Base.Int.{ℤ}
use ee_kernel.Helpers.Json.{Json}
use ee_kernel.Net.Data.{PermuterData}

pub record Client : Type 0 where
  pub id : Text
  pub nickname : Text

-- Activity: what the main thread of the server handles.
pub data Activity : Type 0 where
  add_permuter : (handle : ℤ) (time_start : ℕ) → Client → PermuterData → Activity
  remove_permuter : (handle : ℤ) → Activity
  work : (handle : ℤ) (id time_start : ℕ) (seed : ℤ) → Activity
  immediate_disconnect : (handle : ℤ) → Client → (reason : Text) → Activity
  disconnect : (handle : ℤ) → Activity
  perm_init_fail : (perm_id error : Text) → Activity
  perm_init_success : (perm_id : Text) (base_score : ℤ) (base_hash : Text) (time_us : ℤ) → Activity
  work_done :
      (perm_id : Text) (id : ℤ) (result : Dict Json) (time_us : ℤ) (compressed_source : Option Text)
      → Activity
  need_more_work heartbeat shutdown : Activity
  net_thread_disconnected : (graceful : Bool) (message : Option Text) → Activity

-- Output: what is sent to the controller.
pub data Output : Type 0 where
  output_disconnect : (handle : ℤ) → Output
  output_init_fail : (handle : ℤ) (error : Text) → Output
  output_init_success : (handle time_us base_score : ℤ) (base_hash : Text) → Output
  output_need_more_work : Output
  output_work :
      (handle : ℤ) (time_start : ℕ) (time_us : ℤ) (result : Dict Json)
      (compressed_source : Option Text)
      → Output
  output_shutdown : Output

-- IoMessage: what the user interface is told of a permuter.
pub data IoMessage : Type 0 where
  io_connect : (fn_name : Text) → Client → IoMessage
  io_disconnect : (reason : Text) → IoMessage
  io_immediate_disconnect : (reason : Text) → Client → IoMessage
  io_user_remove_permuter : IoMessage
  io_work_done : (score : Option ℤ) (is_improvement : Bool) → IoMessage

pub data IoGlobalMessage : Type 0 where
  io_reconnect io_shutdown : IoGlobalMessage
  io_server_failed : (graceful : Bool) (message : Option Text) → IoGlobalMessage

-- IoActivity, without the token of the server, which is the same for all
pub data IoActivity : Type 0 where
  of_permuter : (handle : ℤ) → IoMessage → IoActivity
  global : IoGlobalMessage → IoActivity

-- What is sent through a Port.
pub data Sent : Type 0 where
  json : Dict Json → Sent
  bytes : Text → Sent
