-- ===== src/Channel/Clients.antt =====
-- The clients of the GDB server, main/gdb_if.cpp: the loop of `gdb_net_task` accepts a connection and
-- makes a `GDB_client`, whose task counts itself in `num_clients` and serves until `destroy`.
use blackmagic_espidf.Base.{ℕ, ◌<◌, ◌≡◌, ◌≢◌, Bool, true, false, List, [], ◌∷◌, if◌then◌else◌}
use blackmagic_espidf.Base.Int.{ℤ, pos, suc_ℤ, pred_ℤ}

-- The task of a client. `missing`: `xTaskCreate` has failed, which the constructor does not test.
-- `ending`: in `destroy`, in front of `vTaskDelete`.
pub data Task : Type 0 where
  missing created running ending gone : Task

-- `allocated`: the object is not deleted.
pub data Conn : Type 0 where
  client : (sock : ℕ) → Task → (allocated : Bool) → Conn

pub record Net : Type 0 where
  pub num_clients : ℤ
  pub clients : List Conn

-- A step of a client, and what it does to `num_clients`. `destroy` up to
-- `xTimerPendFunctionCall` closes the socket; the timer's task deletes the object, before or behind
-- `vTaskDelete`.
pub data Move : Conn → (ℤ → ℤ) → Conn → Type 0 where
  task : {sock : ℕ} {a : Bool} → Move (client sock created a) suc_ℤ (client sock running a)
  destroy : {sock : ℕ} {a : Bool} → Move (client sock running a) pred_ℤ (client sock ending a)
  task_deleted : {sock : ℕ} {a : Bool} → Move (client sock ending a) (λ n. n) (client sock gone a)
  deleted_ending : {sock : ℕ} → Move (client sock ending true) (λ n. n) (client sock ending false)
  deleted_gone : {sock : ℕ} → Move (client sock gone true) (λ n. n) (client sock gone false)

-- One client of the list changes.
pub data Change : List Conn → Conn → Conn → List Conn → Type 0 where
  here : {c c' : Conn} {cs : List Conn} → Change (c ∷ cs) c c' (c' ∷ cs)
  there : {c c' d : Conn} {cs cs' : List Conn} → Change cs c c' cs' → Change (d ∷ cs) c c' (d ∷ cs')

-- The socket is not closed.
abbrev pub is_open : Conn → Bool
is_open (client sock missing a) = true
is_open (client sock created a) = true
is_open (client sock running a) = true
is_open (client sock ending a) = false
is_open (client sock gone a) = false

abbrev pub sock_of : Conn → ℕ
sock_of (client sock t a) = sock

-- No client has the socket open.
abbrev pub IsFresh : ℕ → List Conn → Type 0
IsFresh sock [] = Unit
IsFresh sock (c ∷ cs) = (is_open c ≡ true → sock_of c ≢ sock) × IsFresh sock cs

-- `accept` returns a socket that is not open, and the loop takes it if it is more than 0.
pub data Step (s : Net) : Net → Type 0 where
  accepted :
      (sock : ℕ) (task_created : Bool)
      → IsFresh sock s.clients
      → 0 < sock
      → Step s (record s {
        clients = client sock (if task_created then created else missing) true ∷ s.clients;
      })
  moved :
      {c c' : Conn} {cs : List Conn} {count : ℤ → ℤ}
      → Change s.clients c c' cs
      → Move c count c'
      → Step s (record { num_clients = count s.num_clients; clients = cs })

-- `num_clients` begins at 0.
abbrev pub no_clients : Net
no_clients = record { num_clients = pos 0; clients = [] }

pub data Reach : Net → Type 0 where
  start : Reach no_clients
  later : {s s' : Net} → Reach s → Step s s' → Reach s'
