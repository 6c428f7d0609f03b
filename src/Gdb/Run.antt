-- ===== src/Gdb/Run.antt =====
-- Run control and attachment in `GDB::gdb_main_loop` of main/gdb_main.cpp: the packets `s`, `c`, `D`,
-- `k`, `R` and the interrupt; and `gdb_target_destroy_callback`.
use blackmagic_espidf.Base.{
  ℕ, Bool, true, false, ◌&&◌, ◌||◌, Option, none, some, [], ◌∷◌, ◌++◌, ◌==◌, if◌then◌else◌,
}
use blackmagic_espidf.Base.Text.{codes}
use blackmagic_espidf.Gdb.State.{
  Pointer, Server, Client, target_halt_resume, target_halt_request, target_reset, target_detach,
  call, notification, Probe, Out, put, answer,
}

-- `c`, and the end of `s`.
unfoldable pub resume : Server → Client → Out
resume s c = elim s.cur_target [
  | none ↦ answer s c (codes "X1D")
  | some t ↦ record {
    server = s;
    client = record c { run_state = true };
    effects = call (target_halt_resume c.single_step) (some t) ∷ [];
  }
]

unfoldable pub step : Server → Client → Out
unfolding resume
step s c = resume s (record c { single_step = true })

-- The interrupt character.
unfoldable pub interrupt : Server → Client → Out
interrupt s c = record {
  server = s;
  client = record c { run_state = true };
  effects = call target_halt_request s.cur_target ∷ [];
}

unfoldable pub detach : Server → Client → Out
detach s c = record {
  server = record s { last_target = s.cur_target; cur_target = none };
  client = c;
  effects = elim s.cur_target [
    | none ↦ put (codes "OK") ∷ []
    | some t ↦ call target_detach (some t) ∷ put (codes "OK") ∷ []
  ];
}

-- The kill of `k` and of `vKill`, without the reply of the latter.
unfoldable pub kill : Server → Client → Out
kill s c = elim s.cur_target [
  | none ↦ record { server = s; client = c; effects = [] }
  | some t ↦ record {
    server = record s { last_target = some t; cur_target = none };
    client = c;
    effects = call target_reset (some t) ∷ call target_detach (some t) ∷ [];
  }
]

-- `target_reset(cur_target)` behind an attachment, which may have failed.
abbrev pub attached : Server → Client → Pointer → Out
attached s c p = record {
  server = record s { cur_target = p };
  client = c;
  effects = call target_reset p ∷ [];
}

unfoldable pub restart : Probe → Server → Client → Out
restart w s c = elim s.cur_target [
  | some t ↦ record { server = s; client = c; effects = call target_reset (some t) ∷ [] }
  | none ↦ elim s.last_target [
    | none ↦ record { server = s; client = c; effects = [] }
    | some l ↦ attached s c (w.attach l)
  ]
]

-- `p == t`, for a target `t` of the caller.
abbrev pub points : Pointer → ℕ → Bool
points none t = false
points (some u) t = u == t

-- `p = NULL` where it points to `t`.
abbrev pub forget : ℕ → Pointer → Pointer
forget t p = if points p t then none else p

-- The probe firmware frees target `t`, in the task of client `c`; `gdb_out` sends `O` and digits.
unfoldable pub destroy_callback : Probe → ℕ → Server → Client → Out
destroy_callback w t s c = record {
  server = record s { cur_target = forget t s.cur_target; last_target = forget t s.last_target };
  client = if points s.cur_target t then record c { gdb_needs_detach_notify = true } else c;
  effects =
      if points s.cur_target t
      then notification (codes "%Stop:W00")
        ∷ put (b'O' ∷ w.hexify (codes "You are now detached from the previous target." ++ 10 ∷ []))
        ∷ []
      else [];
}

abbrev pub not_set : Pointer → Bool
not_set none = true
not_set (some t) = false

-- `devs` is what `adiv5_swdp_scan` returned, or nothing where it raised an exception. The commands
-- that are added to the target have no other effect.
abbrev pub scanned : Probe → (devs : Option ℕ) → Server → Server
scanned w none s = s
scanned w (some devs) s = if devs == 0 then s else record s { cur_target = w.attach_n 1 }

-- The start of `gdb_main_loop`: the scan, if there is no target or no other client.
unfoldable pub begin : Probe → (devs : Option ℕ) → (num_clients : ℕ) → Server → Server
begin w devs num_clients s =
    if (not_set s.cur_target && not_set s.last_target) || num_clients == 1
    then scanned w devs s
    else s
