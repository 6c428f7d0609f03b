-- ===== src/Gdb/Freed.antt =====
-- The targets that the probe firmware frees while clients are served: `gdb_target_destroy_callback`
-- and `GDB::gdb_main_loop` of main/gdb_main.cpp.
use blackmagic_espidf.Base.{
  ℕ, ◌≡◌, refl, subst, Bool, true, false, if◌then◌else◌, ◌&&◌, not, Option, none, some, List, [],
  ◌∷◌, ◌||◌, ◌==◌, arith,
}
use blackmagic_espidf.Gdb.Poll.{Reason, poll}
use blackmagic_espidf.Gdb.State.{
  Pointer, Server, Client, Effect, call, command_process, send, notification, Probe, Out,
  target_halt_poll,
}
use blackmagic_espidf.Gdb.Run.{destroy_callback, forget, points, scanned, begin}
use blackmagic_espidf.Gdb.Registers.{replies}
use blackmagic_espidf.Gdb.Server.{Next, loop, session, handle, idle}
use blackmagic_espidf.Gdb.Pointers.{
  At, AreOn, Knows, Attaches, Keeps, server, replies-AreOn, append-AreOn, if_AreOn,
}
use blackmagic_espidf.Gdb.Calls.{NextKeeps, handle-Keeps}

-- The targets that are not freed, and the variables of the server.
pub record World : Type 0 where
  pub live : ℕ → Bool
  pub server : Server

abbrev pub IsLive : (ℕ → Bool) → ℕ → Type 0
IsLive live t = live t ≡ true

abbrev pub appear : ℕ → (ℕ → Bool) → ℕ → Bool
appear t live u = u == t || live u

abbrev pub vanish : ℕ → (ℕ → Bool) → ℕ → Bool
vanish t live u = not (u == t) && live u

-- What happens to the variables, with what the server does then. A target that a command frees while a
-- packet is handled is freed behind it; until then the packet makes no other call.
pub data Step : World → List Effect → World → Type 0 where
  packet :
      {live : ℕ → Bool} {s : Server} (digits : ℕ → List ℕ) (w : Probe) (reason : Reason)
      (in_syscall : Bool) (c : Client) (text : List ℕ) (o : Out)
      → Attaches (IsLive live) w
      → handle digits w reason in_syscall s c text ≡ loop o
      → Step
          (record { live = live; server = s })
          o.effects
          (record { live = live; server = o.server })
  round :
      {live : ℕ → Bool} {s : Server} (reason : Reason) (c : Client)
      → Step
          (record { live = live; server = s })
          (idle reason s c).effects
          (record { live = live; server = (idle reason s c).server })
  connected :
      {live : ℕ → Bool} {s : Server} (w : Probe) (devs : Option ℕ) (num_clients : ℕ)
      → Attaches (IsLive live) w
      → Step
          (record { live = live; server = s })
          []
          (record { live = live; server = begin w devs num_clients s })
  found :
      {live : ℕ → Bool} {s : Server} (t : ℕ)
      → Step (record { live = live; server = s }) [] (record { live = appear t live; server = s })
  freed :
      {live : ℕ → Bool} {s : Server} (w : Probe) (t : ℕ) (c : Client)
      → Step
          (record { live = live; server = s })
          (destroy_callback w t s c).effects
          (record { live = vanish t live; server = (destroy_callback w t s c).server })

-- What can be reached from the start, when no target has been seen.
pub data Reached : World → Type 0 where
  start :
      (mode : Bool)
      → Reached (record {
        live = λ t. false;
        server = record { cur_target = none; last_target = none; flash_mode = mode };
      })
  next : {x y : World} {es : List Effect} → Reached x → Step x es y → Reached y

forget-At :
    (live : ℕ → Bool) (t : ℕ) (p : Pointer)
    → At (IsLive live) p
    → At (IsLive (vanish t live)) (forget t p)
forget-At live t none h = tt
forget-At live t (some u) h = other (u == t) refl
  where
    other : (b : Bool) → (u == t) ≡ b → At (IsLive (vanish t live)) (if b then none else some u)
    other true e = tt
    other false e = ground arith

appear-At :
    (live : ℕ → Bool) (t : ℕ) (p : Pointer) → At (IsLive live) p → At (IsLive (appear t live)) p
appear-At live t none h = tt
appear-At live t (some u) h = ground arith

poll-AreOn :
    (R : ℕ → Type 0) (nulls : Bool) (p : Pointer)
    → At R p
    → AreOn R nulls (elim p [ none ↦ [] | some t ↦ call target_halt_poll (some t) ∷ [] ])
poll-AreOn R nulls none on = tt
poll-AreOn R nulls (some t) on = (on, tt)

idle-Keeps :
    (R : ℕ → Type 0) (nulls : Bool) (reason : Reason) (cur last : Pointer) (mode : Bool)
    (c : Client)
    → At R cur
    → At R last
    → Keeps R nulls (idle reason (server cur last mode) c)
unfolding idle
idle-Keeps R nulls reason cur last mode c on on' =
    let polled : List Effect = elim cur [
      | none ↦ []
      | some t ↦ call target_halt_poll (some t) ∷ []
    ] in
    let (session', sent) = poll (session (server cur last mode) c) reason in
    record {
      calls =
          append-AreOn R nulls (if c.run_state then polled else []) (replies sent)
            (if_AreOn R nulls polled [] c.run_state (poll-AreOn R nulls cur on) tt)
            (replies-AreOn R nulls sent);
      knows = record { cur = on; last = on' };
    }

module _ (R : ℕ → Type 0) (w : Probe) (attaches : Attaches R w) where
  if_Knows : {s s' : Server} (b : Bool) → Knows R s → Knows R s' → Knows R (if b then s else s')
  if_Knows true k k' = k
  if_Knows false k k' = k'

  scanned-Knows : (devs : Option ℕ) (s : Server) → Knows R s → Knows R (scanned w devs s)
  scanned-Knows none s k = k
  scanned-Knows (some devs) s k =
      if_Knows (devs == 0) k (record { cur = attaches.new 1; last = k.last })

  begin-Knows :
      (devs : Option ℕ) (num_clients : ℕ) (s : Server)
      → Knows R s
      → Knows R (begin w devs num_clients s)
  unfolding begin
  begin-Knows devs num_clients s k = if_Knows _ (scanned-Knows devs s k) k

destroy_callback-Keeps :
    (live : ℕ → Bool) (w : Probe) (t : ℕ) (s : Server) (c : Client)
    → Knows (IsLive live) s
    → AreOn (IsLive live) true (destroy_callback w t s c).effects
      × Knows (IsLive (vanish t live)) (destroy_callback w t s c).server
unfolding destroy_callback
destroy_callback-Keeps live w t s c k = (
  if_AreOn (IsLive live) true (_ ∷ _ ∷ []) [] (points s.cur_target t) (tt, (tt, tt)) tt,
  record {
    cur = forget-At live t s.cur_target k.cur;
    last = forget-At live t s.last_target k.last;
  },
)

loop-Keeps :
    (R : ℕ → Type 0) (nulls : Bool) (n : Next) (o : Out)
    → n ≡ loop o
    → NextKeeps R nulls n
    → Keeps R nulls o
loop-Keeps R nulls n o e h = subst (NextKeeps R nulls) e h

allowed : (R : ℕ → Type 0) (nulls : Bool) (es : List Effect) → AreOn R nulls es → AreOn R true es
allowed R nulls [] h = tt
allowed R nulls (call f none ∷ es) h = (refl, allowed R nulls es h.1)
allowed R nulls (call f (some t) ∷ es) h = (h.0, allowed R nulls es h.1)
allowed R nulls (command_process none text ∷ es) h = (refl, allowed R nulls es h.1)
allowed R nulls (command_process (some t) text ∷ es) h = (h.0, allowed R nulls es h.1)
allowed R nulls (send sent ∷ es) h = (tt, allowed R nulls es h.1)
allowed R nulls (notification text ∷ es) h = (tt, allowed R nulls es h.1)

step-Keeps :
    {x y : World} {es : List Effect}
    → Step x es y
    → Knows (IsLive x.live) x.server
    → AreOn (IsLive x.live) true es × Knows (IsLive y.live) y.server
step-Keeps (packet {live} {s} digits w reason in_syscall c text o attaches e) k =
    let kept =
      loop-Keeps (IsLive live) _ (handle digits w reason in_syscall s c text) o e
        (handle-Keeps (IsLive live) digits w reason in_syscall s c text attaches k) in
    (allowed (IsLive live) _ o.effects kept.calls, kept.knows)
step-Keeps (round {live} {s} reason c) k =
    let kept =
      idle-Keeps (IsLive live) true reason s.cur_target s.last_target s.flash_mode c k.cur k.last in
    (kept.calls, kept.knows)
step-Keeps (connected {live} {s} w devs num_clients attaches) k =
    (tt, begin-Knows (IsLive live) w attaches devs num_clients s k)
step-Keeps (found {live} {s} t) k = (
  tt,
  record {
    cur = appear-At live t s.cur_target k.cur;
    last = appear-At live t s.last_target k.last;
  },
)
step-Keeps (freed {live} {s} w t c) k = destroy_callback-Keeps live w t s c k

Reached-Knows : {x : World} → Reached x → Knows (IsLive x.live) x.server
Reached-Knows (start mode) = record { cur = tt; last = tt }
Reached-Knows (next r s) = (step-Keeps s (Reached-Knows r)).1

-- In every state that can be reached from the start, whatever packets come and whatever targets appear
-- and are freed, what the server does next is done on targets that are not freed at that time, or on a
-- null pointer.
pub Reached-AreOn :
    (x y : World) (es : List Effect) → Reached x → Step x es y → AreOn (IsLive x.live) true es
Reached-AreOn x y es r s = (step-Keeps s (Reached-Knows r)).0
