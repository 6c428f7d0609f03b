-- ===== src/Gdb/Lost.antt =====
-- A target that is lost while a packet is handled: the exception that `GDB_client::task` of
-- main/gdb_if.cpp catches, and the start of `gdb_main_loop` behind it.
use blackmagic_espidf.Base.{
  ℕ, ◌≡◌, refl, ap, ap₂, Bool, true, false, ◌&&◌, ◌||◌, Option, none, some, List, [], ◌∷◌, ◌==◌,
  if◌then◌else◌, arith,
}
use blackmagic_espidf.Base.Text.{codes}
use blackmagic_espidf.Gdb.State.{Pointer, Server, Client, Probe, Out, put, then_effects}
use blackmagic_espidf.Gdb.Run.{forget, destroy_callback, not_set, scanned, begin}

-- `target_list_free` of the probe firmware: `targets` are those that it calls
-- `gdb_target_destroy_callback` for.
unfoldable pub destroy_callbacks : Probe → List ℕ → Server → Client → Out
unfolding destroy_callback
destroy_callbacks w [] s c = record { server = s; client = c; effects = [] }
destroy_callbacks w (t ∷ targets) s c =
    let o = destroy_callback w t s c in
    then_effects o.effects (destroy_callbacks w targets o.server o.client)

-- The case of a caught exception in the loop of `GDB_client::task`.
unfoldable pub on_exception : Probe → List ℕ → Server → Client → Out
unfolding destroy_callbacks
on_exception w targets s c = then_effects (put (codes "EFF") ∷ []) (destroy_callbacks w targets s c)

abbrev pub is_among : List ℕ → ℕ → Bool
is_among [] t = false
is_among (u ∷ targets) t = t == u || is_among targets t

-- A pointer to a target of the list, if it is set.
abbrev pub IsListed : List ℕ → Pointer → Type 0
IsListed targets none = Unit
IsListed targets (some t) = is_among targets t ≡ true

forget-IsListed :
    (t : ℕ) (targets : List ℕ) (p : Pointer)
    → IsListed (t ∷ targets) p
    → IsListed targets (forget t p)
forget-IsListed t targets none h = tt
forget-IsListed t targets (some u) h = other (u == t) h
  where
    other :
        (b : Bool)
        → (b || is_among targets u) ≡ true
        → IsListed targets (if b then none else some u)
    other true h = tt
    other false h = h

nothing_listed : (p : Pointer) → IsListed [] p → p ≡ none
nothing_listed none h = refl
nothing_listed (some t) h = ground arith

destroy_callbacks-nulls :
    (w : Probe) (targets : List ℕ) (s : Server) (c : Client)
    → IsListed targets s.cur_target
    → IsListed targets s.last_target
    → ((destroy_callbacks w targets s c).server.cur_target ≡ none)
      × ((destroy_callbacks w targets s c).server.last_target ≡ none)
unfolding destroy_callbacks destroy_callback
destroy_callbacks-nulls w [] s c h h' =
    (nothing_listed s.cur_target h, nothing_listed s.last_target h')
destroy_callbacks-nulls w (t ∷ targets) s c h h' =
    let o = destroy_callback w t s c in
    destroy_callbacks-nulls w targets o.server o.client (forget-IsListed t targets s.cur_target h)
      (forget-IsListed t targets s.last_target h')

-- Where an exception leaves the loop, and the variables point to targets that the probe firmware frees:
-- both are null behind its handling, so that the loop, which starts again, scans for targets, whatever
-- the number of clients.
pub on_exception-scans :
    (w : Probe) (targets : List ℕ) (s : Server) (c : Client) (devs : Option ℕ) (num_clients : ℕ)
    → IsListed targets s.cur_target
    → IsListed targets s.last_target
    → let o = on_exception w targets s c in
      (o.server.cur_target ≡ none)
      × (o.server.last_target ≡ none)
      × (begin w devs num_clients o.server ≡ scanned w devs o.server)
unfolding on_exception begin
on_exception-scans w targets s c devs num_clients h h' =
    let nulls = destroy_callbacks-nulls w targets s c h h' in
    (nulls.0, nulls.1, scans (destroy_callbacks w targets s c).server nulls.0 nulls.1)
  where
    scans :
        (s' : Server)
        → s'.cur_target ≡ none
        → s'.last_target ≡ none
        → (if (not_set s'.cur_target && not_set s'.last_target) || num_clients == 1
            then scanned w devs s'
            else s')
          ≡ scanned w devs s'
    scans s' e e' =
        ap (λ b. if b || num_clients == 1 then scanned w devs s' else s')
          (ap₂ (λ p q. not_set p && not_set q) e e')
