-- ===== src/Gdb/Attached.antt =====
-- The calls that `R`, the queries and the `v` packets make are on the target that the variables give, or
-- on the one that they attach to.
use blackmagic_espidf.Base.{
  if◌then◌else◌, not, ◌&&◌, refl, ℕ, ◌≡◌, Bool, true, false, none, some, List, map, [], ◌∷◌, ◌==◌,
  ◌||◌, drop,
}
use blackmagic_espidf.Base.Int.{ℤ, pos, negsuc}
use blackmagic_espidf.Base.Text.{codes, str_eq}
use blackmagic_espidf.Gdb.State.{
  command_process, Pointer, Server, Client, Call, target_mem_map, target_regs_description, call,
  Probe, Out, put, answer,
}
use blackmagic_espidf.Gdb.Run.{restart, attached}
use blackmagic_espidf.Gdb.Query.{
  Query, query, unknown, with_region, or_empty, rcmd, supported, is_attached, memory_map, features,
  current, thread_first, thread_next, crc, starts_with, command_reply, run_command, monitor_reset,
  command_text, monitor, reattached, hand_out, on_query, handle_q_packet,
}
use blackmagic_espidf.Gdb.Pointers.{
  At, is_null, IsOn, AreOn, Attaches, Keeps, server, append-AreOn, if_AreOn, answer-Keeps,
  attached-Keeps,
}

-- `r` without a target, whose attachment fails.
unfoldable pub failed_restart : Probe → Pointer → Pointer → Bool
failed_restart w none (some l) = is_null (w.attach l)
failed_restart w none none = false
failed_restart w (some t) last = false

-- `qRcmd` without a target, but for `reset`.
unfoldable pub unchecked_query : Probe → Pointer → List ℕ → Query → Bool
unchecked_query w cur packet rcmd =
    not (starts_with (codes "reset") (command_text w packet)) && is_null cur
unchecked_query w cur packet supported = false
unchecked_query w cur packet is_attached = false
unchecked_query w cur packet memory_map = false
unchecked_query w cur packet features = false
unchecked_query w cur packet current = false
unchecked_query w cur packet thread_first = false
unchecked_query w cur packet thread_next = false
unchecked_query w cur packet unknown = false
unchecked_query w cur packet (crc addr alen) = false

module _ (R : ℕ → Type 0) (nulls : Bool) (mode : Bool) (c : Client) (w : Probe)
    (attaches : Attaches R w) where
  abbrev Kept : Pointer → Pointer → (Server → Client → Out) → Type 0
  Kept cur last handler = At R cur → At R last → Keeps R nulls (handler (server cur last mode) c)

  restarted-Keeps :
      (l : ℕ) (p : Pointer)
      → (is_null p ≡ true → nulls ≡ true)
      → At R p
      → Kept none (some l) (λ s c. attached s c p)
  restarted-Keeps l none h new on on' = attached-Keeps R nulls (some l) mode c on' none none h tt on
  restarted-Keeps l (some t) h new on on' = record {
    calls = (new, tt);
    knows = record { cur = new; last = on' };
  }

  pub restart-Keeps :
      (cur last : Pointer)
      → (failed_restart w cur last ≡ true → nulls ≡ true)
      → Kept cur last (restart w)
  unfolding restart failed_restart
  restart-Keeps none none h on on' = record { calls = tt; knows = record { cur = tt; last = tt } }
  restart-Keeps none (some l) h on on' =
      restarted-Keeps l (w.attach l) h (attaches.again l on') on on'
  restart-Keeps (some t) last h on on' = record {
    calls = (on, tt);
    knows = record { cur = on; last = on' };
  }

  answered-Keeps : (cur last : Pointer) (text : List ℕ) → Kept cur last (λ s c. answer s c text)
  answered-Keeps cur last text on on' = answer-Keeps R nulls last mode c on' cur text on

  pub monitor_reset-Keeps : (cur last : Pointer) → Kept cur last monitor_reset
  unfolding monitor_reset
  monitor_reset-Keeps none last on on' = answered-Keeps none last _ on on'
  monitor_reset-Keeps (some t) last on on' = record {
    calls = (on, (tt, tt));
    knows = record { cur = on; last = on' };
  }

  command_reply-AreOn : (value : ℤ) → AreOn R nulls (command_reply value)
  command_reply-AreOn (negsuc n) = (tt, tt)
  command_reply-AreOn (pos n) =
      if_AreOn R nulls (put (codes "OK") ∷ []) _ (n == 0) (tt, tt)
        (if_AreOn R nulls [] (put (b'E' ∷ []) ∷ []) (n == 255) tt (tt, tt))

  sent-AreOn : (texts : List (List ℕ)) → AreOn R nulls (map put texts)
  sent-AreOn [] = tt
  sent-AreOn (text ∷ texts) = (tt, sent-AreOn texts)

  process-IsOn :
      (text : List ℕ) (cur : Pointer)
      → (is_null cur ≡ true → nulls ≡ true)
      → At R cur
      → IsOn R nulls (command_process cur text)
  process-IsOn text none h on = h refl
  process-IsOn text (some t) h on = on

  run_command-Keeps :
      (text : List ℕ) (cur last : Pointer)
      → (is_null cur ≡ true → nulls ≡ true)
      → Kept cur last (λ s c. run_command w s c text)
  run_command-Keeps text cur last h on on' =
      let (value, text') = w.command cur text in
      record {
        calls = (
          process-IsOn text cur h on,
          append-AreOn R nulls (map put (w.command_sent cur text)) _
              (sent-AreOn (w.command_sent cur text))
              (if_AreOn R nulls [] (command_reply value)
                (str_eq text' (codes "ReadAP") || str_eq text' (codes "WriteDP")) tt
                (command_reply-AreOn value)),
        );
        knows = record { cur = on; last = on' };
      }

  command-Keeps :
      (reset : Bool) (text : List ℕ) (cur last : Pointer)
      → ((not reset && is_null cur) ≡ true → nulls ≡ true)
      → Kept cur last (λ s c. if reset then monitor_reset s c else run_command w s c text)
  command-Keeps true text cur last h on on' = monitor_reset-Keeps cur last on on'
  command-Keeps false text cur last h on on' = run_command-Keeps text cur last h on on'

  monitor-Keeps :
      (packet : List ℕ) (cur last : Pointer)
      → (unchecked_query w cur packet rcmd ≡ true → nulls ≡ true)
      → Kept cur last (λ s c. monitor w s c packet)
  unfolding monitor unchecked_query
  monitor-Keeps packet cur last =
      command-Keeps (starts_with (codes "reset") (command_text w packet)) (command_text w packet)
        cur last

  -- A query about the target, in the variables that it leaves.
  asked-Keeps :
      (text : ℕ → Call × List ℕ) (param : List ℕ) (p last : Pointer)
      → Kept p last (λ s c. hand_out w s c (λ t. (call (text t).0 (some t), (text t).1)) param)
  unfolding hand_out
  asked-Keeps text param none last on on' = answered-Keeps none last _ on on'
  asked-Keeps text param (some t) last on on' = record {
    calls = (on, (tt, tt));
    knows = record { cur = on; last = on' };
  }

  reattached-Keeps :
      (text : ℕ → Call × List ℕ) (param : List ℕ) (cur last : Pointer)
      → Kept cur last
          (λ s c. hand_out w (reattached w s) c (λ t. (call (text t).0 (some t), (text t).1)) param)
  reattached-Keeps text param none none on on' = asked-Keeps text param none none tt tt
  reattached-Keeps text param none (some l) on on' =
      asked-Keeps text param (w.attach l) (some l) (attaches.again l on') on'
  reattached-Keeps text param (some t) last on on' = asked-Keeps text param (some t) last on on'

  module _ (digits : ℕ → List ℕ) (packet : List ℕ) where
    on_query-Keeps :
        (cur last : Pointer) (q : Query)
        → (unchecked_query w cur packet q ≡ true → nulls ≡ true)
        → Kept cur last (λ s c. on_query digits w s c packet q)
    unfolding on_query
    on_query-Keeps cur last rcmd h on on' = monitor-Keeps packet cur last h on on'
    on_query-Keeps cur last supported h on on' = answered-Keeps cur last _ on on'
    on_query-Keeps cur last is_attached h on on' = answered-Keeps cur last _ on on'
    on_query-Keeps cur last memory_map h on on' =
        reattached-Keeps (λ t. (target_mem_map, with_region (w.mem_map t))) (drop 23 packet) cur
          last on on'
    on_query-Keeps cur last features h on on' =
        reattached-Keeps (λ t. (target_regs_description, or_empty (w.description t)))
          (drop 31 packet) cur last on on'
    on_query-Keeps none last (crc addr alen) h on on' = answered-Keeps none last _ on on'
    on_query-Keeps (some t) last (crc addr alen) h on on' = record {
      calls = (on, (tt, tt));
      knows = record { cur = on; last = on' };
    }
    on_query-Keeps cur last current h on on' = answered-Keeps cur last _ on on'
    on_query-Keeps cur last thread_first h on on' = answered-Keeps cur last _ on on'
    on_query-Keeps cur last thread_next h on on' = answered-Keeps cur last _ on on'
    on_query-Keeps cur last unknown h on on' = answered-Keeps cur last _ on on'

    pub handle_q_packet-Keeps :
        (cur last : Pointer)
        → (unchecked_query w cur packet (query w packet) ≡ true → nulls ≡ true)
        → Kept cur last (λ s c. handle_q_packet digits w s c packet)
    unfolding handle_q_packet
    handle_q_packet-Keeps cur last h on on' = on_query-Keeps cur last (query w packet) h on on'
