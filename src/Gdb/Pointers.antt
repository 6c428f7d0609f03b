-- ===== src/Gdb/Pointers.antt =====
-- On which targets the server calls the probe firmware.
use blackmagic_espidf.Base.{
  ℕ, ◌≡◌, refl, Bool, true, false, if◌then◌else◌, none, some, List, [], ◌∷◌, ◌++◌,
}
use blackmagic_espidf.Base.Text.{codes}
use blackmagic_espidf.Gdb.Poll.{Sent}
use blackmagic_espidf.Gdb.State.{
  Pointer, Server, Client, Effect, call, command_process, send, notification, Probe, Out, answer,
  if_target,
}
use blackmagic_espidf.Gdb.Run.{resume, interrupt, detach, kill, attached}
use blackmagic_espidf.Gdb.Registers.{replies}

-- The target of a pointer, if there is one, has the property.
abbrev pub At : (ℕ → Type 0) → Pointer → Type 0
At R none = Unit
At R (some t) = R t

abbrev pub is_null : Pointer → Bool
is_null none = true
is_null (some t) = false

-- A call is on a target with the property, or on a null pointer where `nulls` allows it.
abbrev pub IsOn : (ℕ → Type 0) → (nulls : Bool) → Effect → Type 0
IsOn R nulls (call f none) = nulls ≡ true
IsOn R nulls (call f (some t)) = R t
IsOn R nulls (command_process none text) = nulls ≡ true
IsOn R nulls (command_process (some t) text) = R t
IsOn R nulls (send sent) = Unit
IsOn R nulls (notification text) = Unit

abbrev pub AreOn : (ℕ → Type 0) → (nulls : Bool) → List Effect → Type 0
AreOn R nulls [] = Unit
AreOn R nulls (e ∷ es) = IsOn R nulls e × AreOn R nulls es

-- The variables point to targets with the property, and so do the attachments of this packet.
pub record Knows (R : ℕ → Type 0) (s : Server) : Type 0 where
  pub cur : At R s.cur_target
  pub last : At R s.last_target

pub record Attaches (R : ℕ → Type 0) (w : Probe) : Type 0 where
  pub new : (n : ℕ) → At R (w.attach_n n)
  pub again : (l : ℕ) → R l → At R (w.attach l)

pub record Keeps (R : ℕ → Type 0) (nulls : Bool) (o : Out) : Type 0 where
  pub calls : AreOn R nulls o.effects
  pub knows : Knows R o.server

module _ (R : ℕ → Type 0) (nulls : Bool) where
  pub append-AreOn :
      (xs ys : List Effect) → AreOn R nulls xs → AreOn R nulls ys → AreOn R nulls (xs ++ ys)
  append-AreOn [] ys h h' = h'
  append-AreOn (x ∷ xs) ys h h' = (h.0, append-AreOn xs ys h.1 h')

  pub replies-AreOn : (sent : List Sent) → AreOn R nulls (replies sent)
  replies-AreOn [] = tt
  replies-AreOn (p ∷ sent) = (tt, replies-AreOn sent)

  pub if_AreOn :
      (xs ys : List Effect) (b : Bool)
      → AreOn R nulls xs
      → AreOn R nulls ys
      → AreOn R nulls (if b then xs else ys)
  if_AreOn xs ys true h h' = h
  if_AreOn xs ys false h h' = h'

  pub if_Keeps :
      {o o' : Out} (b : Bool)
      → Keeps R nulls o
      → Keeps R nulls o'
      → Keeps R nulls (if b then o else o')
  if_Keeps true h h' = h
  if_Keeps false h h' = h'

-- The variables, by their values.
abbrev pub server : Pointer → Pointer → Bool → Server
server cur last mode = record { cur_target = cur; last_target = last; flash_mode = mode }

module _ (R : ℕ → Type 0) (nulls : Bool) (last : Pointer) (mode : Bool) (c : Client)
    (known : At R last) where
  abbrev Kept : Pointer → (Server → Client → Out) → Type 0
  Kept cur handler = At R cur → Keeps R nulls (handler (server cur last mode) c)

  pub answer-Keeps : (cur : Pointer) (text : List ℕ) → Kept cur (λ s c. answer s c text)
  answer-Keeps cur text on = record { calls = (tt, tt); knows = record { cur = on; last = known } }

  pub if_target-Keeps :
      (cur : Pointer) (handler : ℕ → Out)
      → ((t : ℕ) → R t → Keeps R nulls (handler t))
      → Kept cur (λ s c. if_target s c handler)
  if_target-Keeps none handler h on = answer-Keeps none (codes "EFF") on
  if_target-Keeps (some t) handler h on = h t on

  pub resume-Keeps : (cur : Pointer) → Kept cur resume
  unfolding resume
  resume-Keeps none on = answer-Keeps none (codes "X1D") on
  resume-Keeps (some t) on = record { calls = (on, tt); knows = record { cur = on; last = known } }

  pub detach-Keeps : (cur : Pointer) → Kept cur detach
  unfolding detach
  detach-Keeps none on = record { calls = (tt, tt); knows = record { cur = tt; last = tt } }
  detach-Keeps (some t) on = record {
    calls = (on, (tt, tt));
    knows = record { cur = tt; last = on };
  }

  pub kill-Keeps : (cur : Pointer) → Kept cur kill
  unfolding kill
  kill-Keeps none on = record { calls = tt; knows = record { cur = tt; last = known } }
  kill-Keeps (some t) on = record { calls = (on, (on, tt)); knows = record { cur = tt; last = on } }

  pub interrupt-Keeps : (cur : Pointer) → (is_null cur ≡ true → nulls ≡ true) → Kept cur interrupt
  unfolding interrupt
  interrupt-Keeps none h on = record {
    calls = (h refl, tt);
    knows = record { cur = tt; last = known };
  }
  interrupt-Keeps (some t) h on = record {
    calls = (on, tt);
    knows = record { cur = on; last = known };
  }

  pub attached-Keeps :
      (cur p : Pointer)
      → (is_null p ≡ true → nulls ≡ true)
      → At R p
      → Kept cur (λ s c. attached s c p)
  attached-Keeps cur none h on' on = record {
    calls = (h refl, tt);
    knows = record { cur = tt; last = known };
  }
  attached-Keeps cur (some t) h on' on = record {
    calls = (on', tt);
    knows = record { cur = on'; last = known };
  }
