-- ===== src/Control/Incoming.antt =====
-- src/session/channels/control_receive.c: the worker takes the waiting messages in their order.
use ihslib.Common.{
  ℕ, zero, suc, ◌%◌, ◌^◌, ◌≤◌, ◌≡◌, ◌⊎◌, ◌↔◌, inl, inr, refl, ◌∙◌, Bool, true, false, ◌&&◌, leb,
  ==_iff, List, [], ◌∷◌, length, if◌then◌else◌, arith, sub32,
}
use ihslib.Transport.State.{
  Transport, Phase, unconnected, connecting, handshaking, authenticating, negotiating, starting,
  connected, stopping,
}
use ihslib.Control.State.{
  Message, message_received, Control, note, type_server_handshake, type_authentication_response,
  type_negotiation_init, type_negotiation_set_config,
}
use ihslib.Control.Receive.{is_wanted, can_dispatch, dispatch, drain}

-- The messages that a phase of the connection has handlers for.
abbrev pub HasHandler : Phase → ℕ → Type 0
HasHandler unconnected type = (50 ≤ type) × (type ≤ 147)
HasHandler connecting type = (50 ≤ type) × (type ≤ 147)
HasHandler handshaking type = type ≡ type_server_handshake
HasHandler authenticating type = type ≡ type_authentication_response
HasHandler negotiating type = (type ≡ type_negotiation_init) ⊎ (type ≡ type_negotiation_set_config)
HasHandler starting type = (50 ≤ type) × (type ≤ 147)
HasHandler connected type = (50 ≤ type) × (type ≤ 147)
HasHandler stopping type = (50 ≤ type) × (type ≤ 147)

-- A session that is neither interrupted nor detached takes what its phase has a handler for.
abbrev pub Takes : Transport → ℕ → Type 0
Takes t type = (t.interrupted ≡ false) × (t.detached ≡ false) × HasHandler t.phase type

table_iff : (type : ℕ) → ((leb 50 type && leb type 147) ≡ true) ↔ ((50 ≤ type) × (type ≤ 147))
table_iff type = ((λ h. ground (arith, h)), (λ h. ground (arith, h)))

can_dispatch_iff : (p : Phase) (type : ℕ) → (can_dispatch p type ≡ true) ↔ HasHandler p type
unfolding can_dispatch
can_dispatch_iff unconnected type = table_iff type
can_dispatch_iff connecting type = table_iff type
can_dispatch_iff handshaking type = ==_iff type type_server_handshake
can_dispatch_iff authenticating type = ==_iff type type_authentication_response
can_dispatch_iff negotiating type =
    let init = ==_iff type type_negotiation_init in
    let config = ==_iff type type_negotiation_set_config in
    ((λ h. ground (arith, h, init, config)), (λ h. ground (arith, h, init, config)))
can_dispatch_iff starting type = table_iff type
can_dispatch_iff connected type = table_iff type
can_dispatch_iff stopping type = table_iff type

is_wanted_iff : (t : Transport) (type : ℕ) → (is_wanted t type ≡ true) ↔ Takes t type
unfolding is_wanted
is_wanted_iff t type =
    let table = can_dispatch_iff t.phase type in
    (
      λ h. (ground (arith, h), ground (arith, h), table.0 (ground (arith, h))),
      λ (a, b, c). let d = table.1 c in ground (arith, a, b, d),
    )

-- Handlers that leave the worker's queue alone; what they do to the session is up to them.
pub record LeavesQueue (respond : Message → Control → Control) : Type 0 where
  pub incoming_kept : (m : Message) (s : Control) → (respond m s).incoming ≡ s.incoming
  pub count_kept : (m : Message) (s : Control) → (respond m s).incoming_count ≡ s.incoming_count

-- A message is off the queue.
abbrev pub taken_off : List Message → Control → Control
taken_off rest s = record s { incoming = rest; incoming_count = sub32 s.incoming_count 1 }

module _ (respond : Message → Control → Control) where
  -- Of some waiting messages, each in turn is handed to its handler if the session, as the handlers
  -- before it left it, takes it, and is dropped if not.
  abbrev pub Served : List Message → Control → Control → Type 0
  Served [] s t = t ≡ s
  Served (m ∷ ms) s t =
      (Takes s.session m.type
        × Served ms (respond m (note (message_received m) (taken_off ms s))) t)
      ⊎ (¬ Takes s.session m.type) × Served ms (taken_off ms s) t

  module _ (leaves : LeavesQueue respond) where
    -- What the worker leaves of its queue.
    pub record Drained (s t : Control) : Type 0 where
      pub empty : t.incoming ≡ []
      pub none_counted : t.incoming_count ≡ 0
      pub served : Served s.incoming s t

    abbrev next : Bool → Message → List Message → Control → Control
    next b m rest s = if b then dispatch respond m (taken_off rest s) else taken_off rest s

    next-queue :
        (b : Bool) (m : Message) (rest : List Message) (s : Control)
        → ((next b m rest s).incoming ≡ rest)
          × ((next b m rest s).incoming_count ≡ sub32 s.incoming_count 1)
    unfolding dispatch note
    next-queue true m rest s = (leaves.incoming_kept m _, leaves.count_kept m _)
    next-queue false m rest s = (refl, refl)

    Served-next :
        (b : Bool) (m : Message) (rest : List Message) (s t : Control)
        → is_wanted s.session m.type ≡ b
        → Served rest (next b m rest s) t
        → Served (m ∷ rest) s t
    unfolding dispatch
    Served-next true m rest s t e h = inl ((is_wanted_iff s.session m.type).0 e, h)
    Served-next false m rest s t e h =
        inr (λ takes. let yes_wanted = (is_wanted_iff s.session m.type).1 takes in cc, h)

    drain_done : (fuel : ℕ) (s : Control) → s.incoming ≡ [] → drain respond fuel s ≡ s
    unfolding drain
    drain_done zero s h = refl
    drain_done (suc fuel) s h = rw h refl

    drain_next :
        (fuel : ℕ) (m : Message) (rest : List Message) (s : Control)
        → s.incoming ≡ m ∷ rest
        → drain respond (suc fuel) s
          ≡ drain respond fuel (next (is_wanted s.session m.type) m rest s)
    unfolding drain
    drain_next fuel m rest s h = rw h refl

    drain_list :
        (fuel : ℕ) (ms : List Message) (s : Control)
        → s.incoming ≡ ms
        → length ms ≤ fuel
        → s.incoming_count ≡ length ms % 2 ^ 32
        → let t = drain respond fuel s in (t.incoming ≡ []) × (t.incoming_count ≡ 0) × Served ms s t
    drain_list fuel [] s h le counted = rw (drain_done fuel s h) (h, counted, refl)
    drain_list zero (m ∷ rest) s h le counted = absurd (omega arith)
    drain_list (suc fuel) (m ∷ rest) s h le counted =
        let b = is_wanted s.session m.type in
        let t = next b m rest s in
        let q = next-queue b m rest s in
        let d = drain_list fuel rest t q.0 (omega arith) (q.1 ∙ omega (arith, counted)) in
        rw (drain_next fuel m rest s h)
          (d.0, d.1, Served-next b m rest s (drain respond fuel t) refl d.2)

    -- With as many rounds as messages wait, the worker empties a queue whose count is right, where the
    -- handlers leave the queue alone. It hands over, oldest first, each message that the session takes
    -- at its turn, in the phase to which the handlers before it have brought the session, and drops
    -- the others: all of them where the session is interrupted or detached.
    pub drain-Drained :
        (fuel : ℕ) (s : Control)
        → length s.incoming ≤ fuel
        → s.incoming_count ≡ length s.incoming % 2 ^ 32
        → Drained s (drain respond fuel s)
    drain-Drained fuel s le counted =
        let d = drain_list fuel s.incoming s refl le counted in
        record { empty = d.0; none_counted = d.1; served = d.2 }
