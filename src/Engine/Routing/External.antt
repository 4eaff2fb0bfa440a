-- ===== src/Engine/Routing/External.antt =====
-- src/engine/engine.cpp: a call from the gateway is given to a dispatcher, or fails at once.
use nightcore.Prelude.{
  ℕ, ◌≤◌, ◌≡◌, refl, sym, subst, ap, ◌∙◌, ◌⊎◌, inl, inr, arith, Bool, true, false, not, ◌&&◌,
  Bool-cases, none, some, List, [], ◌∷◌, ◌==◌, if◌then◌else◌, length, ltb,
}
use nightcore.Prelude.Int.{ℤ, pos, ◌+ℤ◌, ◌-ℤ◌, -ℤ_parts, +ℤ_parts, eq_of_parts}
use nightcore.Prelude.Map.{lookup, lookup-insert}
use nightcore.Prelude.Result.{ok, Returns, >>=-Returns}
use nightcore.Engine.Tracer.{pointer_of}
use nightcore.Engine.Dispatcher.Idle.{CanSpawn}
use nightcore.Engine.Dispatcher.Queue.{IsTraced}
use nightcore.Protocol.{FuncCall, IsFuncCall, full_call_id, invalid_func_call}
use nightcore.Protocol.Message.{message_inline_data_size}
use nightcore.Utils.Average.{Doubles}
use nightcore.Config.{find_by_func_id}
use nightcore.Engine.World.{World, tick}
use nightcore.Engine.Dispatcher.State.{Dispatcher}
use nightcore.Engine.Dispatcher.Events.{on_new_func_call}
use nightcore.Engine.Dispatcher.Sound.{Sound}
use nightcore.Engine.Dispatcher.Sound.NewCall.{IsPlaced, InputFits, on_new_func_call-Sound}
use nightcore.Engine.Routing.Discarded.{failure}
use nightcore.Engine.Routing.Handlers.{on_external_func_call, admit, submit, stamp, keep_input}
use nightcore.Engine.Routing.{
  Outside, Engine, get_or_create_dispatcher, reply, external_func_call_failed,
}

one_and_back : (z : ℤ) → z +ℤ pos 1 -ℤ pos 1 ≡ z
one_and_back z = eq_of_parts _ _ (omega (arith, +ℤ_parts z (pos 1), -ℤ_parts (z +ℤ pos 1) (pos 1)))

module _ {D : Doubles} where
  -- The dispatcher of the call has it, its worker or queue holds it, and its input is kept if it is
  -- large. Nobody is told anything yet.
  pub record Accepted (c : FuncCall) (input : List ℕ) (d : Dispatcher) (e e' : Engine D)
      : Type 0 where
    pub dispatcher : Dispatcher
    pub found : lookup c.func_id e'.dispatchers ≡ some dispatcher
    pub sound : Sound dispatcher e'.world
    pub placed : IsPlaced d c dispatcher
    pub replied : e'.replies ≡ e.replies
    pub count : e'.inflight_external_requests ≡ e.inflight_external_requests +ℤ pos 1
    pub inputs :
        (k : ℕ)
        → lookup k e'.external_func_call_shm_inputs ≡ (
            if ltb message_inline_data_size (length input) && (full_call_id c == k)
            then some input
            else lookup k e.external_func_call_shm_inputs)

  -- What the dispatcher's theorem needs of the engine when the call comes.
  pub record IsReady (e : Engine D) (c : FuncCall) (d : Dispatcher) : Type 0 where
    pub found : lookup c.func_id e.dispatchers ≡ some d
    pub sound : Sound d e.world
    pub func : d.func_id ≡ c.func_id
    pub call : IsFuncCall c
    pub new : pointer_of e.world c ≡ none
    pub order : d.min_workers ≤ d.max_workers
    pub spawn : CanSpawn e.world

  module _ (outside : Outside) where
    -- The call cannot be served: there is no memory for its input, or no such function.
    abbrev pub IsHopeless : Engine D → FuncCall → List ℕ → Type 0
    IsHopeless e c input =
        ((ltb message_inline_data_size (length input) ≡ true)
          × (outside.shm_create (full_call_id c) ≡ false))
        ⊎ ((lookup c.func_id e.dispatchers ≡ none)
            × (find_by_func_id e.world.config c.func_id ≡ none))

    -- The one reply more is the failure of the call, sent if there is a connection for it, and
    -- nothing of the call is kept.
    pub record Refused (c : FuncCall) (e e' : Engine D) : Type 0 where
      pub replied :
          e'.replies
          ≡ (outside.has_gateway_connection (length e.replies), failure c, []) ∷ e.replies
      pub count : e'.inflight_external_requests ≡ e.inflight_external_requests
      pub dispatchers : e'.dispatchers ≡ e.dispatchers
      pub inputs : e'.external_func_call_shm_inputs ≡ e.external_func_call_shm_inputs

    failed-Refused :
        (e e1 : Engine D) (c : FuncCall)
        → e1.replies ≡ e.replies
        → e1.inflight_external_requests ≡ e.inflight_external_requests +ℤ pos 1
        → e1.dispatchers ≡ e.dispatchers
        → e1.external_func_call_shm_inputs ≡ e.external_func_call_shm_inputs
        → Refused c e (external_func_call_failed outside e1 c)
    unfolding external_func_call_failed reply
    failed-Refused e e1 c t n d i = record {
      replied = ap (λ l. (outside.has_gateway_connection (length l), failure c, []) ∷ l) t;
      count = rw n (one_and_back e.inflight_external_requests);
      dispatchers = d;
      inputs = i;
    }

    get_or_create_dispatcher-none :
        (e : Engine D) (f : ℕ)
        → lookup f e.dispatchers ≡ none
        → find_by_func_id e.world.config f ≡ none
        → get_or_create_dispatcher e f ≡ ok (none, e)
    unfolding get_or_create_dispatcher
    get_or_create_dispatcher-none e f missing unknown =
        rw (missing, get_or_create_dispatcher, unknown) refl

    get_or_create_dispatcher-some :
        (e : Engine D) (f : ℕ) (d : Dispatcher)
        → lookup f e.dispatchers ≡ some d
        → get_or_create_dispatcher e f ≡ ok (some d, e)
    unfolding get_or_create_dispatcher
    get_or_create_dispatcher-some e f d found = rw (found, get_or_create_dispatcher) refl

    stamp_config : (e : Engine D) → (stamp e).world.config ≡ e.world.config
    unfolding stamp
    stamp_config e = refl

    stamp_dispatchers : (e : Engine D) → (stamp e).dispatchers ≡ e.dispatchers
    unfolding stamp
    stamp_dispatchers e = refl

    admit-none :
        (e : Engine D) (c : FuncCall) (input : List ℕ) (large : Bool)
        → lookup c.func_id e.dispatchers ≡ none
        → find_by_func_id e.world.config c.func_id ≡ none
        → admit e c input large ≡ ok (none, stamp e)
    unfolding admit
    admit-none e c input large missing unknown =
        rw
          (get_or_create_dispatcher-none (stamp e) c.func_id
            (ap (lookup c.func_id) (stamp_dispatchers e) ∙ missing)
            (ap (λ g. find_by_func_id g c.func_id) (stamp_config e) ∙ unknown))
          (ap (λ x. ok (none, x)) (unused large))
      where
        unused :
            (b : Bool) → (if b && false then keep_input (stamp e) c input else stamp e) ≡ stamp e
        unused true = refl
        unused false = refl

    admit-some :
        (e : Engine D) (c : FuncCall) (input : List ℕ) (large : Bool) (d : Dispatcher)
        → lookup c.func_id e.dispatchers ≡ some d
        → admit e c input large
          ≡ ok (some d, (if large then keep_input (stamp e) c input else stamp e))
    unfolding admit
    admit-some e c input large d found =
        rw
          (get_or_create_dispatcher-some (stamp e) c.func_id d
            (ap (lookup c.func_id) (stamp_dispatchers e) ∙ found))
          (ap (λ x. ok (some d, x)) (used large))
      where
        used :
            (b : Bool)
            → (if b && true then keep_input (stamp e) c input else stamp e)
              ≡ (if b then keep_input (stamp e) c input else stamp e)
        used true = refl
        used false = refl

    abbrev counted : Engine D → Engine D
    counted e = record e { inflight_external_requests = e.inflight_external_requests +ℤ pos 1 }

    stamp-Refused :
        (e : Engine D) (c : FuncCall)
        → Refused c e (external_func_call_failed outside (stamp (counted e)) c)
    unfolding stamp
    stamp-Refused e c = failed-Refused e (stamp (counted e)) c refl refl refl refl

    -- A call from the gateway for which the region of a large input cannot be made, or whose
    -- function is not configured and has no dispatcher: OnExternalFuncCall returns, the one reply
    -- more is the failure of the call, which is sent exactly if the IO worker has a connection to
    -- the gateway, and the requests in flight, the dispatchers and the inputs kept are as before.
    pub on_external_func_call-Refused :
        (e : Engine D) (c : FuncCall) (input : List ℕ)
        → IsHopeless e c input
        → Returns (on_external_func_call outside e c input) (Refused c e)
    unfolding on_external_func_call
    on_external_func_call-Refused e c input (inl (large, no_memory)) =
        rw (large, no_memory) (failed-Refused e (counted e) c refl refl refl refl)
    on_external_func_call-Refused e c input (inr (missing, unknown)) =
        let large = ltb message_inline_data_size (length input) in
        elim (Bool-cases (large && not (outside.shm_create (full_call_id c)))) [
          | inl stop ↦ rw stop (failed-Refused e (counted e) c refl refl refl refl)
          | inr go ↦
              rw (go, admit-none (counted e) c input large missing unknown) (stamp-Refused e c)
        ]

    submit-Accepted :
        (e e1 : Engine D) (c : FuncCall) (d : Dispatcher) (input : List ℕ) (large : Bool)
        → IsReady e1 c d
        → ltb message_inline_data_size (length input) ≡ large
        → e1.replies ≡ e.replies
        → e1.inflight_external_requests ≡ e.inflight_external_requests +ℤ pos 1
        → ((k : ℕ)
            → lookup k e1.external_func_call_shm_inputs ≡ (
                if large && (full_call_id c == k)
                then some input
                else lookup k e.external_func_call_shm_inputs))
        → Returns (submit outside e1 d c input large) (Accepted c input d e)
    unfolding submit
    submit-Accepted e e1 c d input large r size t n i =
        >>=-Returns
          (on_new_func_call d e1.world c invalid_func_call (length input)
            (if large then [] else input) large)
          _ _ (Accepted c input d e)
          (on_new_func_call-Sound d e1.world c invalid_func_call (length input)
            (if large then [] else input) large r.sound r.func r.call (fits large size) r.new
            r.order r.spawn)
          λ s (success, sound, placed). rw success (record {
            dispatcher = s.1;
            found = ground (arith, lookup-insert c.func_id c.func_id s.1 e1.dispatchers);
            sound = sound_update s.1 s.2 sound;
            placed = placed;
            replied = t;
            count = n;
            inputs = λ k.
                subst
                  (λ b. lookup k e1.external_func_call_shm_inputs ≡ (
                    if b && (full_call_id c == k)
                    then some input
                    else lookup k e.external_func_call_shm_inputs))
                  (sym size) (i k);
          })
      where
        sound_update : (x : Dispatcher) (w : World D) → Sound x w → Sound x w
        sound_update x w h = h

        fits :
            (b : Bool)
            → ltb message_inline_data_size (length input) ≡ b
            → InputFits (if b then [] else input) b
        fits true q = tt
        fits false q = ground arith

    tick-IsTraced : (f : ℕ) (w : World D) → IsTraced f w → IsTraced f (tick w)
    tick-IsTraced f w h = record {
      in_range = h.in_range;
      has_stats = h.has_stats;
      pointers = h.pointers;
    }

    stamp-IsReady :
        (e : Engine D) (c : FuncCall) (d : Dispatcher)
        → IsReady e c d
        → IsReady (stamp (counted e)) c d
    unfolding stamp
    stamp-IsReady e c d r = record {
      found = r.found;
      sound = record {
        tables = r.sound.tables;
        traced = tick-IsTraced d.func_id e.world r.sound.traced;
        queue = r.sound.queue;
      };
      func = r.func;
      call = r.call;
      new = r.new;
      order = r.order;
      spawn = spawn_later r.spawn;
    }
      where
        spawn_later : CanSpawn e.world → CanSpawn (tick e.world)
        spawn_later h = record { id_left = h.id_left; pipes = h.pipes }

    keep_input-IsReady :
        (e : Engine D) (c : FuncCall) (d : Dispatcher) (input : List ℕ)
        → IsReady (stamp (counted e)) c d
        → IsReady (keep_input (stamp (counted e)) c input) c d
    unfolding keep_input
    keep_input-IsReady e c d input r = record {
      found = r.found;
      sound = r.sound;
      func = r.func;
      call = r.call;
      new = r.new;
      order = r.order;
      spawn = r.spawn;
    }

    module _ (e : Engine D) where
      stamp_replies : (stamp (counted e)).replies ≡ e.replies
      unfolding stamp
      stamp_replies = refl

      stamp_count :
          (stamp (counted e)).inflight_external_requests ≡ e.inflight_external_requests +ℤ pos 1
      unfolding stamp
      stamp_count = refl

      stamp_inputs :
          (c : FuncCall) (k : ℕ)
          → lookup k (stamp (counted e)).external_func_call_shm_inputs
            ≡ lookup k e.external_func_call_shm_inputs
      unfolding stamp
      stamp_inputs c k = refl

      kept_replies :
          (c : FuncCall) (input : List ℕ)
          → (keep_input (stamp (counted e)) c input).replies ≡ e.replies
      unfolding stamp keep_input
      kept_replies c input = refl

      kept_count :
          (c : FuncCall) (input : List ℕ)
          → (keep_input (stamp (counted e)) c input).inflight_external_requests
            ≡ e.inflight_external_requests +ℤ pos 1
      unfolding stamp keep_input
      kept_count c input = refl

      kept_inputs :
          (c : FuncCall) (input : List ℕ) (k : ℕ)
          → lookup k (keep_input (stamp (counted e)) c input).external_func_call_shm_inputs
            ≡ (if full_call_id c == k then some input else lookup k e.external_func_call_shm_inputs)
      unfolding stamp keep_input
      kept_inputs c input k = lookup-insert (full_call_id c) k input e.external_func_call_shm_inputs

    -- A call from the gateway whose function has a sound dispatcher with its limits in order, with
    -- its fields in range and an id that the tracer does not know, when a worker could be asked
    -- for, and the input fits a message or its region can be made: OnExternalFuncCall returns,
    -- with the dispatcher sound and the call on a worker or last in its queue; no reply is sent,
    -- one more request is in flight, and the input is kept in shared memory exactly when it does
    -- not fit a message.
    pub on_external_func_call-Accepted :
        (e : Engine D) (c : FuncCall) (input : List ℕ) (d : Dispatcher)
        → IsReady e c d
        → (length input ≤ message_inline_data_size) ⊎ (outside.shm_create (full_call_id c) ≡ true)
        → Returns (on_external_func_call outside e c input) (Accepted c input d e)
    unfolding on_external_func_call
    on_external_func_call-Accepted e c input d r room =
        rw (go room, admit-some (counted e) c input large d r.found)
          (elim (Bool-cases large) [
            | inl big ↦ rw big (
                submit-Accepted e _ c d input true
                  (keep_input-IsReady e c d input (stamp-IsReady e c d r)) big
                  (kept_replies e c input) (kept_count e c input) (kept_inputs e c input))
            | inr small ↦ rw small (
                submit-Accepted e _ c d input false (stamp-IsReady e c d r) small (stamp_replies e)
                  (stamp_count e) (λ k. stamp_inputs e c k))
          ])
      where
        large : Bool
        large = ltb message_inline_data_size (length input)

        go :
            (length input ≤ message_inline_data_size) ⊎ (outside.shm_create (full_call_id c) ≡ true)
            → (large && not (outside.shm_create (full_call_id c))) ≡ false
        go (inl small) = ground arith
        go (inr made) = ground (arith, made)
