-- ===== src/Script/Opening.antt =====
-- What a macro pushes, and that the end of its scope takes it off again.
use libevsig.Base.{
  ℕ, ◌+◌, ◌^◌, ◌≤◌, ◌<◌, ◌≡◌, ◌≢◌, refl, ◌∙◌, ap, sym, Bool, true, false, none, List, [], ◌∷◌,
  Result, ok, arith, ==_refl, ==-ne,
}
use libevsig.Unwind.{Model, Models}
use libevsig.Signals.{sig_push_restart-Holds, next_handler_id, next_restart_id}
use libevsig.Send.{autopop_handler}
use libevsig.Send.Scopes.{
  unwind_action-Models, with_restarts, handler_opened, autopop_handler-Models, null_opened-Models,
  restart_opened, action_for,
}
use libevsig.Send.Restore.{Closes}
use libevsig.Thread.{
  SigType, ReturnPoint, OnUnwind, unwind_handler_sig_rm_handler, unwind_handler_sig_rm_restart,
  user_action, SigHandler, null_handler, catchall_handler, sig_static_handler, user_handler,
  HandlerEntry, RestartEntry, Thread, Program,
}
use libevsig.Script.Run.{open_restart}

abbrev pub last_id : List HandlerEntry → ℕ
last_id [] = 0
last_id (e ∷ es) = e.id

next_id : (hs : List HandlerEntry) → last_id hs + 1 < 2 ^ 64 → next_handler_id hs ≡ last_id hs + 1
next_id [] h = refl
next_id (e ∷ hs) h = omega arith

abbrev is_null : SigHandler → Bool
is_null null_handler = true
is_null _ = false

ne_null : {h : SigHandler} → is_null h ≡ false → h ≢ null_handler
ne_null e n = let bad : false ≡ true = sym e ∙ ap is_null n in cc

-- The handlers in the scope of `SIG_AUTOPOP_HANDLER`. A null handler is not pushed.
abbrev pub pushed : List HandlerEntry → SigType → SigHandler → ℕ → List HandlerEntry
pushed hs sig_type null_handler userdata = hs
pushed hs sig_type h userdata =
    record {
      sig_type = sig_type;
      handler = h;
      handler_userdata = userdata;
      id = next_handler_id hs;
    }
    ∷ hs

next-low : (hs : List HandlerEntry) → next_handler_id hs ≤ last_id hs + 1
next-low [] = omega arith
next-low (e ∷ hs) = omega arith

pub pushed-low :
    (hs : List HandlerEntry) (s : SigType) (h : SigHandler) (u : ℕ)
    → last_id (pushed hs s h u) ≤ last_id hs + 1
pushed-low hs s null_handler u = omega arith
pushed-low hs s catchall_handler u = next-low hs
pushed-low hs s sig_static_handler u = next-low hs
pushed-low hs s (user_handler k) u = next-low hs

module _ {W : Type 0} (prog : Program W)
    (returns : (k userdata : ℕ) (w : W) → (prog.on_unwind k userdata w).1 ≡ none) where
  -- A run that opened a scope, with the stacks that it left.
  pub record Opened (m : Model W) (hs : List HandlerEntry) (rs : List RestartEntry) (h : OnUnwind)
      (run : Result (ℕ × Thread W)) : Type 0 where
    pub id : ℕ
    pub thread : Thread W
    pub now : Model W
    pub result : run ≡ ok (id, thread)
    pub models : Models thread now
    pub closes : Closes prog m now (record { h = h; userdata = id })
    pub handlers : now.handlers ≡ hs
    pub restarts : now.restarts ≡ rs

  handler_opens :
      (t : Thread W) (m : Model W) (sig_type : SigType) (h : SigHandler) (userdata : ℕ)
      → h ≢ null_handler
      → last_id m.handlers + 1 < 2 ^ 64
      → Models t m
      → Opened m
          (record {
            sig_type = sig_type;
            handler = h;
            handler_userdata = userdata;
            id = next_handler_id (m.handlers);
          }
            ∷ m.handlers)
          m.restarts
          unwind_handler_sig_rm_handler
          (autopop_handler true t sig_type h userdata)
  handler_opens t m sig_type h userdata real room s =
      let (r, opened, post) = autopop_handler-Models t sig_type h userdata m real s in
      let valid : next_handler_id m.handlers ≢ 0 = omega (arith, next_id m.handlers room) in
      record {
        id = next_handler_id m.handlers;
        thread = r.1;
        now = handler_opened m sig_type h userdata;
        result = opened ∙ ap (λ k. ok (k, r.1)) post.0;
        models = post.1;
        closes = record {
          top = refl;
          undone = λ w. rw (==-ne valid, ==_refl (next_handler_id m.handlers));
        };
        handlers = refl;
        restarts = refl;
      }

  pub autopop_handler-Opened :
      (t : Thread W) (m : Model W) (sig_type : SigType) (h : SigHandler) (userdata : ℕ)
      → last_id m.handlers + 1 < 2 ^ 64
      → Models t m
      → Opened m
          (pushed m.handlers sig_type h userdata)
          m.restarts
          unwind_handler_sig_rm_handler
          (autopop_handler true t sig_type h userdata)
  autopop_handler-Opened t m sig_type null_handler userdata room s =
      let (r, opened, post) = null_opened-Models t sig_type userdata m s in
      record {
        id = 0;
        thread = r.1;
        now = record m { actions = action_for unwind_handler_sig_rm_handler 0 ∷ m.actions };
        result = opened ∙ ap (λ k. ok (k, r.1)) post.0;
        models = post.1;
        closes = record { top = refl; undone = λ w. refl };
        handlers = refl;
        restarts = refl;
      }
  autopop_handler-Opened t m sig_type catchall_handler userdata room s =
      handler_opens t m sig_type catchall_handler userdata (ne_null refl) room s
  autopop_handler-Opened t m sig_type sig_static_handler userdata room s =
      handler_opens t m sig_type sig_static_handler userdata (ne_null refl) room s
  autopop_handler-Opened t m sig_type (user_handler k) userdata room s =
      handler_opens t m sig_type (user_handler k) userdata (ne_null refl) room s

  pub open_restart-Opened :
      (t : Thread W) (m : Model W) (sig_type restart_type : SigType) (p : ReturnPoint)
      → Models t m
      → Opened m m.handlers
          (record {
            sig_type = sig_type;
            restart_type = restart_type;
            p = p;
            id = next_restart_id m.restarts;
          }
            ∷ m.restarts)
          unwind_handler_sig_rm_restart
          (open_restart true sig_type restart_type p t)
  unfolding open_restart
  open_restart-Opened t m sig_type restart_type p s =
      let (r, grown, post) = sig_push_restart-Holds t.restarts sig_type restart_type p s.restarts in
      let (u, acted, s') =
        unwind_action-Models (record t { restarts = r.1 })
          (action_for unwind_handler_sig_rm_restart r.0) _ (with_restarts s post.1) in
      record {
        id = r.0;
        thread = u;
        now = record (restart_opened m sig_type restart_type p) {
          actions = action_for unwind_handler_sig_rm_restart r.0 ∷ m.actions;
        };
        result = rw (grown, acted) refl;
        models = s';
        closes = record {
          top = refl;
          undone = λ w. rw (post.0, ==_refl (next_restart_id m.restarts));
        };
        handlers = refl;
        restarts = refl;
      }

  pub action-Closes :
      (m : Model W) (k userdata : ℕ)
      → Closes prog m
          (record m { actions = action_for (user_action k) userdata ∷ m.actions })
          (record { h = user_action k; userdata = userdata })
  action-Closes m k userdata = record { top = refl; undone = λ w. rw (returns k userdata w) }
