-- ===== src/Middleware/Observer/Lines.antt =====
-- The lines that the handlers of middleware/observer.go log around the next handler and under the end of
-- a trace.
use kit_legacy.Base.{String, ◌≡◌, refl, ap, ◌∙◌, Option, List, [], ◌∷◌, if◌then◌else◌}
use kit_legacy.Errors.Value.{GoError}
use kit_legacy.World.Event.{ZLevel, writes, Event, World}
use kit_legacy.World.Action.{
  Outcome, returned, panicked, exited, Action, Fallible, pure, panic_with, bind-returned, ◌>>=◌,
}
use kit_legacy.Middleware.Observer.{run_deferred}

-- The lines with a message of the level info more, by the threshold of the logger that it is given to.
abbrev pub with_line :
    ZLevel → List (String × String) → List (List (String × String)) → List (List (String × String))
with_line threshold fields written =
    if writes threshold ZLevel.info then fields ∷ written else written

-- The fields of the messages without a text that zerolog writes, the newest first.
unfoldable pub lines : {F : Type 0} → World F → List (List (String × String))
lines [] = []
lines (Event.logged_fields threshold fields ∷ w) = with_line threshold fields (lines w)
lines (_ ∷ w) = lines w

module _ {F : Type 0} where
  -- What is logged around a handler, by how it has ended, and how the call ends.
  abbrev pub Logged :
      ZLevel
      → (Option (GoError F) → World F → List (String × String))
      → Outcome F (Option (GoError F)) × World F
      → Outcome F (Option (GoError F)) × World F
      → Type 0
  Logged threshold fields (returned err, w) y =
      (y.0 ≡ returned err)
      × ((at : World F) × (lines y.1 ≡ with_line threshold (fields err at) (lines w)))
  Logged threshold fields (panicked v, w) y = (y.0 ≡ panicked v) × (lines y.1 ≡ lines w)
  Logged threshold fields (exited code, w) y = y ≡ (exited code, w)

  unfoldable pub Silent : Action F (Unit {0}) → Type 0
  Silent f = (w : World F) → ((f w).0 ≡ returned tt) × (lines (f w).1 ≡ lines w)

  unfoldable pub Logging :
      ZLevel
      → (Option (GoError F) → World F → List (String × String))
      → (Option (GoError F) → Fallible F)
      → Type 0
  Logging threshold fields k =
      (err : Option (GoError F)) (w : World F)
      → ((k err w).0 ≡ returned err)
        × ((at : World F) × (lines (k err w).1 ≡ with_line threshold (fields err at) (lines w)))

  behind_end :
      (at_end : Action F (Unit {0})) (err : Option (GoError F))
      (reply : Outcome F (Option (GoError F)) × World F)
      → Silent at_end
      → reply.0 ≡ returned err
      → ((run_deferred at_end reply).0 ≡ returned err)
        × (lines (run_deferred at_end reply).1 ≡ lines reply.1)
  unfolding run_deferred Silent
  behind_end at_end err (returned r, w) quiet e =
      let (back, same) = quiet w in
      let course = bind-returned at_end (λ (_ : Unit {0}). pure r) w tt back in
      (ap (λ y. y.0) course ∙ e, ap (λ y. lines y.1) course ∙ same)
  behind_end at_end err (panicked v, w) quiet e = cc
  behind_end at_end err (exited code, w) quiet e = cc

  pub reply-Logged :
      (threshold : ZLevel) (fields : Option (GoError F) → World F → List (String × String))
      (at_end : Action F (Unit {0})) (k : Option (GoError F) → Fallible F) (before : World F)
      (reply : Outcome F (Option (GoError F)) × World F)
      → Silent at_end
      → Logging threshold fields k
      → Logged threshold fields reply
          (run_deferred at_end (((λ (_ : World F). reply) >>= k) before))
  unfolding run_deferred Silent Logging
  reply-Logged threshold fields at_end k before (returned err, w) quiet logging =
      let (back, (at, line)) = logging err w in
      let (ends, same) = behind_end at_end err (k err w) quiet back in (ends, (at, same ∙ line))
  reply-Logged threshold fields at_end k before (panicked v, w) quiet logging =
      let (back, same) = quiet w in
      let course =
        bind-returned {B = Option (GoError F)} at_end (λ (_ : Unit {0}). panic_with v) w tt back in
      (ap (λ y. y.0) course, ap (λ y. lines y.1) course ∙ same)
  reply-Logged threshold fields at_end k before (exited code, w) quiet logging = refl
