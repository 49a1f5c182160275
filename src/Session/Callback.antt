-- ===== src/Session/Callback.antt =====
-- src/RSession.cpp and src/common/RC2Utils.hpp: R code that the environment watcher runs unheard.
use rc2compute.Prelude.{
  Option, none, some, ◌≡◌, refl, ap, ◌∙◌, Bool, true, false, List, [], ◌∷◌, Bytes,
}
use rc2compute.Effects.{ok, Exec, pure, crash, modify, finally, ◌>>=◌, ◌>>◌}
use rc2compute.Numbers.{ℤ, pos, eq_ℤ}
use rc2compute.World.{World, Console, EvalResult}
use rc2compute.Session.{
  Platform, Session, world_of, with_world, console_callback, console_callbacks, eval,
}

module _ (pf : Platform) where
  open pf use {world}

  -- The function of `getExecuteCallback`, with the scope of its `BooleanWatcher`. `returned` is what
  -- `parseEval` returns for each outcome, and `value` what it puts into `sr`. Where it puts nothing there, the
  -- uninitialised pointer is assigned to the result, which is undefined behaviour. The result of the model is
  -- that of the function and the object of the out-parameter.
  unfoldable pub execute_callback :
      {Obj : Type 0}
      → (EvalResult → ℤ)
      → (EvalResult → Option Obj)
      → Bytes
      → Exec (Session pf) (Bool × Obj)
  execute_callback returned value code = do
    modify (λ s. record s { ignore_output = true })
    result ← finally (eval pf code) (λ s. record s { ignore_output = false })
    elim (value result) [ none ↦ crash | some o ↦ pure (eq_ℤ (returned result) (pos 0), o) ]

  unheard_once :
      (s : Session pf) (c : Console)
      → s.capture_std_out ≡ false
      → s.ignore_output ≡ true
      → console_callback pf s c ≡ s
  unfolding console_callback
  unheard_once s c uncaptured ignored = rw (uncaptured, ignored) refl

  unheard :
      (s : Session pf) (console : List Console)
      → s.capture_std_out ≡ false
      → s.ignore_output ≡ true
      → console_callbacks pf s console ≡ s
  unfolding console_callbacks
  unheard s [] uncaptured ignored = refl
  unheard s (c ∷ cs) uncaptured ignored =
      ap (λ t. console_callbacks pf t cs) (unheard_once s c uncaptured ignored)
      ∙ unheard s cs uncaptured ignored

  -- If output is not captured and the evaluation puts an object into `sr`: whatever R prints meanwhile is
  -- dropped, and the callback returns that object and whether `parseEval` returned 0. Besides the world it
  -- changes only whether output is ignored, which it is not afterwards, also when it was before.
  pub execute_callback-drops :
      {Obj : Type 0} (returned : EvalResult → ℤ) (value : EvalResult → Option Obj) (code : Bytes)
      (s : Session pf) (o : Obj)
      → s.capture_std_out ≡ false
      → value (World.eval world (world_of pf s) code).0.0 ≡ some o
      → let ((result, console), next) = World.eval world (world_of pf s) code in
        execute_callback returned value code s ≡ (
          ok (eq_ℤ (returned result) (pos 0), o),
          record (with_world pf next s) { ignore_output = false },
        )
  unfolding execute_callback eval modify finally pure ◌>>=◌
  execute_callback-drops returned value code s o uncaptured assigned =
      let ((result, console), next) = World.eval world (world_of pf s) code in
      rw assigned (
        ap (λ t. (ok (eq_ℤ (returned result) (pos 0), o), record t { ignore_output = false }))
          (unheard (with_world pf next (record s { ignore_output = true })) console uncaptured
            refl))
